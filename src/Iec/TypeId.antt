-- ===== src/Iec/TypeId.antt =====
-- enum IEC60870_5_TypeID of iec60870_common.h, as far as the server names it.
use iec104_server_and_modbus.Base.{ℕ}

abbrev pub m_sp_na_1 : ℕ
m_sp_na_1 = 1

abbrev pub m_dp_na_1 : ℕ
m_dp_na_1 = 3

abbrev pub m_me_na_1 : ℕ
m_me_na_1 = 9

abbrev pub m_me_nb_1 : ℕ
m_me_nb_1 = 11

abbrev pub m_me_tb_1 : ℕ
m_me_tb_1 = 12

abbrev pub m_me_nc_1 : ℕ
m_me_nc_1 = 13

abbrev pub m_me_nd_1 : ℕ
m_me_nd_1 = 21

abbrev pub m_sp_tb_1 : ℕ
m_sp_tb_1 = 30

abbrev pub m_dp_tb_1 : ℕ
m_dp_tb_1 = 31

abbrev pub m_me_td_1 : ℕ
m_me_td_1 = 34

abbrev pub m_me_tf_1 : ℕ
m_me_tf_1 = 36

abbrev pub m_it_tb_1 : ℕ
m_it_tb_1 = 37

abbrev pub c_sc_na_1 : ℕ
c_sc_na_1 = 45

abbrev pub c_dc_na_1 : ℕ
c_dc_na_1 = 46

abbrev pub c_se_na_1 : ℕ
c_se_na_1 = 48

abbrev pub c_se_nc_1 : ℕ
c_se_nc_1 = 50

abbrev pub c_rp_na_1 : ℕ
c_rp_na_1 = 105
