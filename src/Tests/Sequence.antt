-- ===== src/Tests/Sequence.antt =====
-- An interrogation of 128 single points at consecutive addresses.
use iec104_server_and_modbus.Base.{
  ℕ, zero, suc, ◌+◌, ◌^◌, ◌≤◌, ◌<◌, ◌≡◌, refl, ap, true, false, none, some, List, [], ◌∷◌, take,
  replicate, length, arith,
}
use iec104_server_and_modbus.Iec.{create_asdu, interrogated_by_station}
use iec104_server_and_modbus.Iec.TypeId
use iec104_server_and_modbus.Data.Types.{DataTypeInfo, bool, get_data_type_info}
use iec104_server_and_modbus.Data.Manager.{DataTypeContext}
use iec104_server_and_modbus.Interrogation.Blocks.{zip_points, points, send_interrogation_for_type}
use iec104_server_and_modbus.Interrogation.Chunks.{Consecutive, objects}
use iec104_server_and_modbus.Interrogation.Fits.{InRange}
use iec104_server_and_modbus.Interrogation.Limit.{send_interrogation_for_type-long}
use iec104_server_and_modbus.Tests.Fixtures.{encoder, point}

abbrev count_from : ℕ → ℕ → List ℕ
count_from zero a = []
count_from (suc n) a = a ∷ count_from n (a + 1)

counts_up : (n a : ℕ) → Consecutive a (zip_points (count_from n a) (replicate n (point 0)))
counts_up zero a = tt
counts_up (suc n) a = (refl, counts_up n (a + 1))

in_range :
    (n a : ℕ) → a + n ≤ 2 ^ 24 → InRange (zip_points (count_from n a) (replicate n (point 0)))
in_range zero a h = tt
in_range (suc n) a h = (omega arith, in_range n (a + 1) (omega arith))

all_points : (n a : ℕ) → length (zip_points (count_from n a) (replicate n (point 0))) ≡ n
all_points zero a = refl
all_points (suc n) a = ap suc (all_points n (a + 1))

abbrev pub lamp_info : DataTypeInfo
lamp_info = record {
  type_id = TypeId.m_sp_na_1;
  name = "M_SP_NA_1";
  value_type = bool;
  has_time_tag = false;
  has_quality = true;
  io_size = 4;
  offline_equivalent = TypeId.m_sp_tb_1;
}

-- Lamps at the addresses 1 to 128.
abbrev lamps : DataTypeContext
lamps = record {
  type_id = TypeId.m_sp_na_1;
  type_info = lamp_info;
  config = record { ioa_list = some (count_from 128 1); count = 128 };
  data_array = some (replicate 128 (point 0));
  last_offline_update = none;
}

send_interrogation_for_type-long_example :
    let sent = objects TypeId.m_sp_na_1 (take 127 (points lamps)) in
    (send_interrogation_for_type encoder 1 lamps
      ≡ some (record (create_asdu true interrogated_by_station 0 1) { elements = sent } ∷ []))
    × (length sent < 128)
unfolding get_data_type_info
send_interrogation_for_type-long_example =
    send_interrogation_for_type-long encoder lamps 1 1 refl refl refl refl (all_points 128 1)
      (counts_up 128 1) (in_range 128 1 (omega arith)) (omega arith) (omega arith)
