-- ===== src/Legacy/Server.antt =====
-- `process_data_update` of json-iec104-server/json-iec104-server.c. `CS101_ASDU_create` succeeds.
use iec104_server_and_modbus.Base.{
  ℕ, ◌-◌, ◌%◌, ◌^◌, Bool, false, ◌&&◌, Option, none, some, List, [], ◌∷◌, ◌++◌, ◌==◌, if◌then◌else◌,
}
use iec104_server_and_modbus.Cfloat.{FloatUnit}
use iec104_server_and_modbus.Globals.{Globals}
use iec104_server_and_modbus.Iec.TypeId
use iec104_server_and_modbus.Iec.{
  InformationObject, BinaryCounterReading, create_asdu, spontaneous, single_point_with_cp56,
  double_point_with_cp56, normalized_with_cp56, single_point, normalized, short, short_with_cp56,
}
use iec104_server_and_modbus.Data.Manager.{find_ioa_index}
use iec104_server_and_modbus.Interrogation.Encoder.{Encoder}
use iec104_server_and_modbus.Legacy.Points.{
  Points, Counters, Output, not_configured, unknown_type, client_not_connected, enqueued,
  update_m_sp_tb_1_data, update_m_dp_tb_1_data, update_m_me_td_1_data, update_m_sp_na_1_data,
  update_m_me_nc_1_data, update_m_me_nd_1_data, update_m_it_tb_1_data,
}

-- The types that `process_data_update` has a case for.
pub record LegacyData : Type 0 where
  pub m_sp_tb_1 : Points
  pub m_dp_tb_1 : Points
  pub m_me_td_1 : Points
  pub m_it_tb_1 : Counters
  pub m_sp_na_1 : Points
  pub m_me_nd_1 : Points
  pub m_me_nc_1 : Points

-- What a call reads of its surroundings: `IsClientConnected` in the update and after it, the clock,
-- and the time of `GetCP56Time2a`.
pub record LegacySurroundings : Type 0 where
  pub connected : Bool
  pub still_connected : Bool
  pub now : ℕ
  pub cp56 : ℕ

-- The conversions of a `double` to `uint64_t` and to `int`, and `BinaryCounterReading_setValue`.
pub record Conversions : Type 0 where
  pub to_uint64 : ℕ → ℕ
  pub to_int : ℕ → ℕ
  pub set_value : BinaryCounterReading → ℕ → BinaryCounterReading

-- The result of an update: the points, whether it is reported, and what was printed.
abbrev pub Updated : Type 0
Updated = (Points × Bool) × List Output

-- The update at the index that the loop over the addresses found.
unfoldable pub at_index :
    ℕ → ℕ → Points → (ℕ → Points × List Output) → Option ℕ → Points × List Output
at_index type_id address p update none = (p, not_configured type_id address ∷ [])
at_index type_id address p update (some i) = update i

unfoldable pub counter_at :
    ℕ → ℕ → Counters → (ℕ → Counters × List Output) → Option ℕ → Counters × List Output
counter_at type_id address c update none = (c, not_configured type_id address ∷ [])
counter_at type_id address c update (some i) = update i

module _ (f : FloatUnit) (g : Globals) (enc : Encoder) (k : Conversions)
    (env : LegacySurroundings) where
  -- The originator address is the common address, too.
  unfoldable pub spontaneous_report : InformationObject → List Output
  spontaneous_report io = enqueued (enc.add (create_asdu false spontaneous g.asdu g.asdu) io) ∷ []

  -- A reported update is sent if a client is still connected.
  unfoldable pub send_update : InformationObject → Updated → Points × List Output
  unfolding spontaneous_report
  send_update io ((p, rc), out) =
      (p, if rc && env.still_connected then out ++ spontaneous_report io else out)

  -- M_ME_NC_1: without a client, an object with a time is put into the queue.
  unfoldable pub send_short : InformationObject → InformationObject → Updated → Points × List Output
  unfolding spontaneous_report
  send_short io offline ((p, rc), out) = (
    p,
    if rc
        then (if env.still_connected
            then out ++ spontaneous_report io
            else out ++ (client_not_connected ∷ spontaneous_report offline))
        else out,
  )

  -- The cases of the type; `v` is the `double`, and `q` and `ioa` are patterns of an `int`.
  module _ (v ioa q : ℕ) where
    unfoldable pub process_m_sp_tb_1 : Points → Points × List Output
    unfolding at_index send_update update_m_sp_tb_1_data
    process_m_sp_tb_1 p =
        let io = single_point_with_cp56 ioa (f.to_bool v) q env.cp56 in
        at_index TypeId.m_sp_tb_1 ioa p
          (λ i.
            send_update io
              (update_m_sp_tb_1_data g env.connected env.now p i (if f.to_bool v then 1 else 0) q))
          (find_ioa_index p.config ioa)

    unfoldable pub process_m_dp_tb_1 : Points → Points × List Output
    unfolding at_index send_update update_m_dp_tb_1_data
    process_m_dp_tb_1 p =
        let io = double_point_with_cp56 ioa (f.to_enum v) q env.cp56 in
        at_index TypeId.m_dp_tb_1 ioa p
          (λ i. send_update io (update_m_dp_tb_1_data g env.connected env.now p i (f.to_enum v) q))
          (find_ioa_index p.config ioa)

    unfoldable pub process_m_me_td_1 : Points → Points × List Output
    unfolding at_index send_update update_m_me_td_1_data
    process_m_me_td_1 p =
        let io = normalized_with_cp56 ioa (f.to_float v) q env.cp56 in
        at_index TypeId.m_me_td_1 ioa p
          (λ i.
            send_update io (update_m_me_td_1_data g env.connected env.now f p i (f.to_float v) q))
          (find_ioa_index p.config ioa)

    unfoldable pub process_m_it_tb_1 : Counters → Counters × List Output
    unfolding counter_at update_m_it_tb_1_data
    process_m_it_tb_1 c =
        counter_at TypeId.m_it_tb_1 ioa c
          (λ i. update_m_it_tb_1_data k.set_value c i (k.to_uint64 v % (2 ^ 32 - 1)))
          (find_ioa_index c.config ioa)

    unfoldable pub process_m_sp_na_1 : Points → Points × List Output
    unfolding at_index send_update update_m_sp_na_1_data
    process_m_sp_na_1 p =
        let io = single_point ioa (f.to_bool v) q in
        at_index TypeId.m_sp_na_1 ioa p
          (λ i.
            send_update io (update_m_sp_na_1_data g env.connected env.now p i (f.to_uint32 v) q))
          (find_ioa_index p.config ioa)

    unfoldable pub process_m_me_nd_1 : Points → Points × List Output
    unfolding at_index send_update update_m_me_nd_1_data
    process_m_me_nd_1 p =
        let io = normalized ioa (f.to_float v) 0 in
        at_index TypeId.m_me_nd_1 ioa p
          (λ i. send_update io (update_m_me_nd_1_data g env.connected env.now p i (f.to_uint32 v)))
          (find_ioa_index p.config ioa)

    unfoldable pub process_m_me_nc_1 : Points → Points × List Output
    unfolding at_index send_short update_m_me_nc_1_data
    process_m_me_nc_1 p =
        let io = short ioa (f.to_float v) q in
        let offline = short_with_cp56 ioa (f.to_float v) q env.cp56 in
        at_index TypeId.m_me_nc_1 ioa p
          (λ i.
            send_short io offline
              (update_m_me_nc_1_data g env.connected env.now f p i (f.to_float v) q))
          (find_ioa_index p.config ioa)

    unfoldable pub process_data_update : ℕ → LegacyData → LegacyData × List Output
    unfolding process_m_sp_tb_1 process_m_dp_tb_1 process_m_me_td_1 process_m_it_tb_1
        process_m_sp_na_1 process_m_me_nd_1 process_m_me_nc_1
    process_data_update type_id s =
        if type_id == TypeId.m_sp_tb_1
        then (let (p, out) = process_m_sp_tb_1 s.m_sp_tb_1 in (record s { m_sp_tb_1 = p }, out))
        else if type_id == TypeId.m_dp_tb_1
        then (let (p, out) = process_m_dp_tb_1 s.m_dp_tb_1 in (record s { m_dp_tb_1 = p }, out))
        else if type_id == TypeId.m_me_td_1
        then (let (p, out) = process_m_me_td_1 s.m_me_td_1 in (record s { m_me_td_1 = p }, out))
        else if type_id == TypeId.m_it_tb_1
        then (let (c, out) = process_m_it_tb_1 s.m_it_tb_1 in (record s { m_it_tb_1 = c }, out))
        else if type_id == TypeId.m_sp_na_1
        then (let (p, out) = process_m_sp_na_1 s.m_sp_na_1 in (record s { m_sp_na_1 = p }, out))
        else if type_id == TypeId.m_me_nd_1
        then (let (p, out) = process_m_me_nd_1 s.m_me_nd_1 in (record s { m_me_nd_1 = p }, out))
        else if type_id == TypeId.m_me_nc_1
        then (let (p, out) = process_m_me_nc_1 s.m_me_nc_1 in (record s { m_me_nc_1 = p }, out))
        else (s, unknown_type ∷ [])
