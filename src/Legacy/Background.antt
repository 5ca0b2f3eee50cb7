-- ===== src/Legacy/Background.antt =====
-- `resetProcessHandler` and a round of `SendPeriodicData` of
-- json-iec104-server/json-iec104-server.c. `CS101_ASDU_create` succeeds.
use iec104_server_and_modbus.Base.{
  ℕ, zero, suc, Bool, false, not, ◌&&◌, List, [], ◌∷◌, ◌++◌, ltb, leb, ◌==◌, if◌then◌else◌, sub_u64,
}
use iec104_server_and_modbus.Globals.{Globals}
use iec104_server_and_modbus.Iec.{
  Asdu, BinaryCounterReading, Cot, InformationObject, activation_con, create_asdu, periodic, short,
  single_point,
}
use iec104_server_and_modbus.Data.Manager
use iec104_server_and_modbus.Interrogation.Encoder.{Encoder}
use iec104_server_and_modbus.Periodic.{PeriodicConfig}
use iec104_server_and_modbus.Legacy.Interrogation.{add_all}
use iec104_server_and_modbus.Legacy.Points.{Entry, Points, Counters}
use iec104_server_and_modbus.Legacy.Server.{LegacyData}

-- What the reset sends and prints: `act_con` is `IMasterConnection_sendACT_CON` with no negative
-- sign, and `reply` is the request with that cause.
pub data ResetOutput : Type 0 where
  reset_received act_con reset_completed : ResetOutput
  unknown_qualifier : ℕ → ResetOutput
  reply : Cot → ResetOutput

-- `memset` to 0 of the first `n` points.
unfoldable pub zero_entries : ℕ → List Entry → List Entry
zero_entries zero es = es
zero_entries (suc n) [] = []
zero_entries (suc n) (e ∷ es) = record { value = 0; qualifier = 0 } ∷ zero_entries n es

unfoldable pub reset_points : Points → Points
unfolding zero_entries
reset_points p = record p { entries = zero_entries p.config.count p.entries }

unfoldable pub zero_counters :
    (BinaryCounterReading → ℕ → BinaryCounterReading)
    → ℕ
    → List BinaryCounterReading
    → List BinaryCounterReading
zero_counters set_value zero cs = cs
zero_counters set_value (suc n) [] = []
zero_counters set_value (suc n) (c ∷ cs) = set_value c 0 ∷ zero_counters set_value n cs

unfoldable pub reset_counters :
    (BinaryCounterReading → ℕ → BinaryCounterReading) → Counters → Counters
unfolding zero_counters
reset_counters set_value c = record c { entries = zero_counters set_value c.config.count c.entries }

-- The types that are reset; M_ME_ND_1 is not, nor are the types that no line can update.
unfoldable pub reset_data :
    (BinaryCounterReading → ℕ → BinaryCounterReading) → LegacyData → LegacyData
unfolding reset_points reset_counters
reset_data set_value s = record s {
  m_sp_tb_1 = reset_points s.m_sp_tb_1;
  m_dp_tb_1 = reset_points s.m_dp_tb_1;
  m_me_td_1 = reset_points s.m_me_td_1;
  m_it_tb_1 = reset_counters set_value s.m_it_tb_1;
  m_sp_na_1 = reset_points s.m_sp_na_1;
  m_me_nc_1 = reset_points s.m_me_nc_1;
}

unfoldable pub legacy_reset_handler :
    (BinaryCounterReading → ℕ → BinaryCounterReading)
    → ℕ
    → LegacyData
    → LegacyData × List ResetOutput
unfolding reset_data
legacy_reset_handler set_value qrp s =
    if qrp == 1
    then (
      reset_data set_value s,
      reset_received ∷ act_con ∷ reset_completed ∷ reply activation_con ∷ [],
    )
    else (s, reset_received ∷ act_con ∷ unknown_qualifier qrp ∷ reply activation_con ∷ [])

-- The objects of the first `n` points.
unfoldable pub point_objects :
    (ℕ → Entry → InformationObject) → ℕ → List ℕ → List Entry → List InformationObject
point_objects create zero ioas es = []
point_objects create (suc n) (ioa ∷ ioas) (e ∷ es) = create ioa e ∷ point_objects create n ioas es
point_objects create (suc n) _ _ = []

module _ (enc : Encoder) (g : Globals) (now : ℕ) where
  -- All objects of a type are added to one ASDU.
  unfoldable pub send_type_periodic :
      (ℕ → Entry → InformationObject) → Points → PeriodicConfig → PeriodicConfig × List Asdu
  unfolding point_objects add_all
  send_type_periodic create p c =
      if c.enabled && (ltb 0 p.config.count && leb c.period_ms (sub_u64 now c.last_sent))
      then (
        record c { last_sent = now },
        add_all enc (create_asdu false periodic g.asdu g.asdu)
              (point_objects create p.config.count (Manager.entries p.config.ioa_list) p.entries)
            ∷ [],
      )
      else (c, [])

  -- The points of M_SP_TB_1 are sent with no time.
  unfoldable pub legacy_periodic_round :
      Bool
      → LegacyData
      → PeriodicConfig
      → PeriodicConfig
      → PeriodicConfig × PeriodicConfig × List Asdu
  unfolding send_type_periodic
  legacy_periodic_round connected s me sp =
      let (me', xs) = send_type_periodic (λ ioa e. short ioa e.value e.qualifier) s.m_me_nc_1 me in
      let (sp', ys) =
        send_type_periodic (λ ioa e. single_point ioa (not (e.value == 0)) e.qualifier) s.m_sp_tb_1
          sp in
      if connected then (me', sp', xs ++ ys) else (me, sp, [])
