-- ===== src/Tests/Legacy.antt =====
-- The interrogation of the server in a single file: 24 single points with a time, and a configuration
-- of other types.
use iec104_server_and_modbus.Base.{
  ℕ, ◌+◌, ◌≡◌, ◌≢◌, ◌⊎◌, inl, inr, refl, true, false, not, All, ◌++◌, if◌then◌else◌, some, List, [],
  ◌∷◌, map, take, ◌==◌, arith,
}
use iec104_server_and_modbus.Iec.{
  Asdu, create_asdu, interrogated_by_station, single_point_with_cp56,
}
use iec104_server_and_modbus.Iec.TypeId
use iec104_server_and_modbus.Data.Types.{get_data_type_info}
use iec104_server_and_modbus.Legacy.Interrogation.{
  LegacyPoint, Section, sections, calc_max_ioas, send_section, legacy_interrogation_handler,
}
use iec104_server_and_modbus.Legacy.Loss.{send_section-loses}
use iec104_server_and_modbus.Legacy.Complete.{HasLegacyHeader}
use iec104_server_and_modbus.Legacy.Station.{section_objects, legacy_interrogation_handler_lem}
use iec104_server_and_modbus.Interrogation.Complete.{sent_objects}
use iec104_server_and_modbus.Interrogation.Station.{act_con, act_term, asdu}
use iec104_server_and_modbus.Tests.Fixtures.{encoder}

abbrev timed_points : Section
timed_points = record {
  ioa_size = 8;
  create = λ p. single_point_with_cp56 p.0 (not (p.1 == 0)) p.2 7;
}

abbrev points_from : ℕ → List LegacyPoint → List LegacyPoint
points_from ioa ps =
    (ioa, 1, 0)
    ∷ (ioa + 1, 0, 0)
    ∷ (ioa + 2, 1, 0)
    ∷ (ioa + 3, 0, 0)
    ∷ (ioa + 4, 1, 0)
    ∷ (ioa + 5, 1, 0)
    ∷ (ioa + 6, 0, 0)
    ∷ (ioa + 7, 1, 0)
    ∷ ps

abbrev twenty_four : List LegacyPoint
twenty_four = points_from 1 (points_from 9 (points_from 17 []))

send_section-loses_example :
    send_section encoder 3 timed_points twenty_four
    ≡ some (
        record (create_asdu false interrogated_by_station 3 3) {
          elements = take 22 (map timed_points.create twenty_four);
        }
        ∷ [])
unfolding get_data_type_info calc_max_ioas
send_section-loses_example =
    send_section-loses encoder 3 TypeId.m_sp_tb_1 22 timed_points twenty_four (λ p. refl)
      (omega arith) (omega arith) (omega arith) (omega arith) (omega arith) (omega arith)

-- Single points, and normalized and scaled values, but none of the other types.
abbrev configured : List (List LegacyPoint)
configured =
    []
    ∷ []
    ∷ []
    ∷ ((1, 1, 0) ∷ (2, 0, 128) ∷ [])
    ∷ []
    ∷ ((20, 1, 0) ∷ [])
    ∷ ((30, 70, 0) ∷ (31, 65535, 0) ∷ [])
    ∷ []
    ∷ []
    ∷ []

-- The conversion of the integers 0 and 1.
abbrev blocks : List Section
blocks = sections small_float small_float 7
  where
    small_float : ℕ → ℕ
    small_float n = if n == 0 then 0 else 1065353216

abbrev station : ℕ
station = 20

legacy_interrogation_handler_lem_example :
    ((station ≡ 20)
      × ((sent : List Asdu) × (legacy_interrogation_handler encoder 3 blocks configured station
            ≡ some (act_con false ∷ (map asdu sent ++ (act_term ∷ [])), true))
          × (sent_objects sent ≡ section_objects blocks configured)
          × All (HasLegacyHeader 3) sent))
    ⊎ ((station ≢ 20)
        × (legacy_interrogation_handler encoder 3 blocks configured station
            ≡ some (act_con true ∷ [], true)))
unfolding get_data_type_info calc_max_ioas
legacy_interrogation_handler_lem_example =
    legacy_interrogation_handler_lem encoder (omega arith) 3 blocks configured station (
      inl refl,
      (
        inl refl,
        (
          inl refl,
          (
            inr record {
              type_id = TypeId.m_sp_na_1;
              made = λ p. refl;
              small = omega arith;
              some_planned = omega arith;
              few_planned = omega arith;
            },
            (
              inl refl,
              (
                inr record {
                  type_id = TypeId.m_me_na_1;
                  made = λ p. refl;
                  small = omega arith;
                  some_planned = omega arith;
                  few_planned = omega arith;
                },
                (
                  inr record {
                    type_id = TypeId.m_me_nb_1;
                    made = λ p. refl;
                    small = omega arith;
                    some_planned = omega arith;
                    few_planned = omega arith;
                  },
                  (inl refl, (inl refl, tt)),
                ),
              ),
            ),
          ),
        ),
      ),
    )
