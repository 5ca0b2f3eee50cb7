-- ===== src/Legacy/Interrogation.antt =====
-- `interrogationHandler` of json-iec104-server/json-iec104-server.c. The points of a type are its
-- addresses with the fields of its struct: the value as a pattern, and the qualifier. ASDUs are
-- created, and `GetCP56Time2a` returns the time `now`.
use iec104_server_and_modbus.Base.{
  ℕ, zero, suc, ◌-◌, ◌/◌, Bool, true, false, not, Option, none, some, List, [], ◌∷◌, ◌++◌, map,
  length, take, drop, ◌==◌, if◌then◌else◌,
}
use iec104_server_and_modbus.Iec.{
  Asdu, InformationObject, create_asdu, interrogated_by_station, single_point_with_cp56,
  double_point_with_cp56, normalized_with_cp56, single_point, double_point, normalized, scaled,
  short, normalized_without_quality,
}
use iec104_server_and_modbus.Interrogation.Encoder.{Encoder}
use iec104_server_and_modbus.Interrogation.Blocks.{append_sent, cons_sent}
use iec104_server_and_modbus.Interrogation.Station.{Sent, act_con, act_term, asdu}

unfoldable pub calc_max_ioas : ℕ → ℕ → ℕ
calc_max_ioas max_asdu_size ioa_size = (max_asdu_size - 6) / ioa_size

-- An address, a value and a qualifier.
abbrev pub LegacyPoint : Type 0
LegacyPoint = ℕ × ℕ × ℕ

-- The block of a type in the handler: the bytes that it counts for an object, and the object that
-- it creates.
pub record Section : Type 0 where
  pub ioa_size : ℕ
  pub create : LegacyPoint → InformationObject

-- `CS101_ASDU_addInformationObject` for each object.
unfoldable pub add_all : Encoder → Asdu → List InformationObject → Asdu
add_all enc a [] = a
add_all enc a (io ∷ os) = add_all enc (enc.add a io) os

-- for (i = 0; i < count; i += maxIOAs), on the objects of the points from i on.
unfoldable pub send_plain : Encoder → ℕ → Asdu → ℕ → List InformationObject → Option (List Asdu)
unfolding add_all cons_sent
send_plain enc fuel new max_ioas [] = some []
send_plain enc zero new max_ioas (io ∷ os) = none
send_plain enc (suc fuel) new max_ioas (io ∷ os) =
    cons_sent (add_all enc new (take max_ioas (io ∷ os)))
      (send_plain enc fuel new max_ioas (drop max_ioas (io ∷ os)))

-- The originator address is the common address, too.
unfoldable pub send_section : Encoder → ℕ → Section → List LegacyPoint → Option (List Asdu)
unfolding send_plain calc_max_ioas
send_section enc ca s ps =
    send_plain enc (length ps) (create_asdu false interrogated_by_station ca ca)
      (calc_max_ioas enc.max_size s.ioa_size) (map s.create ps)

-- The conversions of an `int16_t` and of a `uint32_t` to `float`, as patterns.
module _ (of_int16 of_uint32 : ℕ → ℕ) (now : ℕ) where
  -- The blocks, in the order of the handler. There is none for M_IT_TB_1.
  abbrev pub sections : List Section
  sections =
      record { ioa_size = 8; create = λ p. single_point_with_cp56 p.0 (not (p.1 == 0)) p.2 now }
      ∷ record { ioa_size = 8; create = λ p. double_point_with_cp56 p.0 p.1 p.2 now }
      ∷ record { ioa_size = 10; create = λ p. normalized_with_cp56 p.0 p.1 p.2 now }
      ∷ record { ioa_size = 4; create = λ p. single_point p.0 (not (p.1 == 0)) p.2 }
      ∷ record { ioa_size = 4; create = λ p. double_point p.0 p.1 p.2 }
      ∷ record { ioa_size = 6; create = λ p. normalized p.0 (of_int16 p.1) p.2 }
      ∷ record { ioa_size = 6; create = λ p. scaled p.0 p.1 p.2 }
      ∷ record { ioa_size = 4; create = λ p. short p.0 p.1 p.2 }
      ∷ record { ioa_size = 4; create = λ p. normalized_without_quality p.0 (of_uint32 p.1) }
      ∷ []

-- The points of each block, in the same order.
unfoldable pub send_sections :
    Encoder → ℕ → List Section → List (List LegacyPoint) → Option (List Asdu)
unfolding send_section append_sent
send_sections enc ca [] points = some []
send_sections enc ca (s ∷ ss) [] = some []
send_sections enc ca (s ∷ ss) (ps ∷ pss) =
    append_sent (send_section enc ca s ps) (send_sections enc ca ss pss)

unfoldable pub legacy_interrogation_handler :
    Encoder → ℕ → List Section → List (List LegacyPoint) → ℕ → Option (List Sent × Bool)
unfolding send_sections
legacy_interrogation_handler enc ca blocks points qoi =
    if qoi == 20
    then elim (send_sections enc ca blocks points) [
      | none ↦ none
      | some sent ↦ some (act_con false ∷ (map asdu sent ++ (act_term ∷ [])), true)
    ]
    else some (act_con true ∷ [], true)
