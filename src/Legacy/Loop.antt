-- ===== src/Legacy/Loop.antt =====
-- The lines of input of json-iec104-server/json-iec104-server.c: `process_json_input` and the loop
-- `run_server_loop`.
use iec104_server_and_modbus.Base.{
  ℕ, ◌%◌, ◌^◌, String, str_eq, Bool, true, false, ◌&&◌, Option, none, some, List, [], ◌∷◌, ◌++◌,
  ◌==◌, if◌then◌else◌,
}
use iec104_server_and_modbus.Cfloat.{FloatUnit}
use iec104_server_and_modbus.Cjson.{Cjson}
use iec104_server_and_modbus.Globals.{Globals}
use iec104_server_and_modbus.Iec.TypeId
use iec104_server_and_modbus.Data.Types.{parse_qualifier_from_string}
use iec104_server_and_modbus.Interrogation.Encoder.{Encoder}
use iec104_server_and_modbus.Legacy.Points.{
  Output, invalid_json, invalid_type, invalid_value, invalid_address, invalid_qualifier, no_input,
  shutdown,
}
use iec104_server_and_modbus.Legacy.Server.{
  LegacyData, LegacySurroundings, Conversions, process_data_update,
}

-- `value == 0` of a `double`: the pattern of 0 with any sign.
abbrev pub is_zero : ℕ → Bool
is_zero v = v % 2 ^ 63 == 0

unfoldable pub get_data_type_number : String → ℕ
get_data_type_number s =
    if str_eq s "M_SP_TB_1"
    then TypeId.m_sp_tb_1
    else if str_eq s "M_DP_TB_1"
    then TypeId.m_dp_tb_1
    else if str_eq s "M_ME_TD_1"
    then TypeId.m_me_td_1
    else if str_eq s "M_IT_TB_1"
    then TypeId.m_it_tb_1
    else if str_eq s "M_ME_NC_1"
    then TypeId.m_me_nc_1
    else if str_eq s "M_SP_NA_1"
    then TypeId.m_sp_na_1
    else if str_eq s "command"
    then 0
    else 0

-- The four results of `process_json_input`, and what it printed; without all four it returns false.
pub record LegacyInput : Type 0 where
  pub type_id : ℕ
  pub value : ℕ
  pub address : ℕ
  pub qualifier : ℕ

-- A part of the input, or the line that is printed for it.
abbrev pub printed {ℓ} : {A : Type ℓ} → Output → Option A → List Output
printed error none = error ∷ []
printed error (some x) = []

unfoldable pub all_parts : Option ℕ → Option ℕ → Option ℕ → Option ℕ → Option LegacyInput
all_parts (some t) (some v) (some a) (some q) =
    some (record { type_id = t; value = v; address = a; qualifier = q })
all_parts _ _ _ _ = none

module _ (k : Conversions) (j : Cjson) where
  -- A text that is not NULL, through a function of texts.
  unfoldable pub text_part : (String → ℕ) → Option j.Item → Option ℕ
  text_part number none = none
  text_part number (some item) =
      if j.string item
      then elim (j.valuestring item) [ none ↦ none | some s ↦ some (number s) ]
      else none

  unfoldable pub number_part : (ℕ → ℕ) → Option j.Item → Option ℕ
  number_part convert none = none
  number_part convert (some item) =
      if j.number item then some (convert (j.valuedouble item)) else none

  unfoldable pub parse_parts : j.Item → Option LegacyInput × List Output
  unfolding all_parts text_part number_part get_data_type_number parse_qualifier_from_string
  parse_parts json =
      let member = j.get_object_item_case_sensitive json in
      let t = text_part get_data_type_number (member "type") in
      let v = number_part (λ x. x) (member "value") in
      let a = number_part k.to_int (member "address") in
      let q = text_part (λ s. parse_qualifier_from_string (some s)) (member "qualifier") in
      (
        all_parts t v a q,
        printed invalid_type t
            ++ (printed invalid_value v
                ++ (printed invalid_address a ++ printed invalid_qualifier q)),
      )

  unfoldable pub process_json_input : String → Option LegacyInput × List Output
  unfolding parse_parts
  process_json_input input = elim (j.parse input) [
    | none ↦ (none, invalid_json ∷ [])
    | some json ↦ parse_parts json
  ]

  -- One round of the loop: what `fgets` returns, and the surroundings of an update in it.
  module _ (f : FloatUnit) (g : Globals) (enc : Encoder) where
    -- `running`, the data and what was printed and put into the queue.
    unfoldable pub take_input :
        LegacySurroundings → Option LegacyInput → LegacyData → Bool × LegacyData × List Output
    unfolding process_data_update
    take_input env none s = (true, s, [])
    take_input env (some input) s =
        if input.type_id == 0 && is_zero input.value
        then (false, s, shutdown ∷ [])
        else (let r =
              process_data_update f g enc k env input.value input.address input.qualifier
                input.type_id s in
            (true, r.0, r.1))

    unfoldable pub read_round :
        LegacySurroundings → Option String → LegacyData → Bool × LegacyData × List Output
    unfolding process_json_input take_input
    read_round env none s = (true, s, no_input ∷ [])
    read_round env (some line) s =
        let (input, errors) = process_json_input line in
        let r = take_input env input s in (r.0, r.1, errors ++ r.2)

    -- The loop, as long as there are rounds; it has ended if the result is `false`.
    unfoldable pub run_server_loop :
        List (LegacySurroundings × Option String) → LegacyData → Bool × LegacyData × List Output
    unfolding read_round
    run_server_loop [] s = (true, s, [])
    run_server_loop ((env, line) ∷ rounds) s =
        let r = read_round env line s in
        let rest = run_server_loop rounds r.1 in if r.0 then (rest.0, rest.1, r.2 ++ rest.2) else r
