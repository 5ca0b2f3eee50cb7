-- ===== src/Legacy/Ends.antt =====
-- How the main loop of json-iec104-server/json-iec104-server.c ends.
use iec104_server_and_modbus.Base.{
  ℕ, ◌≡◌, ◌≢◌, refl, sym, ap, ◌∙◌, String, eq_iff, Bool, true, false, Option, some, List, [], ◌∷◌,
  ◌++◌, append_assoc, if◌then◌else◌, arith, Bool-cases, inl, inr, All,
}
use iec104_server_and_modbus.Cfloat.{FloatUnit}
use iec104_server_and_modbus.Cjson.{Cjson}
use iec104_server_and_modbus.Globals.{Globals}
use iec104_server_and_modbus.Data.Types.{parse_qualifier_from_string}
use iec104_server_and_modbus.Interrogation.Encoder.{Encoder}
use iec104_server_and_modbus.Legacy.Points.{Output, shutdown}
use iec104_server_and_modbus.Legacy.Server.{LegacyData, LegacySurroundings, Conversions}
use iec104_server_and_modbus.Legacy.Loop.{
  is_zero, get_data_type_number, parse_parts, LegacyInput, text_part, number_part,
  process_json_input, take_input, read_round, run_server_loop,
}

-- The types that an update can name.
abbrev pub type_names : List String
type_names = "M_SP_TB_1" ∷ "M_DP_TB_1" ∷ "M_ME_TD_1" ∷ "M_IT_TB_1" ∷ "M_ME_NC_1" ∷ "M_SP_NA_1" ∷ []

get_data_type_number-unknown :
    (s : String) → All (λ name. s ≢ name) type_names → get_data_type_number s ≡ 0
unfolding get_data_type_number
get_data_type_number-unknown s h = ground (
  arith,
  eq_iff s "M_SP_TB_1",
  eq_iff s "M_DP_TB_1",
  eq_iff s "M_ME_TD_1",
  eq_iff s "M_IT_TB_1",
  eq_iff s "M_ME_NC_1",
  eq_iff s "M_SP_NA_1",
)

-- The members of an item that has all four parts of an input.
pub record IsInput (j : Cjson) (json : j.Item) (name qualifier : String) (value : ℕ) : Type 0 where
  pub type_item : j.Item
  pub type_found : j.get_object_item_case_sensitive json "type" ≡ some type_item
  pub type_text : j.string type_item ≡ true
  pub type_name : j.valuestring type_item ≡ some name
  pub value_item : j.Item
  pub value_found : j.get_object_item_case_sensitive json "value" ≡ some value_item
  pub value_number : j.number value_item ≡ true
  pub value_double : j.valuedouble value_item ≡ value
  pub address_item : j.Item
  pub address_found : j.get_object_item_case_sensitive json "address" ≡ some address_item
  pub address_number : j.number address_item ≡ true
  pub qualifier_item : j.Item
  pub qualifier_found : j.get_object_item_case_sensitive json "qualifier" ≡ some qualifier_item
  pub qualifier_text : j.string qualifier_item ≡ true
  pub qualifier_name : j.valuestring qualifier_item ≡ some qualifier

module _ (k : Conversions) (j : Cjson) where
  text_part-text :
      (number : String → ℕ) (found : Option j.Item) (item : j.Item) (s : String)
      → found ≡ some item
      → j.string item ≡ true
      → j.valuestring item ≡ some s
      → text_part k j number found ≡ some (number s)
  unfolding text_part
  text_part-text number found item s e text name = rw (e, text_part) (rw (text, name) refl)

  number_part-number :
      (convert : ℕ → ℕ) (found : Option j.Item) (item : j.Item)
      → found ≡ some item
      → j.number item ≡ true
      → number_part k j convert found ≡ some (convert (j.valuedouble item))
  unfolding number_part
  number_part-number convert found item e number = rw (e, number_part) (rw number refl)

  parse_parts-IsInput :
      (json : j.Item) (name qualifier : String) (value : ℕ)
      (is : IsInput j json name qualifier value)
      → parse_parts k j json ≡ (
        some (record {
          type_id = get_data_type_number name;
          value = value;
          address = k.to_int (j.valuedouble is.address_item);
          qualifier = parse_qualifier_from_string (some qualifier);
        }),
        [],
      )
  unfolding parse_parts
  parse_parts-IsInput json name qualifier value is =
      rw
        (
          text_part-text get_data_type_number _ is.type_item name is.type_found is.type_text
              is.type_name,
          number_part-number (λ x. x) _ is.value_item is.value_found is.value_number,
          number_part-number k.to_int _ is.address_item is.address_found is.address_number,
          text_part-text (λ s. parse_qualifier_from_string (some s)) _ is.qualifier_item qualifier
              is.qualifier_found is.qualifier_text is.qualifier_name,
          is.value_double,
        )
        refl

  process_json_input-IsInput :
      (line : String) (json : j.Item) (name qualifier : String) (value : ℕ)
      → j.parse line ≡ some json
      → (is : IsInput j json name qualifier value)
      → process_json_input k j line ≡ (
        some (record {
          type_id = get_data_type_number name;
          value = value;
          address = k.to_int (j.valuedouble is.address_item);
          qualifier = parse_qualifier_from_string (some qualifier);
        }),
        [],
      )
  unfolding process_json_input
  process_json_input-IsInput line json name qualifier value parsed is =
      rw (parsed, process_json_input) (parse_parts-IsInput json name qualifier value is)

  module _ (f : FloatUnit) (g : Globals) (enc : Encoder) where
    -- The line of a shutdown.
    shutdown_round :
        (env : LegacySurroundings) (line : String) (s : LegacyData) (json : j.Item)
        (name qualifier : String) (value : ℕ)
        → j.parse line ≡ some json
        → IsInput j json name qualifier value
        → All (λ known. name ≢ known) type_names
        → is_zero value ≡ true
        → read_round k j f g enc env (some line) s ≡ (false, s, shutdown ∷ [])
    unfolding read_round take_input
    shutdown_round env line s json name qualifier value parsed is unknown zero =
        ap
          (λ (r : Option LegacyInput × List Output).
            let q = take_input k j f g enc env r.0 s in (q.0, q.1, r.1 ++ q.2))
          (process_json_input-IsInput line json name qualifier value parsed is)
        ∙ rw (get_data_type_number-unknown name unknown, zero) refl

    -- The rounds of a loop that goes on after the first of them.
    run_server_loop-append :
        (before rounds : List (LegacySurroundings × Option String)) (s : LegacyData)
        → (run_server_loop k j f g enc before s).0 ≡ true
        → let first = run_server_loop k j f g enc before s in
          let rest = run_server_loop k j f g enc rounds first.1 in
          run_server_loop k j f g enc (before ++ rounds) s ≡ (rest.0, rest.1, first.2 ++ rest.2)
    unfolding run_server_loop
    run_server_loop-append [] rounds s h = refl
    run_server_loop-append ((env, line) ∷ before) rounds s h =
        elim (Bool-cases ((read_round k j f g enc env line s).0)) [
          | inl on ↦
              let r = read_round k j f g enc env line s in
              let goes = rw on at h in
              let first = run_server_loop k j f g enc before r.1 in
              let rest = run_server_loop k j f g enc rounds first.1 in
              rw on (
                ap (λ (q : Bool × LegacyData × List Output). (q.0, q.1, r.2 ++ q.2))
                  (run_server_loop-append before rounds r.1 goes)
                ∙ ap (λ (l : List Output). (rest.0, rest.1, l))
                    (sym (append_assoc r.2 first.2 rest.2)))
          | inr off ↦ let over = rw off at h in absurd (cc)
        ]

    run_server_loop-stopped :
        (env : LegacySurroundings) (line : String)
        (rounds : List (LegacySurroundings × Option String)) (s : LegacyData) (out : List Output)
        → read_round k j f g enc env (some line) s ≡ (false, s, out)
        → run_server_loop k j f g enc ((env, some line) ∷ rounds) s ≡ (false, s, out)
    unfolding run_server_loop
    run_server_loop-stopped env line rounds s out e =
        ap
          (λ (r : Bool × LegacyData × List Output).
            let rest = run_server_loop k j f g enc rounds r.1 in
            if r.0 then (rest.0, rest.1, r.2 ++ rest.2) else r)
          e

    -- The loop ends at a line whose value is zero and whose type is none of the six types that an
    -- update can name, for which "command" is only one spelling, if the line has all four parts and
    -- the loop has come so far: it prints that it shuts down, and no later line is read.
    pub run_server_loop-ends :
        (before rounds : List (LegacySurroundings × Option String)) (env : LegacySurroundings)
        (line : String) (s : LegacyData) (json : j.Item) (name qualifier : String) (value : ℕ)
        → (run_server_loop k j f g enc before s).0 ≡ true
        → j.parse line ≡ some json
        → IsInput j json name qualifier value
        → All (λ known. name ≢ known) type_names
        → is_zero value ≡ true
        → let first = run_server_loop k j f g enc before s in
          run_server_loop k j f g enc (before ++ ((env, some line) ∷ rounds)) s
          ≡ (false, first.1, first.2 ++ (shutdown ∷ []))
    run_server_loop-ends before rounds env line s json name qualifier value on parsed is unknown
          zero =
        let first = run_server_loop k j f g enc before s in
        run_server_loop-append before ((env, some line) ∷ rounds) s on
        ∙ ap (λ (q : Bool × LegacyData × List Output). (q.0, q.1, first.2 ++ q.2))
            (run_server_loop-stopped env line rounds first.1 _
              (shutdown_round env line first.1 json name qualifier value parsed is unknown zero))
