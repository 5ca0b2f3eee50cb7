-- ===== src/Input/Cases.antt =====
-- What may become of a line of input: nothing, an answer, or the update of a context.
use iec104_server_and_modbus.Base.{
  ℕ, ◌≡◌, refl, sym, String, str_eq, Bool, not, ◌||◌, ◌&&◌, Option, none, some, List, [], ◌∷◌,
  get_elem?, ltb, Bool-cases, Option-cases, inl, inr,
}
use iec104_server_and_modbus.Cfloat.{FloatUnit}
use iec104_server_and_modbus.Globals.{Globals}
use iec104_server_and_modbus.Cjson.{Cjson}
use iec104_server_and_modbus.Data.Types.{DataValue}
use iec104_server_and_modbus.Data.Manager.{DataTypeContext, get_data_context}
use iec104_server_and_modbus.Data.Manager.Configured.{get_data_context_lem}
use iec104_server_and_modbus.Interrogation.Encoder.{Encoder}
use iec104_server_and_modbus.Input.Line.{
  Output, clients, queue_count, Surroundings, State, update_context, update_found, apply_update,
  process_update, process_data, input_type, run_line, go_on, command, input_handler_process_line,
}

-- `P` holds of a line that changes nothing, of the answers, and of an update of a context with the
-- given type.
module _ {κ} (f : FloatUnit) (g : Globals) (enc : Encoder) (env : Surroundings) (j : Cjson)
    (P : State × List Output → Type κ) (s : State) (keep : P (s, []))
    (answer : (a : List (List ℕ × ℕ) × ℕ) → P (s, clients a ∷ []))
    (count : (n : ℕ) → P (s, queue_count n ∷ []))
    (update : (i : ℕ) (ctx : DataTypeContext) (type_id ioa : ℕ) (v : DataValue)
      → get_elem? s.contexts i ≡ some ctx
      → ctx.type_id ≡ type_id
      → P (update_context f g enc env s i ctx type_id ioa v)) where
  update_found_cases :
      (i type_id ioa : ℕ) (ctx : DataTypeContext) (v : Option (DataValue × ℕ))
      → get_elem? s.contexts i ≡ some ctx
      → ctx.type_id ≡ type_id
      → P (update_found f g enc env s i (some ctx) type_id ioa v)
  unfolding update_found
  update_found_cases i type_id ioa ctx none at same = keep
  update_found_cases i type_id ioa ctx (some (v, stray)) at same =
      update i ctx type_id ioa v at same

  apply_update_cases : (type_id ioa qual x : ℕ) → P (apply_update f g enc env s type_id ioa qual x)
  unfolding apply_update
  apply_update_cases type_id ioa qual x =
      elim (Option-cases (get_data_context s.contexts type_id)) [
        | inl unknown ↦ rw (apply_update, unknown) keep
        | inr (i, found) ↦
            let (ctx, at, same) = get_data_context_lem s.contexts type_id i found in
            rw (apply_update, found, at) (update_found_cases i type_id ioa ctx _ at same)
      ]

  process_update_cases :
      (json type_item value_item : j.Item)
      → P (process_update f g enc env j s json type_item value_item)
  unfolding process_update
  process_update_cases json type_item value_item = from (j.get_object_item json "address") refl
    where
      from :
          (o : Option j.Item)
          → o ≡ j.get_object_item json "address"
          → P (process_update f g enc env j s json type_item value_item)
      from none e = rw (process_update, sym e) keep
      from (some addr) e =
          elim (Bool-cases (ltb 0 (input_type f g enc env j type_item) && j.number addr)) [
            | inl ok ↦ rw (process_update, sym e, ok) (apply_update_cases _ _ _ _)
            | inr bad ↦ rw (process_update, sym e, bad) keep
          ]

  process_data_cases : (json : j.Item) → P (process_data f g enc env j s json)
  unfolding process_data
  process_data_cases json =
      from (j.get_object_item json "type") (j.get_object_item json "value") refl refl
    where
      from :
          (t v : Option j.Item)
          → t ≡ j.get_object_item json "type"
          → v ≡ j.get_object_item json "value"
          → P (process_data f g enc env j s json)
      from none v e e' = rw (sym e) keep
      from (some t) none e e' = rw (sym e, sym e') keep
      from (some t) (some v) e e' = rw (sym e, sym e') (process_update_cases json t v)

  -- What is left when the first component is dropped.
  rest : Bool × State × List Output → State × List Output
  rest r = (r.1, r.2)

  run_line_cases :
      (json : j.Item) (cmd : Option String) → P (rest (run_line f g enc env j s json cmd))
  unfolding run_line go_on rest
  run_line_cases json none = process_data_cases json
  run_line_cases json (some c) = elim (Bool-cases (str_eq c "stop")) [
    | inl stop ↦ rw stop keep
    | inr a ↦ elim (Bool-cases (str_eq c "get_connected_clients")) [
      | inl list ↦ rw (a, list) (answer _)
      | inr b ↦ elim (Bool-cases (str_eq c "get_queue_count")) [
        | inl queue ↦ rw (a, b, queue) (count _)
        | inr unknown ↦ rw (a, b, unknown) (process_data_cases json)
      ]
    ]
  ]

  pub process_line_cases :
      (line : String) → let r = input_handler_process_line f g enc env j s line in P (r.1, r.2)
  unfolding input_handler_process_line rest
  process_line_cases line = elim (Bool-cases (not s.initialized || not s.slave)) [
    | inl off ↦ rw off keep
    | inr on ↦ elim (Option-cases (j.parse line)) [
      | inl bad ↦ rw (on, bad) keep
      | inr (json, e) ↦ rw (on, e) (run_line_cases json (command f g enc env j json))
    ]
  ]
