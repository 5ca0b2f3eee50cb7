-- ===== src/Server/Layout.antt =====
-- What no step changes of the contexts: which points are configured, and the information of their
-- type.
use iec104_server_and_modbus.Base.{
  ℕ, zero, suc, ◌≡◌, refl, sym, ap, ◌∙◌, String, Option, some, List, [], ◌∷◌, map, get_elem?, set,
  Bool-cases, Option-cases, inl, inr, ltb, ◌==◌,
}
use iec104_server_and_modbus.Cfloat.{FloatUnit}
use iec104_server_and_modbus.Globals.{Globals}
use iec104_server_and_modbus.Cjson.{Cjson}
use iec104_server_and_modbus.Iec.TypeId
use iec104_server_and_modbus.Data.Types.{DataValue, DataTypeInfo}
use iec104_server_and_modbus.Data.Manager.{
  DataTypeContext, DynamicIoaConfig, update_data, update_entry, values_equal, reset_context,
  reset_all_data,
}
use iec104_server_and_modbus.Data.Manager.Valid.{update_data_cases}
use iec104_server_and_modbus.Command.Handler.{
  Request, State, handle_reset_process_command, asdu_handler,
}
use iec104_server_and_modbus.Interrogation.Encoder.{Encoder}
use iec104_server_and_modbus.Input.Line
use iec104_server_and_modbus.Input.Line.{Surroundings, update_context, input_handler_process_line}
use iec104_server_and_modbus.Input.Cases.{process_line_cases}

abbrev pub layout : DataTypeContext → DataTypeInfo × DynamicIoaConfig
layout c = (c.type_info, c.config)

map-set {ℓ κ} :
    {A : Type ℓ} {B : Type κ} (h : A → B) (xs : List A) (i : ℕ) (x v : A)
    → get_elem? xs i ≡ some x
    → h v ≡ h x
    → map h (set xs i v) ≡ map h xs
map-set h [] i x v at e = refl
map-set h (y ∷ xs) zero x v at e = λ i. (e ∙ ap h (sym (some-inj at))) i ∷ map h xs
  where
    some-inj : some y ≡ some x → y ≡ x
    some-inj p = cc
map-set h (y ∷ xs) (suc i) x v at e = ap (◌∷◌ (h y)) (map-set h xs i x v at e)

module _ (f : FloatUnit) (g : Globals) where
  update_data-layout :
      (ctx : DataTypeContext) (slave : Option ℕ) (now ioa : ℕ) (v : DataValue)
      → layout (update_data f g ctx slave now ioa v).0 ≡ layout ctx
  unfolding update_entry
  update_data-layout ctx slave now ioa v =
      update_data_cases f g (λ r. layout r.0 ≡ layout ctx) ctx slave now ioa v refl
        λ idx old _ _. elim (Bool-cases (values_equal f g ctx.type_info old v)) [
          | inl same ↦ rw (update_entry, same) refl
          | inr new ↦ rw (update_entry, new) refl
        ]

  pub process_line-layout :
      (enc : Encoder) (env : Surroundings) (j : Cjson) (s : Line.State) (line : String)
      → map layout (input_handler_process_line f g enc env j s line).1.contexts
        ≡ map layout s.contexts
  unfolding update_context
  process_line-layout enc env j s line =
      process_line_cases f g enc env j (λ r. map layout r.0.contexts ≡ map layout s.contexts) s refl
        (λ _. refl) (λ _. refl)
        (λ i ctx type_id ioa v at same.
          map-set layout s.contexts i ctx _ at
            (update_data-layout ctx (some env.open_connections) env.now ioa v))
        line

reset_context-layout : (c : DataTypeContext) → layout (reset_context c) ≡ layout c
unfolding reset_context
reset_context-layout c = elim (Option-cases c.data_array) [
  | inl none' ↦ rw (reset_context, none') refl
  | inr (vs, e) ↦ elim (Bool-cases (ltb 0 c.config.count)) [
    | inl some_points ↦ rw (reset_context, e, some_points) refl
    | inr no_points ↦ rw (reset_context, e, no_points) refl
  ]
]

reset_all_data-layout : (cs : List DataTypeContext) → map layout (reset_all_data cs) ≡ map layout cs
unfolding reset_all_data
reset_all_data-layout [] = refl
reset_all_data-layout (c ∷ cs) = λ i. reset_context-layout c i ∷ reset_all_data-layout cs i

-- A request leaves the contexts as they are or resets them all.
pub asdu_handler-contexts {κ} :
    (P : List DataTypeContext → Type κ) (mode : String) (r : Request) (connection now : ℕ)
    (s : State)
    → P s.contexts
    → P (reset_all_data s.contexts)
    → P (asdu_handler mode r connection now s).0.contexts
unfolding asdu_handler handle_reset_process_command
asdu_handler-contexts P mode r connection now s keep reset =
    elim (Bool-cases (r.type_id == TypeId.c_sc_na_1)) [
      | inl single ↦ rw single keep
      | inr a ↦ elim (Bool-cases (r.type_id == TypeId.c_se_nc_1)) [
        | inl set_point ↦ rw (a, set_point) keep
        | inr b ↦ elim (Bool-cases (r.type_id == TypeId.c_rp_na_1)) [
          | inl process ↦ elim (Bool-cases (r.qualifier == 1)) [
            | inl all ↦ rw (a, b, process, all) reset
            | inr other ↦ rw (a, b, process, other) keep
          ]
          | inr unknown ↦ rw (a, b, unknown) keep
        ]
      ]
    ]

pub asdu_handler-layout :
    (mode : String) (r : Request) (connection now : ℕ) (s : State)
    → map layout (asdu_handler mode r connection now s).0.contexts ≡ map layout s.contexts
asdu_handler-layout mode r connection now s =
    asdu_handler-contexts (λ cs. map layout cs ≡ map layout s.contexts) mode r connection now s refl
      (reset_all_data-layout s.contexts)
