-- ===== src/Data/Manager/Configured.antt =====
-- The contexts as the configuration parser leaves them, and the look-up of a context by its type.
use iec104_server_and_modbus.Base.{
  ℕ, suc, ◌+◌, ◌-◌, ◌≤◌, ◌≡◌, refl, Bool, false, Option, none, some, List, [], ◌∷◌, map, All, arith,
  get_elem?, length, true, ◌++◌, ◌∙◌, ap, Bool-cases, Option-cases, inl, inr, ◌==◌, ltb,
}
use iec104_server_and_modbus.Cfloat.{FloatUnit}
use iec104_server_and_modbus.Globals.{Globals}
use iec104_server_and_modbus.Data.Types.{
  DataValue, DataTypeInfo, data_type_table, get_data_type_info,
}
use iec104_server_and_modbus.Data.Manager.{
  DataTypeContext, update_data, update_entry, should_send, values_equal, context_from,
  get_data_context, init_context, init_data_contexts, reset_context, reset_all_data,
}
use iec104_server_and_modbus.Data.Manager.Valid.{
  IsValid, update_data_cases, update_data-IsValid, init_context-IsValid, reset_all_data-IsValid,
}

-- A context is valid, has the information of its type from the table, and has time stamps only if
-- the type has a time tag.
pub record IsConfigured (c : DataTypeContext) : Type 0 where
  pub valid : IsValid c
  pub known : get_data_type_info c.type_id ≡ some c.type_info
  pub untimed : c.type_info.has_time_tag ≡ false → c.last_offline_update ≡ none

init_context-IsConfigured :
    (t : DataTypeInfo) → get_data_type_info t.type_id ≡ some t → IsConfigured (init_context t)
unfolding init_context
init_context-IsConfigured t e = record {
  valid = init_context-IsValid t;
  known = e;
  untimed = λ _. refl;
}

rows_found : All (λ (t : DataTypeInfo). get_data_type_info t.type_id ≡ some t) data_type_table
unfolding get_data_type_info
rows_found = (refl, (refl, (refl, (refl, (refl, (refl, (refl, (refl, (refl, (refl, tt))))))))))

pub init_data_contexts-IsConfigured : All IsConfigured init_data_contexts
unfolding init_data_contexts
init_data_contexts-IsConfigured = each data_type_table rows_found
  where
    each :
        (ts : List DataTypeInfo)
        → All (λ (t : DataTypeInfo). get_data_type_info t.type_id ≡ some t) ts
        → All IsConfigured (map init_context ts)
    each [] h = tt
    each (t ∷ ts) h = (init_context-IsConfigured t h.0, each ts h.1)

module _ (f : FloatUnit) (g : Globals) where
  KeepsRest : DataTypeContext → DataTypeContext × Bool → Type 0
  KeepsRest ctx r =
      (r.0.type_id ≡ ctx.type_id)
      × (r.0.type_info ≡ ctx.type_info)
      × (ctx.last_offline_update ≡ none → r.0.last_offline_update ≡ none)

  update_data-KeepsRest :
      (ctx : DataTypeContext) (slave : Option ℕ) (now ioa : ℕ) (v : DataValue)
      → KeepsRest ctx (update_data f g ctx slave now ioa v)
  unfolding KeepsRest update_entry should_send
  update_data-KeepsRest ctx slave now ioa v =
      update_data_cases f g (KeepsRest ctx) ctx slave now ioa v (refl, refl, λ e. e)
        λ idx old _ _. (ground arith, ground arith, λ e. rw (e) (ground arith))

  pub update_data-IsConfigured :
      (ctx : DataTypeContext) (slave : Option ℕ) (now ioa : ℕ) (v : DataValue)
      → IsConfigured ctx
      → IsConfigured (update_data f g ctx slave now ioa v).0
  unfolding KeepsRest
  update_data-IsConfigured ctx slave now ioa v h =
      let k = update_data-KeepsRest ctx slave now ioa v in
      record {
        valid = update_data-IsValid f g ctx slave now ioa v h.valid;
        known = rw (k.0, k.1) h.known;
        untimed = λ e. k.2 (h.untimed (rw k.1 at e));
      }

  -- With no client connected, no change of a type without a time tag is sent.
  pub update_data_untimed :
      (ctx : DataTypeContext) (now ioa : ℕ) (v : DataValue)
      → IsConfigured ctx
      → ctx.type_info.has_time_tag ≡ false
      → (update_data f g ctx (some 0) now ioa v).1 ≡ false
  unfolding update_entry should_send
  update_data_untimed ctx now ioa v h e =
      let none' = h.untimed e in
      update_data_cases f g (λ r. r.1 ≡ false) ctx (some 0) now ioa v refl
        λ idx old _ _. elim (Bool-cases (values_equal f g ctx.type_info old v)) [
          | inl same ↦ rw (update_entry, same) refl
          | inr new ↦ rw (update_entry, new, none') refl
        ]

context_from_lem :
    (cs : List DataTypeContext) (k id i : ℕ)
    → context_from cs k id ≡ some i
    → (k ≤ i) × ((c : DataTypeContext) × (get_elem? cs (i - k) ≡ some c) × (c.type_id ≡ id))
unfolding context_from
context_from_lem [] k id i h = absurd (ground arith)
context_from_lem (c ∷ cs) k id i h = elim (Bool-cases (c.type_id == id)) [
  | inl hit ↦
      let found : some k ≡ some i = rw hit at h in
      let e : i - k ≡ 0 = ground arith in (ground arith, rw e (c, refl, ground arith))
  | inr miss ↦
      let later = context_from_lem cs (k + 1) id i (rw miss at h) in
      let e : i - k ≡ suc (i - (k + 1)) = omega arith in (omega arith, rw e later.1)
]

-- The context that is found has the type.
pub get_data_context_lem :
    (cs : List DataTypeContext) (id i : ℕ)
    → get_data_context cs id ≡ some i
    → (c : DataTypeContext) × (get_elem? cs i ≡ some c) × (c.type_id ≡ id)
unfolding get_data_context
get_data_context_lem cs id i h =
    let start : i - 0 ≡ i = omega arith in rw start at (context_from_lem cs 0 id i h).1

reset_context-IsConfigured : (c : DataTypeContext) → IsConfigured c → IsConfigured (reset_context c)
unfolding reset_context reset_all_data
reset_context-IsConfigured c h = elim (Option-cases c.data_array) [
  | inl none' ↦ rw (reset_context, none') h
  | inr (vs, e) ↦ elim (Bool-cases (ltb 0 c.config.count)) [
    | inl some_points ↦
        rw (reset_context, e, some_points)
          record {
            valid =
                rw (reset_context, e, some_points) at
                  (reset_all_data-IsValid (c ∷ []) (h.valid, tt)).0;
            known = h.known;
            untimed = h.untimed;
          }
    | inr no_points ↦ rw (reset_context, e, no_points) h
  ]
]

pub reset_all_data-IsConfigured :
    (cs : List DataTypeContext) → All IsConfigured cs → All IsConfigured (reset_all_data cs)
unfolding reset_all_data
reset_all_data-IsConfigured [] h = tt
reset_all_data-IsConfigured (c ∷ cs) h =
    (reset_context-IsConfigured c h.0, reset_all_data-IsConfigured cs h.1)

context_from-skip :
    (done rest : List DataTypeContext) (c : DataTypeContext) (k id : ℕ)
    → All (λ d. (d.type_id == id) ≡ false) done
    → c.type_id ≡ id
    → context_from (done ++ (c ∷ rest)) k id ≡ some (k + length done)
unfolding context_from
context_from-skip [] rest c k id other same =
    let hit : (c.type_id == id) ≡ true = ground arith in
    let here : k ≡ k + 0 = omega arith in rw hit (ap some here)
context_from-skip (d ∷ done) rest c k id other same =
    let e : (k + 1) + length done ≡ k + suc (length done) = omega arith in
    rw (other.0) (context_from-skip done rest c (k + 1) id other.1 same ∙ ap some e)

-- The context of a type is found behind contexts of other types.
pub get_data_context-skip :
    (done rest : List DataTypeContext) (c : DataTypeContext) (id : ℕ)
    → All (λ d. (d.type_id == id) ≡ false) done
    → c.type_id ≡ id
    → get_data_context (done ++ (c ∷ rest)) id ≡ some (length done)
unfolding get_data_context
get_data_context-skip done rest c id other same =
    context_from-skip done rest c 0 id other same ∙ ap some (zero_left (length done))
  where
    zero_left : (n : ℕ) → 0 + n ≡ n
    zero_left n = omega arith
