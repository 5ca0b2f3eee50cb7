-- ===== src/Data/Manager/Valid.antt =====
-- The invariant of a `DataTypeContext`: its arrays have one entry for each configured address.
use iec104_server_and_modbus.Base.{
  ℕ, zero, suc, ◌≡◌, refl, Bool, false, Option, none, some, List, [], ◌∷◌, map, All, arith, length,
  length-set, get_elem?, Option-cases, Bool-cases, inl, inr, ◌∙◌, ap,
}
use iec104_server_and_modbus.Cfloat.{FloatUnit}
use iec104_server_and_modbus.Globals.{Globals}
use iec104_server_and_modbus.Data.Types.{DataValue, DataTypeInfo, data_type_table}
use iec104_server_and_modbus.Data.Manager.{
  DataTypeContext, entries, init_context, init_data_contexts, find_ioa_index, update_data,
  update_at, update_entry, should_send, stamp_entry, is_client_connected, stored, zero_first,
  reset_context, reset_all_data,
}

-- An array that is not allocated has no length to keep.
abbrev pub HasLength {ℓ} : {A : Type ℓ} → ℕ → Option (List A) → Type 0
HasLength n none = Unit {0}
HasLength n (some xs) = length xs ≡ n

pub record IsValid (c : DataTypeContext) : Type 0 where
  pub addresses : length (entries c.config.ioa_list) ≡ c.config.count
  pub values : length (entries c.data_array) ≡ c.config.count
  pub stamps : HasLength c.config.count c.last_offline_update
  pub info : c.type_info.type_id ≡ c.type_id

pub init_context-IsValid : (t : DataTypeInfo) → IsValid (init_context t)
unfolding init_context
init_context-IsValid t = record { addresses = refl; values = refl; stamps = tt; info = refl }

-- Every context is valid after `init_data_contexts`.
pub init_data_contexts-IsValid : All IsValid init_data_contexts
unfolding init_data_contexts
init_data_contexts-IsValid = each data_type_table
  where
    each : (ts : List DataTypeInfo) → All IsValid (map init_context ts)
    each [] = tt
    each (t ∷ ts) = (init_context-IsValid t, each ts)

module _ (f : FloatUnit) (g : Globals) where
  stamp_entry-HasLength :
      (ts : List ℕ) (idx n : ℕ) (r : Bool × Option ℕ)
      → length ts ≡ n
      → HasLength n (stamp_entry f g ts idx r).1
  unfolding stamp_entry
  stamp_entry-HasLength ts idx n (ok, none) h = h
  stamp_entry-HasLength ts idx n (ok, some t) h = length-set ts idx t ∙ h

  should_send-HasLength :
      (slave : Option ℕ) (now : ℕ) (stamps : Option (List ℕ)) (idx n : ℕ)
      → HasLength n stamps
      → HasLength n (should_send f g slave now stamps idx).1
  unfolding should_send
  should_send-HasLength slave now none idx n h = tt
  should_send-HasLength slave now (some ts) idx n h =
      elim (Bool-cases (is_client_connected slave)) [
        | inl on ↦ rw on h
        | inr off ↦ rw off (stamp_entry-HasLength ts idx n _ h)
      ]

  update_entry-IsValid :
      (ctx : DataTypeContext) (slave : Option ℕ) (now idx : ℕ) (old v : DataValue)
      → IsValid ctx
      → IsValid (update_entry f g ctx slave now idx old v).0
  unfolding update_entry
  update_entry-IsValid ctx slave now idx old v h = ground (
    arith,
    length-set (entries ctx.data_array) idx (stored f g ctx.type_info v),
    should_send-HasLength slave now ctx.last_offline_update idx ctx.config.count h.stamps,
  )

  -- What holds of an update of an entry, and of a call that changes nothing, holds of
  -- `update_data`.
  pub update_data_cases {κ} :
      (P : DataTypeContext × Bool → Type κ) (ctx : DataTypeContext) (slave : Option ℕ) (now ioa : ℕ)
      (v : DataValue)
      → P (ctx, false)
      → ((idx : ℕ) (old : DataValue)
          → find_ioa_index ctx.config ioa ≡ some idx
          → get_elem? (entries ctx.data_array) idx ≡ some old
          → P (update_entry f g ctx slave now idx old v))
      → P (update_data f g ctx slave now ioa v)
  unfolding update_data update_at
  update_data_cases P ctx slave now ioa v keep change =
      elim (Option-cases (find_ioa_index ctx.config ioa)) [
        | inl e ↦ rw e keep
        | inr (idx, e) ↦ elim (Option-cases (get_elem? (entries ctx.data_array) idx)) [
          | inl past ↦ rw (e, update_at, past) keep
          | inr (old, at) ↦ rw (e, update_at, at) (change idx old e at)
        ]
      ]

  -- `update_data` keeps a context valid, whatever its arguments.
  pub update_data-IsValid :
      (ctx : DataTypeContext) (slave : Option ℕ) (now ioa : ℕ) (v : DataValue)
      → IsValid ctx
      → IsValid (update_data f g ctx slave now ioa v).0
  update_data-IsValid ctx slave now ioa v h =
      update_data_cases (λ r. IsValid r.0) ctx slave now ioa v h
        λ idx old _ _. update_entry-IsValid ctx slave now idx old v h

length-zero_first : (n : ℕ) (vs : List DataValue) → length (zero_first n vs) ≡ length vs
unfolding zero_first
length-zero_first zero vs = refl
length-zero_first (suc n) [] = refl
length-zero_first (suc n) (v ∷ vs) = ap suc (length-zero_first n vs)

reset_context-IsValid : (c : DataTypeContext) → IsValid c → IsValid (reset_context c)
unfolding reset_context
reset_context-IsValid c h = ground (arith, length-zero_first c.config.count (entries c.data_array))

-- So does `reset_all_data`, for every context.
pub reset_all_data-IsValid :
    (cs : List DataTypeContext) → All IsValid cs → All IsValid (reset_all_data cs)
unfolding reset_all_data
reset_all_data-IsValid [] h = tt
reset_all_data-IsValid (c ∷ cs) h = (reset_context-IsValid c h.0, reset_all_data-IsValid cs h.1)
