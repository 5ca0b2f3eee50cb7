-- ===== src/Data/Manager/Reset.antt =====
-- `reset_all_data`: every value becomes all zero bytes.
use iec104_server_and_modbus.Base.{
  ℕ, zero, suc, ◌<◌, ◌≡◌, ◌≢◌, refl, ◌∙◌, ap, sym, true, Option, none, some, List, [], ◌∷◌, arith,
  subst, get_elem?, length, replicate, Bool-cases, inl, inr, ltb,
}
use iec104_server_and_modbus.Cfloat.{FloatUnit}
use iec104_server_and_modbus.Globals.{Globals}
use iec104_server_and_modbus.Data.Types.{DataValue, tag}
use iec104_server_and_modbus.Data.Manager.{
  DataTypeContext, entries, find_ioa_index, update_data, zero_value, zero_first, reset_context,
  reset_all_data,
}
use iec104_server_and_modbus.Data.Manager.Valid.{IsValid}
use iec104_server_and_modbus.Data.Manager.Repeat.{values_equal-other_type}
use iec104_server_and_modbus.Data.Manager.Update.{IsAt, update_data_lem, is_due-online}

zero_first_lem :
    (n : ℕ) (vs : List DataValue) → length vs ≡ n → zero_first n vs ≡ replicate n zero_value
unfolding zero_first
zero_first_lem zero [] h = refl
zero_first_lem zero (v ∷ vs) h = absurd (omega arith)
zero_first_lem (suc n) [] h = absurd (omega arith)
zero_first_lem (suc n) (v ∷ vs) h = ap (◌∷◌ zero_value) (zero_first_lem n vs (omega arith))

-- A context after a reset: its values are zero bytes, all else is as before.
pub record IsReset (c r : DataTypeContext) : Type 0 where
  pub zeroed : entries r.data_array ≡ replicate c.config.count zero_value
  pub same_config : r.config ≡ c.config
  pub same_stamps : r.last_offline_update ≡ c.last_offline_update
  pub same_info : r.type_info ≡ c.type_info

IsReset-array :
    (c : DataTypeContext) (d : Option (List DataValue))
    → c.data_array ≡ d
    → IsValid c
    → IsReset c (reset_context c)
unfolding reset_context
IsReset-array c none e v = rw e (record {
  zeroed =
      let n : c.config.count ≡ 0 = ground arith in
      subst (λ k. [] ≡ replicate k zero_value) (sym n) refl;
  same_config = refl;
  same_stamps = refl;
  same_info = refl;
})
IsReset-array c (some vs) e v = elim (Bool-cases (ltb 0 c.config.count)) [
  | inl pos ↦
      rw (e, pos)
        (record {
          zeroed = zero_first_lem c.config.count vs (ground arith);
          same_config = refl;
          same_stamps = refl;
          same_info = refl;
        })
  | inr empty ↦
      rw (e, empty)
        (record {
          zeroed =
              let n : 0 ≡ c.config.count = ground arith in
              subst (λ k. vs ≡ replicate k zero_value) n (zero_first_lem 0 vs (ground arith));
          same_config = refl;
          same_stamps = refl;
          same_info = refl;
        })
]

-- `reset_all_data` zeroes every value of every valid context, the quality with it, and keeps the
-- configuration, the time stamps and the type information.
pub reset_all_data_lem :
    (cs : List DataTypeContext) (i : ℕ) (c : DataTypeContext)
    → IsValid c
    → get_elem? cs i ≡ some c
    → (r : DataTypeContext) × (get_elem? (reset_all_data cs) i ≡ some r) × IsReset c r
unfolding reset_all_data
reset_all_data_lem [] i c v h = absurd (ground arith)
reset_all_data_lem (x ∷ cs) zero c v h =
    let e : x ≡ c = ground arith in
    (
      reset_context x,
      refl,
      subst (λ k. IsReset k (reset_context x)) e
          (IsReset-array x x.data_array refl (subst IsValid (sym e) v)),
    )
reset_all_data_lem (x ∷ cs) (suc i) c v h = reset_all_data_lem cs i c v h

get_elem?-replicate : {A : Type 0} (n i : ℕ) (a : A) → i < n → get_elem? (replicate n a) i ≡ some a
get_elem?-replicate zero i a h = elim h [ ]
get_elem?-replicate (suc n) zero a h = refl
get_elem?-replicate (suc n) (suc i) a h = get_elem?-replicate n i a (omega arith)

-- A reset also clears the type of each value to the first enumerator. So, with a client connected,
-- the next update of a configured address by a value of another type is reported as a change, also
-- when the value that it brings is 0, as the reset left it.
pub update_data-reset :
    (f : FloatUnit) (g : Globals) (c : DataTypeContext) (clients now ioa idx : ℕ) (v : DataValue)
    → IsValid c
    → find_ioa_index c.config ioa ≡ some idx
    → idx < c.config.count
    → tag v.type ≢ 0
    → (update_data f g (reset_context c) (some (suc clients)) now ioa v).1 ≡ true
update_data-reset f g c clients now ioa idx v valid found inside other =
    let r = IsReset-array c c.data_array refl valid in
    let at : IsAt f g (reset_context c) ioa idx zero_value = record {
      found = ap (λ k. find_ioa_index k ioa) r.same_config ∙ found;
      entry =
          ap (λ vs. get_elem? vs idx) r.zeroed
          ∙ get_elem?-replicate c.config.count idx zero_value inside;
    } in
    elim (update_data_lem f g (reset_context c) (some (suc clients)) now ioa idx zero_value v at) [
      | inl same ↦
          let differ =
            values_equal-other_type f g (reset_context c).type_info zero_value v
              (λ e. other (sym e)) in
          cc
      | inr new ↦ new.4 ∙ is_due-online f g clients now (reset_context c).last_offline_update idx
    ]
