-- ===== src/Data/Manager/Repeat.antt =====
-- `values_equal`: what counts as a change, and what a repeated update does.
use iec104_server_and_modbus.Base.{
  ℕ, ◌≡◌, ◌≢◌, refl, ◌∙◌, ap, true, false, Option, arith, ◌==◌, inl, inr, ==_refl,
}
use iec104_server_and_modbus.Cfloat.{FloatUnit}
use iec104_server_and_modbus.Globals.{Globals}
use iec104_server_and_modbus.Data.Types.{
  DataValueType, bool, double_point, int16, uint32, float, tag, DataValue, bool_val, DataTypeInfo,
}
use iec104_server_and_modbus.Data.Manager.{
  DataTypeContext, find_ioa_index, update_data, values_equal, members_equal,
}
use iec104_server_and_modbus.Data.Manager.Update.{IsAt, update_data_lem, bool_eq_refl}

module _ (f : FloatUnit) (g : Globals) where
  -- For every type but float, values with the same type and the same bytes are equal.
  members_equal_refl :
      (t : DataValueType) (info : DataTypeInfo) (a b : DataValue)
      → t ≢ float
      → a.value ≡ b.value
      → members_equal f g t info a b ≡ true
  unfolding members_equal
  members_equal_refl bool info a b ne e = rw e (bool_eq_refl (bool_val b))
  members_equal_refl double_point info a b ne e = rw e (==_refl _)
  members_equal_refl int16 info a b ne e = rw e (==_refl _)
  members_equal_refl uint32 info a b ne e = rw e (==_refl _)
  members_equal_refl float info a b ne e = absurd (ne refl)

  pub values_equal-same :
      (info : DataTypeInfo) (a b : DataValue)
      → a.type ≢ float
      → a.type ≡ b.type
      → a.value ≡ b.value
      → values_equal f g info a b ≡ true
  unfolding values_equal
  values_equal-same info a b ne t e =
      let same : (tag a.type == tag b.type) ≡ true = rw t (==_refl (tag b.type)) in
      rw same (members_equal_refl a.type info a b ne e)

  -- Values of different types are never equal.
  pub values_equal-other_type :
      (info : DataTypeInfo) (a b : DataValue)
      → tag a.type ≢ tag b.type
      → values_equal f g info a b ≡ false
  unfolding values_equal
  values_equal-other_type info a b ne = ground arith

  -- An update that is sent once more with the same value changes nothing and reports nothing, for
  -- every type but float: whatever the first call found, the second one leaves the context as the
  -- first one left it and returns false.
  pub update_data_twice :
      (ctx : DataTypeContext) (slave slave' : Option ℕ) (now later ioa idx : ℕ) (old v : DataValue)
      → v.type ≢ float
      → IsAt f g ctx ioa idx old
      → let first = (update_data f g ctx slave now ioa v).0 in
        update_data f g first slave' later ioa v ≡ (first, false)
  update_data_twice ctx slave slave' now later ioa idx old v ne at =
      elim (update_data_lem f g ctx slave now ioa idx old v at) [
        | inl (same, e) ↦
            let unchanged : (update_data f g ctx slave now ioa v).0 ≡ ctx = ap (λ r. r.0) e in
            rw unchanged (repeat ctx idx old at same)
        | inr (new, stored, others, config, rc) ↦
            repeat (update_data f g ctx slave now ioa v).0 idx v
              (record { found = ap (λ c. find_ioa_index c ioa) config ∙ at.found; entry = stored })
              (values_equal-same _ v v ne refl refl)
      ]
    where
      repeat :
          (c : DataTypeContext) (i : ℕ) (w : DataValue)
          → IsAt f g c ioa i w
          → values_equal f g c.type_info w v ≡ true
          → update_data f g c slave' later ioa v ≡ (c, false)
      repeat c i w a same = elim (update_data_lem f g c slave' later ioa i w v a) [
        | inl (_, e) ↦ e
        | inr new ↦ let differ = new.0 in cc
      ]

  -- The quality is not compared: an update that only brings another quality, with the type and the
  -- bytes of the stored value, is dropped, for every type but float. The stored quality stays.
  pub quality_change_dropped :
      (ctx : DataTypeContext) (slave : Option ℕ) (now ioa idx q : ℕ) (old : DataValue)
      → old.type ≢ float
      → IsAt f g ctx ioa idx old
      → update_data f g ctx slave now ioa (record old { quality = q }) ≡ (ctx, false)
  quality_change_dropped ctx slave now ioa idx q old ne at =
      elim (update_data_lem f g ctx slave now ioa idx old (record old { quality = q }) at) [
        | inl (_, e) ↦ e
        | inr new ↦
            let differ = new.0 in
            let same : values_equal f g ctx.type_info old (record old { quality = q }) ≡ true =
              values_equal-same ctx.type_info old (record old { quality = q }) ne refl refl in
            cc
      ]
