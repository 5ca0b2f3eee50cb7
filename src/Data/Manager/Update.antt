-- ===== src/Data/Manager/Update.antt =====
-- What `update_data` does to the entry of an address, and what it returns.
use iec104_server_and_modbus.Base.{
  ℕ, suc, ◌<◌, ◌≡◌, ◌≢◌, refl, sym, ◌⊎◌, Bool, true, false, ◌||◌, Option, none, some, List, arith,
  get_elem?, get_elem?_lt, get_elem?-set_self, get_elem?-set_ne, Bool-cases, inl, inr, leb, sub_u64,
  bool_eq,
}
use iec104_server_and_modbus.Cfloat.{FloatUnit}
use iec104_server_and_modbus.Globals.{Globals}
use iec104_server_and_modbus.Data.Types.{DataValue, DataTypeInfo}
use iec104_server_and_modbus.Data.Manager.{
  DataTypeContext, entries, find_ioa_index, update_data, update_at, update_entry, should_send,
  stamp_entry, allow_offline_update, is_client_connected, stored, values_equal, offline_window,
}

pub bool_eq_refl : (b : Bool) → bool_eq b b ≡ true
bool_eq_refl true = refl
bool_eq_refl false = refl

module _ (f : FloatUnit) (g : Globals) where
  -- An address with its entry: the first index of the address, and the value that is stored there.
  pub record IsAt (ctx : DataTypeContext) (ioa idx : ℕ) (old : DataValue) : Type 0 where
    pub found : find_ioa_index ctx.config ioa ≡ some idx
    pub entry : get_elem? (entries ctx.data_array) idx ≡ some old

  pub update_data_at :
      (ctx : DataTypeContext) (slave : Option ℕ) (now ioa idx : ℕ) (old v : DataValue)
      → IsAt ctx ioa idx old
      → update_data f g ctx slave now ioa v ≡ update_entry f g ctx slave now idx old v
  unfolding update_data update_at
  update_data_at ctx slave now ioa idx old v at = rw (at.found, update_at, at.entry)

  pub stored_lem : (info : DataTypeInfo) (v : DataValue) → stored f g info v ≡ v
  unfolding stored
  stored_lem info v = ground arith

  elapsed : ℕ → Option ℕ → Bool
  elapsed now none = true
  elapsed now (some last) = leb (offline_window f g) (sub_u64 now last)

  -- Whether a change at `idx` is reported: a client is connected, or the type has time stamps and
  -- the entry's window is over.
  pub is_due : Option ℕ → ℕ → Option (List ℕ) → ℕ → Bool
  unfolding elapsed
  is_due slave now none idx = is_client_connected slave
  is_due slave now (some stamps) idx =
      is_client_connected slave || elapsed now (get_elem? stamps idx)

  -- With no client, a change is not due within the window after the entry's time stamp.
  pub is_due-within :
      (now last idx : ℕ) (ts : List ℕ)
      → get_elem? ts idx ≡ some last
      → sub_u64 now last < offline_window f g
      → is_due (some 0) now (some ts) idx ≡ false
  unfolding is_due is_client_connected
  is_due-within now last idx ts at soon = ground arith

  pub is_due-online :
      (clients now : ℕ) (stamps : Option (List ℕ)) (idx : ℕ)
      → is_due (some (suc clients)) now stamps idx ≡ true
  unfolding is_due is_client_connected
  is_due-online clients now none idx = ground arith
  is_due-online clients now (some ts) idx = ground arith

  should_send-is_due :
      (slave : Option ℕ) (now : ℕ) (stamps : Option (List ℕ)) (idx : ℕ)
      → (should_send f g slave now stamps idx).0 ≡ is_due slave now stamps idx
  unfolding should_send is_due
  should_send-is_due slave now none idx = refl
  should_send-is_due slave now (some stamps) idx = elim (Bool-cases (is_client_connected slave)) [
    | inl on ↦ rw on refl
    | inr off ↦ rw off (offline (get_elem? stamps idx))
  ]
    where
      offline :
          (last : Option ℕ)
          → (stamp_entry f g stamps idx (allow_offline_update f g now last)).0 ≡ elapsed now last
      offline none = refl
      offline (some t) = ground arith

  -- The update of a configured address. If the new value equals the stored one, as
  -- `values_equal` compares them, nothing changes and nothing is reported. If it differs, exactly
  -- the entry of the address becomes the new value, the configuration stays, and the change is
  -- reported when it is due.
  pub update_data_lem :
      (ctx : DataTypeContext) (slave : Option ℕ) (now ioa idx : ℕ) (old v : DataValue)
      → IsAt ctx ioa idx old
      → let r = update_data f g ctx slave now ioa v in
        ((values_equal f g ctx.type_info old v ≡ true) × (r ≡ (ctx, false)))
        ⊎ ((values_equal f g ctx.type_info old v ≡ false)
            × (get_elem? (entries r.0.data_array) idx ≡ some v)
            × ((j : ℕ)
                → j ≢ idx
                → get_elem? (entries r.0.data_array) j ≡ get_elem? (entries ctx.data_array) j)
            × (r.0.config ≡ ctx.config)
            × (r.1 ≡ is_due slave now ctx.last_offline_update idx))
  unfolding update_entry
  update_data_lem ctx slave now ioa idx old v at =
      rw (update_data_at ctx slave now ioa idx old v at)
        (elim (Bool-cases (values_equal f g ctx.type_info old v)) [
          | inl same ↦ inl (same, rw (update_entry, same) refl)
          | inr new ↦ inr (
            new,
            rw (update_entry, new, stored_lem)
                (get_elem?-set_self (entries ctx.data_array) idx v
                  (get_elem?_lt (entries ctx.data_array) idx at.entry)),
            λ j ne.
                rw (update_entry, new)
                  (get_elem?-set_ne (entries ctx.data_array) idx j (stored f g ctx.type_info v)
                    (λ e. ne (sym e))),
            rw (update_entry, new) refl,
            rw (update_entry, new) (should_send-is_due slave now ctx.last_offline_update idx),
          )
        ])
