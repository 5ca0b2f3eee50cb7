-- ===== src/Data/Manager/Offline.antt =====
-- The limit on the updates that are reported while no client is connected.
use iec104_server_and_modbus.Base.{
  ℕ, ◌+◌, ◌-◌, ◌*◌, ◌^◌, ◌<◌, ◌≤◌, ◌≡◌, ◌≢◌, ◌⊎◌, refl, ◌∙◌, ap, sym, true, false, some, List,
  arith, leb, sub_u64, All, [], ◌∷◌, Bool, ◌==◌, Option-cases, get_elem?-set_ne, get_elem?-some,
  length-set, get_elem?, get_elem?_lt, set, get_elem?-set_self, Bool-cases, inl, inr,
}
use iec104_server_and_modbus.Cfloat.{FloatUnit}
use iec104_server_and_modbus.Globals.{Globals}
use iec104_server_and_modbus.Data.Types.{DataValue}
use iec104_server_and_modbus.Data.Manager.{
  DataTypeContext, entries, update_at, values_equal, find_ioa_index, update_data, update_entry,
  should_send, allow_offline_update, offline_window,
}
use iec104_server_and_modbus.Data.Manager.Update.{
  IsAt, update_data_at, update_data_lem, is_due, is_due-within,
}

module _ (f : FloatUnit) (g : Globals) where
  -- The setting `offline_udt_time` counts as seconds: if it times 1000 fits in 32 bits, an update is
  -- allowed exactly when that many milliseconds have passed; it then moves the time stamp, and
  -- otherwise keeps it. The manuals (docs/API.md and docs/USER_GUIDE.md) give the setting in
  -- milliseconds; the window of the code is 1000 times as long.
  pub allow_offline_update_lem :
      (now last : ℕ)
      → g.offline_udt_time < 4294968
      → last ≤ now
      → now < 2 ^ 64
      → ((g.offline_udt_time * 1000 ≤ now - last)
          × (allow_offline_update f g now (some last) ≡ (true, some now)))
        ⊎ ((now - last < g.offline_udt_time * 1000)
            × (allow_offline_update f g now (some last) ≡ (false, some last)))
  unfolding allow_offline_update
  allow_offline_update_lem now last small order fits =
      elim (Bool-cases (leb (offline_window f g) (sub_u64 now last))) [
        | inl over ↦ inl (ground arith, rw over refl)
        | inr within ↦ inr (ground arith, rw within refl)
      ]

  -- From 4294968 seconds on the product wraps round, and an update is allowed before the
  -- configured time is over: one millisecond early, at the least.
  pub allow_offline_update_early :
      (last : ℕ)
      → 4294968 ≤ g.offline_udt_time
      → last + g.offline_udt_time * 1000 < 2 ^ 64
      → (allow_offline_update f g (last + g.offline_udt_time * 1000 - 1) (some last)).0 ≡ true
  unfolding allow_offline_update
  allow_offline_update_early last big fits = ground arith

  -- A change that is reported to no client leaves the time of the call as the entry's time stamp.
  should_send-stamp :
      (now : ℕ) (ts : List ℕ) (idx t : ℕ)
      → get_elem? ts idx ≡ some t
      → (should_send f g (some 0) now (some ts) idx).0 ≡ true
      → (should_send f g (some 0) now (some ts) idx).1 ≡ some (set ts idx now)
  unfolding should_send
  should_send-stamp now ts idx t at sent = ground arith

  update_entry-stamp :
      (ctx : DataTypeContext) (now idx t : ℕ) (ts : List ℕ) (old v : DataValue)
      → ctx.last_offline_update ≡ some ts
      → get_elem? ts idx ≡ some t
      → (update_entry f g ctx (some 0) now idx old v).1 ≡ true
      → (update_entry f g ctx (some 0) now idx old v).0.last_offline_update ≡ some (set ts idx now)
  unfolding update_entry
  update_entry-stamp ctx now idx t ts old v stamps at sent =
      ground (arith, should_send-stamp now ts idx t at)

  -- A call of `update_data` while no client is connected: the time, the address and the value.
  abbrev pub Call : Type 0
  Call = ℕ × ℕ × DataValue

  abbrev pub offline_call : DataTypeContext → Call → DataTypeContext × Bool
  offline_call ctx c = update_data f g ctx (some 0) c.0 c.1 c.2

  -- The context after some calls.
  abbrev pub after_calls : DataTypeContext → List Call → DataTypeContext
  after_calls ctx [] = ctx
  after_calls ctx (c ∷ cs) = after_calls (offline_call ctx c).0 cs

  -- The call comes within the offline window after `now`.
  abbrev pub IsSoon : ℕ → Call → Type 0
  IsSoon now c = sub_u64 c.0 now < offline_window f g

  -- The address is configured, and its time stamp is `now`.
  record IsStamped (now ioa idx : ℕ) (ctx : DataTypeContext) : Type 0 where
    found : find_ioa_index ctx.config ioa ≡ some idx
    entry : (old : DataValue) × (get_elem? (entries ctx.data_array) idx ≡ some old)
    stamped : (ts : List ℕ) × (ctx.last_offline_update ≡ some ts) × (get_elem? ts idx ≡ some now)

  -- A new time stamp within the window leaves that of `idx`: it goes to another entry, or is not
  -- taken.
  should_send-kept :
      (now t idx k : ℕ) (ts : List ℕ)
      → get_elem? ts idx ≡ some now
      → sub_u64 t now < offline_window f g
      → (ts' : List ℕ) × ((should_send f g (some 0) t (some ts) k).1 ≡ some ts')
        × (get_elem? ts' idx ≡ some now)
  unfolding should_send
  should_send-kept now t idx k ts at soon = elim (Bool-cases (k == idx)) [
    | inl hit ↦
        let same : k ≡ idx = ground arith in
        (
          set ts idx now,
          rw (same, at) (ground arith),
          get_elem?-set_self ts idx now (get_elem?_lt ts idx at),
        )
    | inr miss ↦
        let other : k ≢ idx = ground arith in
        elim (Option-cases (get_elem? ts k)) [
          | inl past ↦ (ts, rw past refl, at)
          | inr (last, e) ↦ elim (Bool-cases (leb (offline_window f g) (sub_u64 t last))) [
            | inl over ↦ (set ts k t, rw (e, over) refl, get_elem?-set_ne ts k idx t other ∙ at)
            | inr early ↦
                (set ts k last, rw (e, early) refl, get_elem?-set_ne ts k idx last other ∙ at)
          ]
        ]
  ]

  set-some :
      (vs : List DataValue) (k idx : ℕ) (v old : DataValue)
      → get_elem? vs idx ≡ some old
      → (x : DataValue) × (get_elem? (set vs k v) idx ≡ some x)
  set-some vs k idx v old e =
      get_elem?-some (set vs k v) idx (omega (arith, length-set vs k v, get_elem?_lt vs idx e))

  update_entry-IsStamped :
      (now ioa idx : ℕ) (ctx : DataTypeContext) (t k : ℕ) (old v : DataValue)
      → IsStamped now ioa idx ctx
      → sub_u64 t now < offline_window f g
      → IsStamped now ioa idx (update_entry f g ctx (some 0) t k old v).0
  unfolding update_entry
  update_entry-IsStamped now ioa idx ctx t k old v h soon =
      elim (Bool-cases (values_equal f g ctx.type_info old v)) [
        | inl same ↦ rw same h
        | inr new ↦
            let (ts, is_ts, at) = h.stamped in
            let (ts', sent, at') = should_send-kept now t idx k ts at soon in
            rw new (record {
              found = h.found;
              entry = set-some (entries ctx.data_array) k idx _ h.entry.0 h.entry.1;
              stamped = (ts', ap (λ s. (should_send f g (some 0) t s k).1) is_ts ∙ sent, at');
            })
      ]

  offline_call-IsStamped :
      (now ioa idx : ℕ) (ctx : DataTypeContext) (c : Call)
      → IsStamped now ioa idx ctx
      → IsSoon now c
      → IsStamped now ioa idx (offline_call ctx c).0
  unfolding update_data update_at
  offline_call-IsStamped now ioa idx ctx (t, a, v) h soon =
      elim (Option-cases (find_ioa_index ctx.config a)) [
        | inl unknown ↦ rw unknown h
        | inr (k, found) ↦ elim (Option-cases (get_elem? (entries ctx.data_array) k)) [
          | inl past ↦ rw (found, update_at, past) h
          | inr (old, e) ↦
              rw (found, update_at, e) (update_entry-IsStamped now ioa idx ctx t k old v h soon)
        ]
      ]

  after_calls-IsStamped :
      (now ioa idx : ℕ) (ctx : DataTypeContext) (cs : List Call)
      → IsStamped now ioa idx ctx
      → All (IsSoon now) cs
      → IsStamped now ioa idx (after_calls ctx cs)
  after_calls-IsStamped now ioa idx ctx [] h soon = h
  after_calls-IsStamped now ioa idx ctx (c ∷ cs) h soon =
      after_calls-IsStamped now ioa idx (offline_call ctx c).0 cs
        (offline_call-IsStamped now ioa idx ctx c h soon.0) soon.1

  -- A stamped address is not reported within the window.
  IsStamped-unsent :
      (now ioa idx : ℕ) (ctx : DataTypeContext) (t : ℕ) (w : DataValue)
      → IsStamped now ioa idx ctx
      → sub_u64 t now < offline_window f g
      → (offline_call ctx (t, ioa, w)).1 ≡ false
  IsStamped-unsent now ioa idx ctx t w h soon =
      let (ts, is_ts, at) = h.stamped in
      elim (update_data_lem f g ctx (some 0) t ioa idx h.entry.0 w
        (record { found = h.found; entry = h.entry.1 })) [
          | inl same ↦ ap (λ r. r.1) same.1
          | inr new ↦
              new.4
              ∙ ap (λ stamps. is_due f g (some 0) t stamps idx) is_ts
              ∙ is_due-within f g t now idx ts at soon
        ]

  -- While no client is connected, two reported changes of one address are apart by the offline
  -- window. After a call that returned true at `now`, let any calls follow, of this and of other
  -- addresses of the type, with any values, all within the window after `now`: then a call for the
  -- same address that is within the window, too, returns false, whatever its value. The window is
  -- the setting `offline_udt_time` times 1000 milliseconds, so the setting counts as seconds, and
  -- the product is taken modulo 2^32.
  pub offline_updates_apart :
      (ctx : DataTypeContext) (now later ioa idx t : ℕ) (ts : List ℕ) (old v w : DataValue)
      (calls : List Call)
      → IsAt f g ctx ioa idx old
      → ctx.last_offline_update ≡ some ts
      → get_elem? ts idx ≡ some t
      → (offline_call ctx (now, ioa, v)).1 ≡ true
      → All (IsSoon now) calls
      → sub_u64 later now < offline_window f g
      → (offline_call (after_calls (offline_call ctx (now, ioa, v)).0 calls) (later, ioa, w)).1
        ≡ false
  offline_updates_apart ctx now later ioa idx t ts old v w calls at stamps stamp sent within soon =
      IsStamped-unsent now ioa idx (after_calls first calls) later w
        (after_calls-IsStamped now ioa idx first calls stamped within) soon
    where
      first : DataTypeContext
      first = (offline_call ctx (now, ioa, v)).0

      moved : first.last_offline_update ≡ some (set ts idx now)
      moved =
          let e = update_data_at f g ctx (some 0) now ioa idx old v at in
          ap (λ r. r.0.last_offline_update) e
          ∙ update_entry-stamp ctx now idx t ts old v stamps stamp (sym (ap (λ r. r.1) e) ∙ sent)

      stamped : IsStamped now ioa idx first
      stamped = elim (update_data_lem f g ctx (some 0) now ioa idx old v at) [
        | inl same ↦ absurd (let unsent = ap (λ r. r.1) same.1 in cc)
        | inr new ↦ record {
          found = ap (λ c. find_ioa_index c ioa) new.3 ∙ at.found;
          entry = (v, new.1);
          stamped =
              (set ts idx now, moved, get_elem?-set_self ts idx now (get_elem?_lt ts idx stamp));
        }
      ]
