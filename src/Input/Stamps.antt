-- ===== src/Input/Stamps.antt =====
-- A time stamp of the table `offline_tracking`: what sets it, what keeps it, and what it prevents.
use iec104_server_and_modbus.Base.{
  ℕ, ◌<◌, ◌≡◌, ◌≢◌, ◌⊎◌, refl, ap, ◌∙◌, Bool, true, false, Option, none, some, List, [], ◌∷◌,
  get_elem?, replicate, leb, ◌==◌, sub_u64, arith, Bool-cases, Option-cases, inl, inr,
  get_elem?-set_self, get_elem?-set_ne, get_elem?_lt,
}
use iec104_server_and_modbus.Cfloat.{FloatUnit}
use iec104_server_and_modbus.Globals.{Globals}
use iec104_server_and_modbus.Data.Types.{DataValue, DataTypeInfo}
use iec104_server_and_modbus.Data.Manager.{offline_window}
use iec104_server_and_modbus.Input.Tracking.{
  Tracking, updated, track, stamp, stamp_changed, deadband_passed,
}

module _ (type_id idx t : ℕ) where
  -- The time stamp is `t` at the index.
  abbrev pub HasStamp : List ℕ → Type 0
  HasStamp ts = get_elem? ts idx ≡ some t

  -- The entry that the search of the table finds for the type has the time stamp.
  abbrev pub Stamped : List Tracking → Type 0
  Stamped [] = ⊥
  Stamped (e ∷ es) =
      ((e.type_id ≡ type_id) × HasStamp e.timestamps)
      ⊎ ((e.type_id ≢ type_id) × (e.type_id ≢ 0) × Stamped es)

  -- A search for the type keeps the time stamp, if the rest of the handler does.
  pub track-Stamped_same :
      (count : ℕ) (update : List ℕ → Bool × List ℕ) (table : List Tracking)
      → ((ts : List ℕ) → HasStamp ts → HasStamp (update ts).1)
      → Stamped table
      → Stamped (track type_id count update table).1
  unfolding track updated
  track-Stamped_same count update [] keeps h = absurd h
  track-Stamped_same count update (e ∷ es) keeps (inl (hit, at)) =
      let found : (e.type_id == type_id) ≡ true = ground arith in
      rw found (inl (hit, keeps e.timestamps at))
  track-Stamped_same count update (e ∷ es) keeps (inr (miss, taken, later)) =
      let a : (e.type_id == type_id) ≡ false = ground arith in
      let b : (e.type_id == 0) ≡ false = ground arith in
      rw (a, b) (inr (miss, taken, track-Stamped_same count update es keeps later))

  -- A search for another type keeps it.
  pub track-Stamped_other :
      (other count : ℕ) (update : List ℕ → Bool × List ℕ) (table : List Tracking)
      → other ≢ type_id
      → type_id ≢ 0
      → Stamped table
      → Stamped (track other count update table).1
  unfolding track updated
  track-Stamped_other other count update [] ne real h = absurd h
  track-Stamped_other other count update (e ∷ es) ne real (inl (hit, at)) =
      let a : (e.type_id == other) ≡ false = ground arith in
      let b : (e.type_id == 0) ≡ false = ground arith in rw (a, b) (inl (hit, at))
  track-Stamped_other other count update (e ∷ es) ne real (inr (miss, taken, later)) =
      elim (Bool-cases (e.type_id == other)) [
        | inl a ↦ rw a (inr (miss, taken, later))
        | inr a ↦
            let b : (e.type_id == 0) ≡ false = ground arith in
            rw (a, b) (inr (miss, taken, track-Stamped_other other count update es ne real later))
      ]

  -- A search that succeeds leaves the time stamp, if the rest of the handler does where it succeeds.
  pub track-Stamped :
      (count : ℕ) (update : List ℕ → Bool × List ℕ) (table : List Tracking)
      → ((ts : List ℕ) → (update ts).0 ≡ true → HasStamp (update ts).1)
      → (track type_id count update table).0 ≡ true
      → Stamped (track type_id count update table).1
  unfolding track updated
  track-Stamped count update [] leaves h = absurd (ground arith)
  track-Stamped count update (e ∷ es) leaves h = elim (Bool-cases (e.type_id == type_id)) [
    | inl hit ↦ rw hit (inl (ground arith, leaves e.timestamps (rw hit at h)))
    | inr miss ↦ elim (Bool-cases (e.type_id == 0)) [
      | inl free ↦ rw (miss, free) (inl (refl, leaves (replicate count 0) (rw (miss, free) at h)))
      | inr taken ↦
          rw (miss, taken)
            (inr (
              λ q. ground arith,
              λ q. ground arith,
              track-Stamped count update es leaves (rw (miss, taken) at h),
            ))
    ]
  ]

  -- A search for the type fails, if the rest of the handler does on the time stamp.
  pub track-fails :
      (count : ℕ) (update : List ℕ → Bool × List ℕ) (table : List Tracking)
      → ((ts : List ℕ) → HasStamp ts → (update ts).0 ≡ false)
      → Stamped table
      → (track type_id count update table).0 ≡ false
  unfolding track updated
  track-fails count update [] fails h = absurd h
  track-fails count update (e ∷ es) fails (inl (hit, at)) =
      let found : (e.type_id == type_id) ≡ true = ground arith in rw found (fails e.timestamps at)
  track-fails count update (e ∷ es) fails (inr (miss, taken, later)) =
      let a : (e.type_id == type_id) ≡ false = ground arith in
      let b : (e.type_id == 0) ≡ false = ground arith in
      rw (a, b) (track-fails count update es fails later)

module _ (f : FloatUnit) (g : Globals) where
  -- What a time stamp is set to, and when it is not.
  stamp-true :
      (t idx : ℕ) (ts : List ℕ)
      → (stamp f g t idx ts).0 ≡ true
      → get_elem? (stamp f g t idx ts).1 idx ≡ some t
  unfolding stamp
  stamp-true t idx ts h = elim (Option-cases (get_elem? ts idx)) [
    | inl past ↦ let never : false ≡ true = rw (stamp, past) at h in absurd (ground arith)
    | inr (last, at) ↦ elim (Bool-cases (leb (offline_window f g) (sub_u64 t last))) [
      | inr early ↦ let never : false ≡ true = rw (stamp, at, early) at h in absurd (ground arith)
      | inl due ↦ rw (stamp, at, due) (get_elem?-set_self ts idx t (get_elem?_lt ts idx at))
    ]
  ]

  stamp-soon :
      (t u idx : ℕ) (ts : List ℕ)
      → get_elem? ts idx ≡ some t
      → sub_u64 u t < offline_window f g
      → stamp f g u idx ts ≡ (false, ts)
  unfolding stamp
  stamp-soon t u idx ts at soon =
      let window : leb (offline_window f g) (sub_u64 u t) ≡ false = ground arith in
      rw (stamp, at, window) refl

  stamp-kept :
      (t u idx k : ℕ) (ts : List ℕ)
      → get_elem? ts idx ≡ some t
      → sub_u64 u t < offline_window f g
      → get_elem? (stamp f g u k ts).1 idx ≡ some t
  unfolding stamp
  stamp-kept t u idx k ts at soon = elim (Bool-cases (k == idx)) [
    | inl hit ↦
        let same : k ≡ idx = ground arith in
        rw same (ap (λ r. get_elem? r.1 idx) (stamp-soon t u idx ts at soon) ∙ at)
    | inr miss ↦
        let other : k ≢ idx = ground arith in
        elim (Option-cases (get_elem? ts k)) [
          | inl past ↦ rw (stamp, past) at
          | inr (last, e) ↦ elim (Bool-cases (leb (offline_window f g) (sub_u64 u last))) [
            | inl due ↦ rw (stamp, e, due) (get_elem?-set_ne ts k idx u other ∙ at)
            | inr early ↦ rw (stamp, e, early) at
          ]
        ]
  ]

  module _ (info : DataTypeInfo) where
    pub stamp_changed-true :
        (t idx : ℕ) (old : Option DataValue) (v : DataValue) (ts : List ℕ)
        → (stamp_changed f g info t idx old v ts).0 ≡ true
        → get_elem? (stamp_changed f g info t idx old v ts).1 idx ≡ some t
    unfolding stamp_changed
    stamp_changed-true t idx none v ts h = absurd (ground arith)
    stamp_changed-true t idx (some old) v ts h =
        elim (Bool-cases (deadband_passed f g info.value_type old v)) [
          | inl far ↦ rw far (stamp-true t idx ts (rw far at h))
          | inr near ↦ let never : false ≡ true = rw near at h in absurd (ground arith)
        ]

    pub stamp_changed-soon :
        (t u idx : ℕ) (old : Option DataValue) (v : DataValue) (ts : List ℕ)
        → get_elem? ts idx ≡ some t
        → sub_u64 u t < offline_window f g
        → (stamp_changed f g info u idx old v ts).0 ≡ false
    unfolding stamp_changed
    stamp_changed-soon t u idx none v ts at soon = refl
    stamp_changed-soon t u idx (some old) v ts at soon =
        elim (Bool-cases (deadband_passed f g info.value_type old v)) [
          | inl far ↦ rw far (ap (λ r. r.0) (stamp-soon t u idx ts at soon))
          | inr near ↦ rw near refl
        ]

    pub stamp_changed-kept :
        (t u idx k : ℕ) (old : Option DataValue) (v : DataValue) (ts : List ℕ)
        → get_elem? ts idx ≡ some t
        → sub_u64 u t < offline_window f g
        → get_elem? (stamp_changed f g info u k old v ts).1 idx ≡ some t
    unfolding stamp_changed
    stamp_changed-kept t u idx k none v ts at soon = at
    stamp_changed-kept t u idx k (some old) v ts at soon =
        elim (Bool-cases (deadband_passed f g info.value_type old v)) [
          | inl far ↦ rw far (stamp-kept t u idx k ts at soon)
          | inr near ↦ rw near at
        ]
