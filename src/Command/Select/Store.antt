-- ===== src/Command/Select/Store.antt =====
-- Storing, testing and clearing a selection.
use iec104_server_and_modbus.Base.{
  ℕ, ◌<◌, ◌≡◌, refl, inl, inr, Bool, true, false, not, List, [], ◌∷◌, All, length, ◌==◌,
  if◌then◌else◌, sub_u64, arith, Bool-cases,
}
use iec104_server_and_modbus.Command.Select.{
  SelectEntry, selected, store_select_state, is_previously_selected, clear_select_state, holds,
  is_live,
}

-- No call changes the size of the table.
pub length-store :
    (ioa c now : ℕ) (es : List SelectEntry) → length (store_select_state ioa c now es) ≡ length es
unfolding store_select_state
length-store ioa c now [] = refl
length-store ioa c now (e ∷ es) = ground (arith, length-store ioa c now es)

-- No entry holds the selection of the address by the connection.
abbrev pub HasNone : ℕ → ℕ → List SelectEntry → Type 0
HasNone ioa c = All (λ e. holds ioa c e ≡ false)

-- There is an entry that is free or has the address.
unfoldable pub has_room : ℕ → List SelectEntry → Bool
has_room ioa [] = false
has_room ioa (e ∷ es) =
    if not e.is_selected then true else if e.ioa == ioa then true else has_room ioa es

-- The entry that a store writes is the only one that holds the selection, if none did before.
pub store-check-clear :
    (ioa c now later : ℕ) (es : List SelectEntry)
    → has_room ioa es ≡ true
    → HasNone ioa c es
    → sub_u64 later now < 5000
    → let stored = store_select_state ioa c now es in
      (is_previously_selected ioa c later stored ≡ (true, stored))
      × HasNone ioa c (clear_select_state ioa c stored)
unfolding store_select_state is_previously_selected clear_select_state has_room
store-check-clear ioa c now later [] room free soon = absurd (cc)
store-check-clear ioa c now later (e ∷ es) room free soon =
    ground (arith, store-check-clear ioa c now later es)

-- With no entry that holds the selection, the test fails and leaves the table alone.
pub is_previously_selected-HasNone :
    (ioa c now : ℕ) (es : List SelectEntry)
    → HasNone ioa c es
    → is_previously_selected ioa c now es ≡ (false, es)
unfolding is_previously_selected
is_previously_selected-HasNone ioa c now [] free = refl
is_previously_selected-HasNone ioa c now (e ∷ es) free =
    ground (arith, is_previously_selected-HasNone ioa c now es)

-- A full table of other addresses is left alone.
pub store-full :
    (ioa c now : ℕ) (es : List SelectEntry)
    → has_room ioa es ≡ false
    → store_select_state ioa c now es ≡ es
unfolding store_select_state has_room
store-full ioa c now [] full = refl
store-full ioa c now (e ∷ es) full = ground (arith, store-full ioa c now es)

module _ {κ} (P : SelectEntry → Type κ) where
  -- A property of every entry survives a store of an entry that has it.
  pub store-All :
      (ioa c now : ℕ) (es : List SelectEntry)
      → P (selected ioa c now)
      → All P es
      → All P (store_select_state ioa c now es)
  unfolding store_select_state
  store-All ioa c now [] p h = tt
  store-All ioa c now (e ∷ es) p h = elim (Bool-cases (not e.is_selected)) [
    | inl free ↦ rw free (p, h.1)
    | inr taken ↦ rw taken (elim (Bool-cases (e.ioa == ioa)) [
      | inl same ↦ rw same (p, h.1)
      | inr other ↦ rw other (h.0, store-All ioa c now es p h.1)
    ])
  ]

  module _ (freed : (e : SelectEntry) → P e → P (record e { is_selected = false })) where
    -- It survives the test and the clearing, if it survives the freeing of an entry.
    pub is_previously_selected-All :
        (ioa c now : ℕ) (es : List SelectEntry)
        → All P es
        → All P (is_previously_selected ioa c now es).1
    unfolding is_previously_selected
    is_previously_selected-All ioa c now [] h = tt
    is_previously_selected-All ioa c now (e ∷ es) h = elim (Bool-cases (holds ioa c e)) [
      | inl hit ↦ rw hit (elim (Bool-cases (is_live now e)) [
        | inl live ↦ rw live h
        | inr old ↦ rw old (freed e h.0, h.1)
      ])
      | inr miss ↦ rw miss (h.0, is_previously_selected-All ioa c now es h.1)
    ]

    pub clear-All :
        (ioa c : ℕ) (es : List SelectEntry) → All P es → All P (clear_select_state ioa c es)
    unfolding clear_select_state
    clear-All ioa c [] h = tt
    clear-All ioa c (e ∷ es) h = elim (Bool-cases (holds ioa c e)) [
      | inl hit ↦ rw hit (freed e h.0, h.1)
      | inr miss ↦ rw miss (h.0, clear-All ioa c es h.1)
    ]

  -- A test that succeeds has found an entry that holds the selection and is not too old.
  pub is_previously_selected-found :
      (ioa c now : ℕ) (es : List SelectEntry)
      → All P es
      → (is_previously_selected ioa c now es).0 ≡ true
      → (e : SelectEntry) × P e × (holds ioa c e ≡ true) × (is_live now e ≡ true)
  unfolding is_previously_selected
  is_previously_selected-found ioa c now [] h found = absurd (cc)
  is_previously_selected-found ioa c now (e ∷ es) h found = elim (Bool-cases (holds ioa c e)) [
    | inl hit ↦ (e, h.0, hit, ground arith)
    | inr miss ↦ is_previously_selected-found ioa c now es h.1 (ground arith)
  ]
