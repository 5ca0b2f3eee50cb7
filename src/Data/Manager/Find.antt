-- ===== src/Data/Manager/Find.antt =====
-- The linear searches of data_manager.c.
use iec104_server_and_modbus.Base.{
  ℕ, zero, suc, ◌+◌, ◌-◌, ◌<◌, ◌≤◌, ◌≡◌, ◌≢◌, Option, none, some, List, [], ◌∷◌, arith, length,
  get_elem?, ◌==◌, Bool-cases, inl, inr, ap,
}
use iec104_server_and_modbus.Data.Manager.{DynamicIoaConfig, entries, find_from, find_ioa_index}

-- `r` is the first index of `a` in the list, or tells that there is none.
abbrev pub IsFirstIndex : List ℕ → ℕ → Option ℕ → Type 0
IsFirstIndex xs a none = (j : ℕ) → get_elem? xs j ≢ some a
IsFirstIndex xs a (some k) = (get_elem? xs k ≡ some a) × ((j : ℕ) → j < k → get_elem? xs j ≢ some a)

-- The result of a search from index i is at least i, and counts from i on.
abbrev ShiftedIndex : List ℕ → ℕ → ℕ → Option ℕ → Type 0
ShiftedIndex xs i a none = IsFirstIndex xs a none
ShiftedIndex xs i a (some k) = (i ≤ k) × IsFirstIndex xs a (some (k - i))

ShiftedIndex-cons :
    (x a : ℕ) (xs : List ℕ) (i : ℕ) (r : Option ℕ)
    → x ≢ a
    → ShiftedIndex xs (i + 1) a r
    → ShiftedIndex (x ∷ xs) i a r
ShiftedIndex-cons x a xs i none ne h = elim [ zero ↦ λ e. ne (cc) | suc j ↦ h j ]
ShiftedIndex-cons x a xs i (some k) ne h =
    let e : k - i ≡ suc (k - (i + 1)) = omega arith in
    (omega arith, rw e (h.1.0, elim [ zero ↦ λ _ q. ne (cc) | suc j ↦ λ l. h.1.1 j (omega arith) ]))

find_from_lem :
    (xs : List ℕ) (n i ioa : ℕ) → length xs ≡ n → ShiftedIndex xs i ioa (find_from xs n i ioa)
unfolding find_from
find_from_lem [] n i ioa h = λ j e. cc
find_from_lem (x ∷ xs) zero i ioa h = absurd (omega arith)
find_from_lem (x ∷ xs) (suc n) i ioa h = elim (Bool-cases (x == ioa)) [
  | inl hit ↦ rw hit (
      let e : i - i ≡ 0 = omega arith in
      let same : x ≡ ioa = ground arith in
      (omega arith, rw e (ap some same, λ j l. absurd (omega arith))))
  | inr miss ↦ rw miss (
      ShiftedIndex-cons x ioa xs i (find_from xs n (i + 1) ioa) (ground arith)
        (find_from_lem xs n (i + 1) ioa (omega arith)))
]

unshift : (xs : List ℕ) (a : ℕ) (r : Option ℕ) → ShiftedIndex xs 0 a r → IsFirstIndex xs a r
unshift xs a none h = h
unshift xs a (some k) h = let e : k - 0 ≡ k = omega arith in rw e at h.1

-- Where the list of a configuration has `count` entries, `find_ioa_index` returns the first index
-- of the address, and -1 exactly if the address is not configured.
pub find_ioa_index_lem :
    (config : DynamicIoaConfig) (ioa : ℕ)
    → length (entries config.ioa_list) ≡ config.count
    → IsFirstIndex (entries config.ioa_list) ioa (find_ioa_index config ioa)
unfolding find_ioa_index
find_ioa_index_lem config ioa h =
    unshift (entries config.ioa_list) ioa (find_ioa_index config ioa)
      (find_from_lem (entries config.ioa_list) config.count 0 ioa h)

find_from-lt : (xs : List ℕ) (n i ioa k : ℕ) → find_from xs n i ioa ≡ some k → k < i + n
unfolding find_from
find_from-lt [] n i ioa k h = absurd (cc)
find_from-lt (x ∷ xs) zero i ioa k h = absurd (cc)
find_from-lt (x ∷ xs) (suc n) i ioa k h = elim (Bool-cases (x == ioa)) [
  | inl hit ↦ ground arith
  | inr miss ↦ ground (arith, find_from-lt xs n (i + 1) ioa k)
]

-- A found index is below the count.
pub find_ioa_index-lt :
    (config : DynamicIoaConfig) (ioa k : ℕ) → find_ioa_index config ioa ≡ some k → k < config.count
unfolding find_ioa_index
find_ioa_index-lt config ioa k h =
    omega (arith, find_from-lt (entries config.ioa_list) config.count 0 ioa k h)
