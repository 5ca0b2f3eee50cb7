-- ===== src/Interrogation/Fits.antt =====
-- The numbers of objects that json-iec104-server/src/protocol/interrogation.c plans for an ASDU do
-- fit, and a run of points counts up.
use iec104_server_and_modbus.Base.{
  ℕ, zero, suc, ◌+◌, ◌-◌, ◌*◌, ◌≤◌, ◌<◌, ◌≡◌, inl, inr, ap, true, false, List, [], ◌∷◌, All, take,
  drop, leb, ◌==◌, add_int, arith, subst, Bool-cases, ◌^◌,
}
use native.Mathlib.Nat.{div-mul-le_self}
use iec104_server_and_modbus.Interrogation.Encoder.{header_size, payload}
use iec104_server_and_modbus.Interrogation.Blocks.{
  Point, calc_max_ioas_sq0, calc_max_ioas_sq1, get_io_size_no_ioa, run_length,
}
use iec104_server_and_modbus.Interrogation.Chunks.{Consecutive}

-- The limits on the number of objects in an ASDU: they are positive, and so many objects fit, if
-- objects of `io_size` bytes with their address fit at all.
pub sq0_fits :
    (max size io_size : ℕ)
    → size + 3 ≡ io_size
    → 6 + io_size ≤ max
    → (0 < calc_max_ioas_sq0 max io_size)
      × (header_size + payload false (calc_max_ioas_sq0 max io_size) size ≤ max)
unfolding calc_max_ioas_sq0
sq0_fits max size io_size e h = grind arith

pub sq1_fits :
    (max size io_size : ℕ)
    → size + 3 ≡ io_size
    → 0 < size
    → 6 + io_size ≤ max
    → let m = calc_max_ioas_sq1 max io_size (get_io_size_no_ioa io_size) in
      (0 < m) × (header_size + payload true m size ≤ max)
unfolding calc_max_ioas_sq1 get_io_size_no_ioa
sq1_fits max size io_size e p h =
    let no_ioa : io_size - 3 ≡ size = omega arith in
    elim (Bool-cases (leb max (6 + io_size))) [
      | inl one ↦ rw one (omega arith, ground arith)
      | inr more ↦
          rw (more, no_ioa)
            (
              omega arith,
              let whole = div-mul-le_self (max - 6 - io_size) size in
                  let bound : 6 + io_size < max = ground arith in omega arith,
            )
    ]

pub at_most : (m size : ℕ) → m * size ≤ 240 → 2 ≤ size → m ≤ 120
at_most m size h two = let double : m * 2 ≤ m * size = grind arith in omega arith

-- Addresses have three bytes.
abbrev pub InRange : List Point → Type 0
InRange = All (λ p. p.0 < 2 ^ 24)

-- The points that the inner loop counts do count up.
pub run_length-Consecutive :
    (a : ℕ) (ps : List Point)
    → a < 2 ^ 24
    → InRange ps
    → Consecutive (a + 1) (take (run_length a ps) ps)
unfolding run_length
run_length-Consecutive a [] small h = tt
run_length-Consecutive a ((b, v) ∷ ps) small h = elim (Bool-cases (b == add_int a 1)) [
  | inl next ↦
      let e : b ≡ a + 1 = ground arith in
      let later = run_length-Consecutive b ps h.0 h.1 in
      rw next (e, subst (λ k. Consecutive k (take (run_length b ps) ps)) (ap (λ k. k + 1) e) later)
  | inr gap ↦ rw gap tt
]

pub InRange-drop : (n : ℕ) (ps : List Point) → InRange ps → InRange (drop n ps)
InRange-drop zero ps h = h
InRange-drop (suc n) [] h = tt
InRange-drop (suc n) (p ∷ ps) h = InRange-drop n ps h.1
