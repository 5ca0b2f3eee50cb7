-- ===== src/Modbus/Values.antt =====
-- What a client of the Modbus server reads after an update.
use iec104_server_and_modbus.Base.{
  ℕ, zero, suc, ◌+◌, ◌*◌, ◌/◌, ◌%◌, ◌^◌, ◌≤◌, ◌<◌, ◌≡◌, refl, ap, ◌∙◌, String, true, ◌||◌, Option,
  none, some, List, [], ◌∷◌, length, get_elem?, set, take, drop, length-set, get_elem?-set_self,
  get_elem?-set_ne, ◌==◌, if◌then◌else◌, str_eq, arith, Bool-cases, inl, inr,
}
use iec104_server_and_modbus.Cfloat.{FloatUnit}
use iec104_server_and_modbus.Cjson.{Cjson}
use iec104_server_and_modbus.Modbus.Registers.{
  ByteOrder, order_le, order_be, order_swap, swap_bytes, store_words, write_registers,
}
use iec104_server_and_modbus.Modbus.Command.{store_register, swapped_if, words_of, write_value}

-- The registers that a value of a data type takes.
unfoldable pub datatype_words : String → ℕ
datatype_words t =
    if str_eq t "uint16" || str_eq t "int16"
    then 1
    else if (str_eq t "uint32" || str_eq t "int32") || str_eq t "float"
    then 2
    else 0

-- The bytes of a register, of which the high one is sent first.
abbrev pub high_byte : Option ℕ → ℕ
high_byte none = 0
high_byte (some w) = w / 2 ^ 8

abbrev pub low_byte : Option ℕ → ℕ
low_byte none = 0
low_byte (some w) = w % 2 ^ 8

-- Bytes as a number, the first byte the lowest or the highest.
abbrev pub little_endian : List ℕ → ℕ
little_endian [] = 0
little_endian (b ∷ bs) = b + 2 ^ 8 * little_endian bs

-- The number in n registers from i on, n = 1 or 2.
unfoldable pub read_value : ByteOrder → ℕ → List ℕ → ℕ → ℕ
read_value order_swap zero r i = 0
read_value order_swap (suc zero) r i =
    little_endian (high_byte (get_elem? r i) ∷ low_byte (get_elem? r i) ∷ [])
read_value order_swap (suc (suc n)) r i = little_endian (
    high_byte (get_elem? r i)
    ∷ low_byte (get_elem? r i)
    ∷ high_byte (get_elem? r (suc i))
    ∷ low_byte (get_elem? r (suc i))
    ∷ [])
read_value order_be zero r i = 0
read_value order_be (suc zero) r i =
    little_endian (low_byte (get_elem? r i) ∷ high_byte (get_elem? r i) ∷ [])
read_value order_be (suc (suc n)) r i = little_endian (
    low_byte (get_elem? r (suc i))
    ∷ high_byte (get_elem? r (suc i))
    ∷ low_byte (get_elem? r i)
    ∷ high_byte (get_elem? r i)
    ∷ [])
read_value order_le zero r i = 0
read_value order_le (suc zero) r i =
    little_endian (low_byte (get_elem? r i) ∷ high_byte (get_elem? r i) ∷ [])
read_value order_le (suc (suc n)) r i = little_endian (
    low_byte (get_elem? r i)
    ∷ high_byte (get_elem? r i)
    ∷ low_byte (get_elem? r (suc i))
    ∷ high_byte (get_elem? r (suc i))
    ∷ [])

take-set : (xs : List ℕ) (n i v : ℕ) → n ≤ i → take n (set xs i v) ≡ take n xs
take-set [] n i v h = refl
take-set (x ∷ xs) zero i v h = refl
take-set (x ∷ xs) (suc n) zero v h = absurd (omega arith)
take-set (x ∷ xs) (suc n) (suc i) v h = ap (◌∷◌ x) (take-set xs n i v (omega arith))

drop-set : (xs : List ℕ) (n i v : ℕ) → i < n → drop n (set xs i v) ≡ drop n xs
drop-set [] n i v h = refl
drop-set (x ∷ xs) zero i v h = absurd (omega arith)
drop-set (x ∷ xs) (suc n) zero v h = refl
drop-set (x ∷ xs) (suc n) (suc i) v h = drop-set xs n i v (omega arith)

-- A write of the words of a value: the new registers hold the value at i, and nothing else changed.
pub record Holds (bo : ByteOrder) (n v : ℕ) (old : List ℕ) (i : ℕ) (new : List ℕ) : Type 0 where
  pub size : length new ≡ length old
  pub read : read_value bo n new i ≡ v
  pub before : take i new ≡ take i old
  pub after : drop (i + n) new ≡ drop (i + n) old

module _ (r : List ℕ) (i : ℕ) where
  stored_word :
      (bo : ByteOrder) (x v : ℕ)
      → i < length r
      → (get_elem? (set r i x) i ≡ some x → read_value bo 1 (set r i x) i ≡ v)
      → Holds bo 1 v r i (set r i x)
  stored_word bo x v room read = record {
    size = length-set r i x;
    read = read (get_elem?-set_self r i x room);
    before = take-set r i i x (omega arith);
    after = drop-set r (i + 1) i x (omega arith);
  }

  store_register-Holds :
      (bo : ByteOrder) (v : ℕ)
      → v < 2 ^ 16
      → i < length r
      → (r' : List ℕ) × (store_register i (swapped_if bo v) r ≡ some r') × Holds bo 1 v r i r'
  unfolding store_register read_value
  store_register-Holds order_le v small room =
      (set r i v, ground arith, stored_word order_le v v room (λ e. rw e (omega arith)))
  store_register-Holds order_be v small room =
      (set r i v, ground arith, stored_word order_be v v room (λ e. rw e (omega arith)))
  store_register-Holds order_swap v small room = (
    set r i (swap_bytes v),
    ground arith,
    stored_word order_swap (swap_bytes v) v room (λ e. rw e (omega arith)),
  )

  stored_words :
      (bo : ByteOrder) (x y v : ℕ)
      → suc i < length r
      → (get_elem? (set (set r i x) (suc i) y) i ≡ some x
          → get_elem? (set (set r i x) (suc i) y) (suc i) ≡ some y
          → read_value bo 2 (set (set r i x) (suc i) y) i ≡ v)
      → (store_words r i (x ∷ y ∷ []) ≡ some (set (set r i x) (suc i) y))
        × Holds bo 2 v r i (set (set r i x) (suc i) y)
  unfolding store_words
  stored_words bo x y v room read =
      let first = get_elem?-set_self r i x (omega arith) in
      let len = length-set r i x in
      let second : get_elem? (set (set r i x) (suc i) y) (suc i) ≡ some y =
        get_elem?-set_self (set r i x) (suc i) y (omega (arith, len)) in
      let kept = get_elem?-set_ne (set r i x) (suc i) i y (λ e. omega arith) in
      (
        ground (arith, len),
        record {
          size = length-set (set r i x) (suc i) y ∙ len;
          read = read (kept ∙ first) second;
          before = take-set (set r i x) i (suc i) y (omega arith) ∙ take-set r i i x (omega arith);
          after =
              drop-set (set r i x) (i + 2) (suc i) y (omega arith)
              ∙ drop-set r (i + 2) i x (omega arith);
        },
      )

  write_registers-Holds :
      (bo : ByteOrder) (u : ℕ)
      → u < 2 ^ 32
      → suc i < length r
      → (r' : List ℕ) × (write_registers i (words_of u) bo r ≡ some r') × Holds bo 2 u r i r'
  unfolding write_registers read_value
  write_registers-Holds order_le u small room =
      let done =
        stored_words order_le (u % 2 ^ 16) (u / 2 ^ 16 % 2 ^ 16) u room
          (λ e g. rw (e, g) (omega arith)) in
      (_, done.0, done.1)
  write_registers-Holds order_be u small room =
      let done =
        stored_words order_be (u / 2 ^ 16 % 2 ^ 16) (u % 2 ^ 16) u room
          (λ e g. rw (e, g) (omega arith)) in
      (_, done.0, done.1)
  write_registers-Holds order_swap u small room =
      let done =
        stored_words order_swap (swap_bytes (u % 2 ^ 16)) (swap_bytes (u / 2 ^ 16 % 2 ^ 16)) u room
          (λ e g. rw (e, g) (omega arith)) in
      (_, done.0, done.1)

module _ (f : FloatUnit) (j : Cjson) where
  -- The bits that a data type takes of an item: of `valueint`, which cJSON limits to the range of an
  -- `int`, modulo 2^16 or 2^32, and of a float those of `valuedouble` as a float.
  unfoldable pub datatype_value : String → j.Item → ℕ
  datatype_value t val =
      if datatype_words t == 1
      then j.valueint val % 2 ^ 16
      else if str_eq t "uint32" || str_eq t "int32"
      then j.valueint val % 2 ^ 32
      else f.to_float (j.valuedouble val) % 2 ^ 32

  pub write_value-Holds :
      (t : String) (val : j.Item) (bo : ByteOrder) (r : List ℕ) (i : ℕ)
      → j.number val ≡ true
      → 0 < datatype_words t
      → i + datatype_words t ≤ length r
      → (r' : List ℕ) × (write_value f j t val bo i r ≡ some r')
        × Holds bo (datatype_words t) (datatype_value t val) r i r'
  unfolding write_value datatype_words datatype_value
  write_value-Holds t val bo r i n some_words room = elim (Bool-cases (str_eq t "uint16")) [
    | inl a ↦
        rw (a, n)
          (store_register-Holds r i bo (j.valueint val % 2 ^ 16) (omega arith)
            (let h = rw a at room in omega arith))
    | inr a ↦ elim (Bool-cases (str_eq t "int16")) [
      | inl b ↦
          rw (a, b, n)
            (store_register-Holds r i bo (j.valueint val % 2 ^ 16) (omega arith)
              (let h = rw (a, b) at room in omega arith))
      | inr b ↦ elim (Bool-cases (str_eq t "uint32" || str_eq t "int32")) [
        | inl c ↦
            rw (a, b, c, n)
              (write_registers-Holds r i bo (j.valueint val % 2 ^ 32) (omega arith)
                (let h = rw (a, b, c) at room in omega arith))
        | inr c ↦ elim (Bool-cases (str_eq t "float")) [
          | inl d ↦
              rw (a, b, c, d, n)
                (write_registers-Holds r i bo (f.to_float (j.valuedouble val) % 2 ^ 32)
                  (omega arith) (let h = rw (a, b, c, d) at room in omega arith))
          | inr d ↦ absurd (let h = rw (a, b, c, d) at some_words in omega arith)
        ]
      ]
    ]
  ]
