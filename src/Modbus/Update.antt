-- ===== src/Modbus/Update.antt =====
-- An update of a holding register: what it writes, and when it faults.
use iec104_server_and_modbus.Base.{
  ℕ, ◌+◌, ◌-◌, ◌%◌, ◌^◌, ◌≤◌, ◌<◌, ◌≡◌, ◌↔◌, ◌⊎◌, inl, inr, refl, sym, ◌∙◌, length-set, String,
  true, false, not, ◌||◌, Option, none, some, List, [], ◌∷◌, length, arith, Bool-cases,
  Option-cases, int_lt, add_int, sub_int, str_eq, dec_lt,
}
use iec104_server_and_modbus.Cfloat.{FloatUnit}
use iec104_server_and_modbus.Cjson.{Cjson}
use iec104_server_and_modbus.Modbus.Registers.{
  ByteOrder, order_le, order_be, order_swap, Mapping, parse_byte_order, store_words,
  write_registers,
}
use iec104_server_and_modbus.Modbus.Settings.{Settings, Range}
use iec104_server_and_modbus.Modbus.Command.{
  State, updated, byte_order_text, words_of, confirmed, write_value, write_mapping, update_address,
}
use iec104_server_and_modbus.Modbus.Values.{
  datatype_words, datatype_value, Holds, write_value-Holds,
}

-- The addresses of a range are those of an `int`.
abbrev pub IsRange : Range → Type 0
IsRange r = r.start + r.nb < 2 ^ 31

abbrev pub InRange : Range → ℕ → Type 0
InRange r a = (r.start ≤ a) × (a < r.start + r.nb)

-- The mapping was made for these settings, and its array has as many registers as it says.
pub record Serves (c : Settings) (m : Mapping) : Type 0 where
  pub range : IsRange c.holding_regs
  pub count : m.nb_registers ≡ c.holding_regs.nb
  pub size : length m.tab_registers ≡ c.holding_regs.nb

-- A mapping that is there was made for the settings.
abbrev pub ServesAny : Settings → Option Mapping → Type 0
ServesAny c none = Unit {0}
ServesAny c (some m) = Serves c m

InRange-accepted :
    (r : Range) (a : ℕ)
    → IsRange r
    → InRange r a
    → (int_lt a r.start || not (int_lt a (add_int r.start r.nb)) ≡ false)
      × (sub_int a r.start ≡ a - r.start)
      × (int_lt (a - r.start) 0 || not (int_lt (a - r.start) r.nb) ≡ false)
InRange-accepted r a i h = (ground arith, omega arith, ground arith)

module _ (r : List ℕ) (i : ℕ) (last : i + 1 ≡ length r) where
  store_words_past : (x y : ℕ) → store_words r i (x ∷ y ∷ []) ≡ none
  unfolding store_words
  store_words_past x y = ground (arith, length-set r i x)

  write_registers_past : (bo : ByteOrder) (u : ℕ) → write_registers i (words_of u) bo r ≡ none
  unfolding write_registers
  write_registers_past order_le u = store_words_past _ _
  write_registers_past order_be u = store_words_past _ _
  write_registers_past order_swap u = store_words_past _ _

confirmed-none :
    (s : State) (m : Mapping) (a : ℕ) (t : String) (r : Option (List ℕ))
    → confirmed s m a t r ≡ none
    → r ≡ none
confirmed-none s m a t none h = refl
confirmed-none s m a t (some r) h = cc

module _ (f : FloatUnit) (j : Cjson) where
  -- The update of an address that the settings have.
  update-InRange :
      (c : Settings) (t : String) (order_it : Option j.Item) (val : j.Item) (a : ℕ) (s : State)
      (m : Mapping)
      → s.mb_mapping ≡ some m
      → Serves c m
      → InRange c.holding_regs a
      → update_address f j c t order_it val a s
        ≡ confirmed s m a t (
            write_value f j t val
              (parse_byte_order (byte_order_text f j order_it))
              (a - c.holding_regs.start)
              m.tab_registers)
  unfolding update_address write_mapping
  update-InRange c t order_it val a s m e v h =
      let (outer, idx, inner) = InRange-accepted c.holding_regs a v.range h in
      rw (e, outer, idx, v.count, inner) refl

  -- An update of an address in the range of the settings, whose registers the range has as well, with
  -- a number and a known data type: it is confirmed; the registers from the address on, read in the
  -- byte order of the update, are `valueint` modulo 2^16 or 2^32, or for a float the bits of
  -- `valuedouble` as a float; and no other register and nothing else changes. (cJSON limits `valueint`
  -- to the range of an int.) The mapping was made for the settings.
  pub update_address_lem :
      (c : Settings) (t : String) (order_it : Option j.Item) (val : j.Item) (a : ℕ) (s : State)
      (m : Mapping)
      → s.mb_mapping ≡ some m
      → Serves c m
      → InRange c.holding_regs a
      → j.number val ≡ true
      → 0 < datatype_words t
      → a + datatype_words t ≤ c.holding_regs.start + c.holding_regs.nb
      → (registers : List ℕ) × (update_address f j c t order_it val a s
          ≡ some (
            record s { mb_mapping = some (record m { tab_registers = registers }) },
            updated a t ∷ [],
          ))
        × Holds
            (parse_byte_order (byte_order_text f j order_it))
            (datatype_words t)
            (datatype_value f j t val)
            m.tab_registers
            (a - c.holding_regs.start)
            registers
  update_address_lem c t order_it val a s m e v h n some_words room =
      let bo = parse_byte_order (byte_order_text f j order_it) in
      let (registers, written, held) =
        write_value-Holds f j t val bo m.tab_registers (a - c.holding_regs.start) n some_words
          (omega (arith, v.size)) in
      (registers, update-InRange c t order_it val a s m e v h ∙ rw written refl, held)

  write_value_last :
      (t : String) (val : j.Item) (bo : ByteOrder) (r : List ℕ) (i : ℕ)
      → j.number val ≡ true
      → datatype_words t ≡ 2
      → i + 1 ≡ length r
      → write_value f j t val bo i r ≡ none
  unfolding write_value datatype_words
  write_value_last t val bo r i n two last =
      elim (Bool-cases (str_eq t "uint16" || str_eq t "int16")) [
        | inl a ↦ absurd (let h = rw a at two in omega arith)
        | inr a ↦ elim (Bool-cases (str_eq t "uint32" || str_eq t "int32")) [
          | inl c ↦ ground (arith, write_registers_past r i last bo (j.valueint val % 2 ^ 32))
          | inr c ↦
              ground
                (arith, write_registers_past r i last bo (f.to_float (j.valuedouble val) % 2 ^ 32))
        ]
      ]

  write_value_other :
      (t : String) (val : j.Item) (bo : ByteOrder) (r : List ℕ) (i : ℕ)
      → (j.number val ≡ false) ⊎ (datatype_words t ≡ 0)
      → write_value f j t val bo i r ≡ some r
  unfolding write_value datatype_words
  write_value_other t val bo r i (inl h) = ground arith
  write_value_other t val bo r i (inr h) = ground arith

  datatype_words-le : (t : String) → datatype_words t ≤ 2
  unfolding datatype_words
  datatype_words-le t = ground arith

  -- A write of `write_value` faults exactly for two words from the last register on.
  write_value-none :
      (t : String) (val : j.Item) (bo : ByteOrder) (r : List ℕ) (i : ℕ)
      → i < length r
      → (write_value f j t val bo i r ≡ none)
        ↔ ((j.number val ≡ true) × (datatype_words t ≡ 2) × (i + 1 ≡ length r))
  write_value-none t val bo r i room = (forth, λ h. write_value_last t val bo r i h.0 h.1 h.2)
    where
      written :
          write_value f j t val bo i r ≡ none
          → (x : List ℕ) → write_value f j t val bo i r ≡ some x
          → ⊥
      written e x g = cc

      forth :
          write_value f j t val bo i r ≡ none
          → (j.number val ≡ true) × (datatype_words t ≡ 2) × (i + 1 ≡ length r)
      forth e = elim (Bool-cases (j.number val)) [
        | inr n ↦ absurd (written e r (write_value_other t val bo r i (inl n)))
        | inl n ↦ elim (dec_lt 0 (datatype_words t)) [
          | no z ↦ absurd (written e r (write_value_other t val bo r i (inr (omega arith))))
          | yes p ↦ elim (dec_lt (length r) (i + datatype_words t)) [
            | no fits ↦
                let (x, g, _) = write_value-Holds f j t val bo r i n p (omega arith) in
                absurd (written e x g)
            | yes over ↦ (n, omega (arith, datatype_words-le t), omega (arith, datatype_words-le t))
          ]
        ]
      ]

  update_unmapped :
      (c : Settings) (t : String) (order_it : Option j.Item) (val : j.Item) (a : ℕ) (s : State)
      → s.mb_mapping ≡ none
      → IsRange c.holding_regs
      → InRange c.holding_regs a
      → update_address f j c t order_it val a s ≡ none
  unfolding update_address write_mapping
  update_unmapped c t order_it val a s e v h =
      let (outer, idx, inner) = InRange-accepted c.holding_regs a v h in rw (e, outer) refl

  update_mapped :
      (c : Settings) (t : String) (order_it : Option j.Item) (val : j.Item) (a : ℕ) (s : State)
      (m : Mapping)
      → s.mb_mapping ≡ some m
      → Serves c m
      → InRange c.holding_regs a
      → (update_address f j c t order_it val a s ≡ none) ↔ (
          (j.number val ≡ true)
          × (datatype_words t ≡ 2)
          × (a + 1 ≡ c.holding_regs.start + c.holding_regs.nb))
  update_mapped c t order_it val a s m e v h =
      let i = a - c.holding_regs.start in
      let bo = parse_byte_order (byte_order_text f j order_it) in
      let made = update-InRange c t order_it val a s m e v h in
      let inner = write_value-none t val bo m.tab_registers i (omega (arith, v.size)) in
      (
        λ g.
            let w : write_value f j t val bo i m.tab_registers ≡ none =
              confirmed-none s m a t _ (sym made ∙ g) in
            let (n, two, last) = inner.0 w in (n, two, omega (arith, v.size)),
        λ (n, two, last). made ∙ rw (inner.1 (n, two, omega (arith, v.size))) refl,
      )

  -- When an update of an address in the range of the settings faults: exactly when there is no
  -- mapping yet, which is a read through NULL, or when a number of two words goes to the last
  -- register, whose second word is written past the array. A mapping that is there was made for the
  -- settings.
  pub update_address-none :
      (c : Settings) (t : String) (order_it : Option j.Item) (val : j.Item) (a : ℕ) (s : State)
      → IsRange c.holding_regs
      → ServesAny c s.mb_mapping
      → InRange c.holding_regs a
      → (update_address f j c t order_it val a s ≡ none) ↔ (
          (s.mb_mapping ≡ none)
          ⊎ ((j.number val ≡ true)
              × (datatype_words t ≡ 2)
              × (a + 1 ≡ c.holding_regs.start + c.holding_regs.nb)))
  update_address-none c t order_it val a s v w h = elim (Option-cases s.mb_mapping) [
    | inl e ↦ (λ g. inl e, λ g. update_unmapped c t order_it val a s e v h)
    | inr (m, e) ↦
        let made = update_mapped c t order_it val a s m e (rw e at w) h in
        (λ g. inr (made.0 g), λ g. elim g [ inl n ↦ absurd (mapped m e n) | inr l ↦ made.1 l ])
  ]
    where
      mapped : (m : Mapping) → s.mb_mapping ≡ some m → s.mb_mapping ≡ none → ⊥
      mapped m e n = cc
