-- ===== src/Modbus/Clamped.antt =====
-- What a client reads of a large number, after an update by `process_json` of
-- modbus-server/json-modbus-server.c.
use iec104_server_and_modbus.Base.{
  ℕ, ◌+◌, ◌-◌, ◌%◌, ◌^◌, ◌≤◌, ◌<◌, ◌≡◌, ◌↔◌, ◌⊎◌, inl, inr, refl, sym, ◌∙◌, String, true, Option,
  some, List, [], ◌∷◌, arith, ltb, if◌then◌else◌, Bool-cases,
}
use iec104_server_and_modbus.Cfloat.{FloatUnit}
use iec104_server_and_modbus.Cjson.{Cjson}
use iec104_server_and_modbus.Modbus.Registers.{Mapping, parse_byte_order}
use iec104_server_and_modbus.Modbus.Settings.{Settings}
use iec104_server_and_modbus.Modbus.Command.{State, updated, byte_order_text, update_address}
use iec104_server_and_modbus.Modbus.Values.{datatype_words, datatype_value, read_value}
use iec104_server_and_modbus.Modbus.Update.{Serves, InRange, update_address_lem}

-- The number as cJSON keeps it in `valueint`: limited to INT_MAX.
abbrev pub clamped : ℕ → ℕ
clamped n = if ltb n (2 ^ 31) then n else 2 ^ 31 - 1

clamped_lem : (n : ℕ) → (clamped n % 2 ^ 32 ≡ n) ↔ (n < 2 ^ 31)
clamped_lem n = elim (Bool-cases (ltb n (2 ^ 31))) [
  | inl small ↦ (λ e. ground arith, λ l. rw small (omega arith))
  | inr large ↦ (λ e. let h : 2 ^ 31 - 1 ≡ n = rw large at e in ground arith, λ l. ground arith)
]

module _ (f : FloatUnit) (j : Cjson) where
  -- An item of the whole number n, which is not negative.
  abbrev pub IsWhole : j.Item → ℕ → Type 0
  IsWhole val n = (j.number val ≡ true) × (j.valueint val ≡ clamped n)

  two_words : (t : String) → (t ≡ "uint32") ⊎ (t ≡ "int32") → datatype_words t ≡ 2
  unfolding datatype_words
  two_words t (inl e) = rw e refl
  two_words t (inr e) = rw e refl

  whole_value :
      (t : String) (val : j.Item) (n : ℕ)
      → (t ≡ "uint32") ⊎ (t ≡ "int32")
      → IsWhole val n
      → datatype_value f j t val ≡ clamped n % 2 ^ 32
  unfolding datatype_value datatype_words
  whole_value t val n (inl e) (_, kept) = rw (e, kept) refl
  whole_value t val n (inr e) (_, kept) = rw (e, kept) refl

  -- An update of two registers in the range of the settings with a whole number from 0 on, as uint32 or int32:
  -- it is confirmed, and what a client reads then in the byte order of the update is the number
  -- exactly if it is below 2^31. cJSON keeps in `valueint` what is limited to INT_MAX, and the
  -- mapping was made for the settings.
  pub update_address-clamped :
      (c : Settings) (t : String) (order_it : Option j.Item) (val : j.Item) (a n : ℕ) (s : State)
      (m : Mapping)
      → s.mb_mapping ≡ some m
      → Serves c m
      → InRange c.holding_regs a
      → (t ≡ "uint32") ⊎ (t ≡ "int32")
      → IsWhole val n
      → a + 2 ≤ c.holding_regs.start + c.holding_regs.nb
      → (registers : List ℕ) × (update_address f j c t order_it val a s
          ≡ some (
            record s { mb_mapping = some (record m { tab_registers = registers }) },
            updated a t ∷ [],
          ))
        × ((read_value
                (parse_byte_order (byte_order_text f j order_it))
                2
                registers
                (a - c.holding_regs.start)
              ≡ n)
            ↔ (n < 2 ^ 31))
  update_address-clamped c t order_it val a n s m e v h kind whole room =
      let two = two_words t kind in
      let (registers, done, held) =
        update_address_lem f j c t order_it val a s m e v h whole.0 (omega (arith, two))
          (omega (arith, two)) in
      let bo = parse_byte_order (byte_order_text f j order_it) in
      let i = a - c.holding_regs.start in
      let reads : read_value bo 2 registers i ≡ clamped n % 2 ^ 32 =
        sym (λ k. read_value bo (two k) registers i) ∙ held.read ∙ whole_value t val n kind whole in
      (
        registers,
        done,
        (λ same. (clamped_lem n).0 (sym reads ∙ same), λ small. reads ∙ (clamped_lem n).1 small),
      )
