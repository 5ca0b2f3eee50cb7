-- ===== src/Modbus/Registers.antt =====
-- `ByteOrder`, `parse_byte_order` and `write_registers` of modbus-server/json-modbus-server.c, and
-- what the server uses of `modbus_mapping_t`.
use iec104_server_and_modbus.Base.{
  ℕ, suc, ◌+◌, ◌*◌, ◌/◌, ◌%◌, ◌^◌, String, Option, none, some, List, [], ◌∷◌, map, length, set, ltb,
  if◌then◌else◌,
}
use iec104_server_and_modbus.Modbus.Text.{case_eq}

pub data ByteOrder : Type 0 where
  order_le order_be order_swap : ByteOrder

-- `modbus_mapping_t` of libmodbus: the holding registers, and their number as an `int`.
pub record Mapping : Type 0 where
  pub tab_registers : List ℕ
  pub nb_registers : ℕ

unfoldable pub parse_byte_order : Option String → ByteOrder
parse_byte_order none = order_le
parse_byte_order (some s) =
    if case_eq s "LE"
    then order_le
    else if case_eq s "BE"
    then order_be
    else if case_eq s "SWAP"
    then order_swap
    else order_le

-- (w >> 8) | (w << 8) as a `uint16_t`: the two parts have no bit in common.
abbrev pub swap_bytes : ℕ → ℕ
swap_bytes w = w / 2 ^ 8 + w * 2 ^ 8 % 2 ^ 16

-- The words after the swaps: of bytes, and of the words of a pair.
unfoldable pub ordered : ByteOrder → List ℕ → List ℕ
ordered order_le words = words
ordered order_be [] = []
ordered order_be (w ∷ []) = w ∷ []
ordered order_be (w ∷ v ∷ []) = v ∷ w ∷ []
ordered order_be (w ∷ v ∷ u ∷ words) = w ∷ v ∷ u ∷ words
ordered order_swap words = map swap_bytes words

-- The last loop; `none` is a write outside the array, whose effect C does not define.
unfoldable pub store_words : List ℕ → ℕ → List ℕ → Option (List ℕ)
store_words registers i [] = some registers
store_words registers i (w ∷ words) =
    let rest = store_words (set registers i w) (suc i) words in
    if ltb i (length registers) then rest else none

unfoldable pub write_registers : ℕ → List ℕ → ByteOrder → List ℕ → Option (List ℕ)
unfolding ordered store_words
write_registers start_idx words order registers =
    store_words registers start_idx (ordered order words)
