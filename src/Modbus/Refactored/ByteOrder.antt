-- ===== src/Modbus/Refactored/ByteOrder.antt =====
-- modbus-server/src/utils/byte_order.h and byte_order.c.
use iec104_server_and_modbus.Base.{
  ℕ, suc, ◌+◌, ◌*◌, ◌/◌, ◌%◌, ◌^◌, String, Option, none, some, List, [], ◌∷◌, length, set, ltb,
  if◌then◌else◌,
}
use iec104_server_and_modbus.Modbus.Text.{case_eq}

pub data Order : Type 0 where
  le be swap : Order

-- s != NULL
unfoldable pub parse_byte_order : Option String → Order
parse_byte_order none = le
parse_byte_order (some s) =
    if case_eq s "LE"
    then le
    else if case_eq s "BE"
    then be
    else if case_eq s "SWAP"
    then swap
    else le

-- The first loop.
unfoldable pub swap_each : List ℕ → List ℕ
swap_each [] = []
swap_each (w ∷ words) = (w / 2 ^ 8 + w * 2 ^ 8 % 2 ^ 16) ∷ swap_each words

unfoldable pub swap_pair : List ℕ → List ℕ
swap_pair [] = []
swap_pair (w ∷ []) = w ∷ []
swap_pair (w ∷ v ∷ []) = v ∷ w ∷ []
swap_pair (w ∷ v ∷ u ∷ words) = w ∷ v ∷ u ∷ words

-- The last loop; `none` is a write outside the array.
unfoldable pub copy_words : List ℕ → ℕ → List ℕ → Option (List ℕ)
copy_words registers i [] = some registers
copy_words registers i (w ∷ words) =
    let rest = copy_words (set registers i w) (suc i) words in
    if ltb i (length registers) then rest else none

unfoldable pub write_registers : ℕ → List ℕ → Order → List ℕ → Option (List ℕ)
unfolding swap_each swap_pair copy_words
write_registers start_idx words le registers = copy_words registers start_idx words
write_registers start_idx words be registers = copy_words registers start_idx (swap_pair words)
write_registers start_idx words swap registers = copy_words registers start_idx (swap_each words)
