-- ===== src/Modbus/Command.antt =====
-- `process_json` of modbus-server/json-modbus-server.c.
use iec104_server_and_modbus.Base.{
  ℕ, ◌/◌, ◌%◌, ◌^◌, String, Bool, false, not, ◌&&◌, ◌||◌, Option, none, some, List, [], ◌∷◌, length,
  set, ltb, if◌then◌else◌, str_eq, add_int, sub_int, int_lt,
}
use iec104_server_and_modbus.Cfloat.{FloatUnit}
use iec104_server_and_modbus.Cjson.{Cjson, holds}
use iec104_server_and_modbus.Modbus.Text.{is_text}
use iec104_server_and_modbus.Modbus.Registers.{
  ByteOrder, order_le, order_be, order_swap, Mapping, parse_byte_order, swap_bytes, write_registers,
}
use iec104_server_and_modbus.Modbus.Settings.{Settings}

pub data ServerState : Type 0 where
  state_stopped state_running : ServerState

-- The globals that a line of input reads and writes. `mb_mapping` may be NULL.
pub record State : Type 0 where
  pub server_state : ServerState
  pub running : Bool
  pub mb_mapping : Option Mapping

-- A line on the standard output.
pub data Output : Type 0 where
  stopping already_running starting : Output
  status : ServerState → Output
  address_out_of_range : ℕ → Output
  index_out_of_bounds : Output
  updated : ℕ → String → Output

-- What a call does; `none` is a fault: a read through NULL, or a write outside an array.
abbrev pub Effect : Type 0
Effect = Option (State × List Output)

abbrev pub unchanged : State → Effect
unchanged s = some (s, [])

-- One register; a write outside the array is a fault.
unfoldable pub store_register : ℕ → ℕ → List ℕ → Option (List ℕ)
store_register idx v registers =
    if ltb idx (length registers) then some (set registers idx v) else none

abbrev pub swapped_if : ByteOrder → ℕ → ℕ
swapped_if order_le v = v
swapped_if order_be v = v
swapped_if order_swap v = swap_bytes v

-- The low and the high word of a `uint32_t`.
abbrev pub words_of : ℕ → List ℕ
words_of u = (u % 2 ^ 16) ∷ (u / 2 ^ 16 % 2 ^ 16) ∷ []

-- The registers are written and the update is confirmed.
abbrev pub confirmed : State → Mapping → ℕ → String → Option (List ℕ) → Effect
confirmed s m addr_val datatype none = none
confirmed s m addr_val datatype (some registers) = some (
  record s { mb_mapping = some (record m { tab_registers = registers }) },
  updated addr_val datatype ∷ [],
)

module _ (f : FloatUnit) (j : Cjson) where
  -- The cases of `datatype`, on the registers.
  unfoldable pub write_value : String → j.Item → ByteOrder → ℕ → List ℕ → Option (List ℕ)
  unfolding store_register write_registers
  write_value datatype val bo idx registers =
      if str_eq datatype "uint16" && j.number val
      then store_register idx (swapped_if bo (j.valueint val % 2 ^ 16)) registers
      else if str_eq datatype "int16" && j.number val
      then store_register idx (swapped_if bo (j.valueint val % 2 ^ 16)) registers
      else if (str_eq datatype "uint32" || str_eq datatype "int32") && j.number val
      then write_registers idx (words_of (j.valueint val % 2 ^ 32)) bo registers
      else if str_eq datatype "float" && j.number val
      then write_registers idx (words_of (f.to_float (j.valuedouble val) % 2 ^ 32)) bo registers
      else some registers

  unfoldable pub byte_order_text : Option j.Item → Option String
  byte_order_text none = some "LE"
  byte_order_text (some item) = j.valuestring item

  -- The checks against the mapping, and the write.
  unfoldable pub write_mapping :
      String → Option j.Item → j.Item → ℕ → ℕ → State → Option Mapping → Effect
  unfolding write_value byte_order_text
  write_mapping datatype order_it val addr_val idx s none = none
  write_mapping datatype order_it val addr_val idx s (some m) =
      if int_lt idx 0 || not (int_lt idx m.nb_registers)
      then some (s, index_out_of_bounds ∷ [])
      else confirmed s m addr_val datatype (
          write_value datatype val (parse_byte_order (byte_order_text order_it)) idx
            m.tab_registers)

  -- The range of addresses, and `idx`. The type has been tested to be a string.
  unfoldable pub update_address : Settings → String → Option j.Item → j.Item → ℕ → State → Effect
  unfolding write_mapping
  update_address c datatype order_it val addr_val s =
      if int_lt addr_val c.holding_regs.start
        || not (int_lt addr_val (add_int c.holding_regs.start c.holding_regs.nb))
      then some (s, address_out_of_range addr_val ∷ [])
      else write_mapping datatype order_it val addr_val (sub_int addr_val c.holding_regs.start) s
          s.mb_mapping

  -- The members `type`, `address`, `datatype` and `value` of an update. A string has a text.
  unfoldable pub update_members :
      Settings
      → Option j.Item
      → Option j.Item
      → Option j.Item
      → Option j.Item
      → Option j.Item
      → State
      → Effect
  unfolding update_address
  update_members c type (some addr) (some datatype) order_it (some val) s =
      if holds j.string type && j.number addr && j.string datatype
      then elim (j.valuestring datatype) [
        | none ↦ none
        | some t ↦ update_address c t order_it val (j.valueint addr) s
      ]
      else unchanged s
  update_members c type none datatype order_it val s = unchanged s
  update_members c type (some addr) none order_it val s = unchanged s
  update_members c type (some addr) (some datatype) order_it none s = unchanged s

  unfoldable pub data_update : Settings → j.Item → State → Effect
  unfolding update_members
  data_update c root s =
      update_members c (j.get_object_item_case_sensitive root "type")
        (j.get_object_item_case_sensitive root "address")
        (j.get_object_item_case_sensitive root "datatype")
        (j.get_object_item_case_sensitive root "byte_order")
        (j.get_object_item_case_sensitive root "value") s

  unfoldable pub start_command : State → Effect
  start_command s = elim s.server_state [
    | state_running ↦ some (s, already_running ∷ [])
    | state_stopped ↦ some (record s { server_state = state_running }, starting ∷ [])
  ]

  -- The text of the member `cmd`, if it is a string.
  unfoldable pub command_text : Option j.Item → Option String
  command_text none = none
  command_text (some cmd) = if j.string cmd then j.valuestring cmd else none

  unfoldable pub process_root : Settings → j.Item → Option String → State → Effect
  unfolding data_update start_command
  process_root c root cmd s =
      if is_text cmd "stop"
      then some (record s { server_state = state_stopped; running = false }, stopping ∷ [])
      else if is_text cmd "start"
      then start_command s
      else if is_text cmd "status"
      then some (s, status s.server_state ∷ [])
      else data_update c root s

  unfoldable pub process_json : Settings → String → State → Effect
  unfolding process_root command_text
  process_json c json_str s = elim (j.parse json_str) [
    | none ↦ unchanged s
    | some root ↦ process_root c root (command_text (j.get_object_item_case_sensitive root "cmd")) s
  ]
