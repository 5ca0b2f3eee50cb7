-- ===== src/Modbus/Refactored/JsonCommand.antt =====
-- modbus-server/src/json/json_command.c: `json_command_process` and `json_command_update_data`. Of
-- the backend they use the mapping.
use iec104_server_and_modbus.Base.{
  ℕ, ◌+◌, ◌*◌, ◌/◌, ◌%◌, ◌^◌, String, false, not, ◌&&◌, ◌||◌, Option, none, some, List, [], ◌∷◌,
  length, set, ltb, if◌then◌else◌, str_eq, int_lt,
}
use iec104_server_and_modbus.Cfloat.{FloatUnit}
use iec104_server_and_modbus.Cjson.{Cjson, holds}
use iec104_server_and_modbus.Modbus.Text.{is_text}
use iec104_server_and_modbus.Modbus.Registers.{Mapping}
use iec104_server_and_modbus.Modbus.Command.{ServerState, state_stopped, state_running, State}
use iec104_server_and_modbus.Modbus.Refactored.ByteOrder.{
  Order, le, be, swap, parse_byte_order, write_registers,
}

pub data Output : Type 0 where
  stopping already_running starting : Output
  status : ServerState → Output
  index_out_of_bounds : ℕ → Output
  updated : ℕ → String → Output

-- `none` is a fault: a write outside an array.
abbrev pub Effect : Type 0
Effect = Option (State × List Output)

unfoldable pub swap_word : Order → ℕ → ℕ
swap_word le v = v
swap_word be v = v
swap_word swap v = v / 2 ^ 8 + v * 2 ^ 8 % 2 ^ 16

-- The registers are assigned and the update is confirmed.
abbrev pub acknowledged : State → Mapping → ℕ → String → Option (List ℕ) → Effect
acknowledged s m addr_val datatype none = none
acknowledged s m addr_val datatype (some registers) = some (
  record s { mb_mapping = some (record m { tab_registers = registers }) },
  updated addr_val datatype ∷ [],
)

module _ (f : FloatUnit) (j : Cjson) where
  -- The registers after an assignment of a value of 16 bits.
  unfoldable pub assign_word : ℕ → Order → ℕ → List ℕ → Option (List ℕ)
  unfolding swap_word
  assign_word v bo idx registers =
      if ltb idx (length registers) then some (set registers idx (swap_word bo v)) else none

  -- A value of 32 bits, by its words.
  unfoldable pub assign_words : ℕ → Order → ℕ → List ℕ → Option (List ℕ)
  unfolding write_registers
  assign_words u bo idx registers =
      write_registers idx ((u % 2 ^ 16) ∷ (u / 2 ^ 16 % 2 ^ 16) ∷ []) bo registers

  unfoldable pub assign_value : String → j.Item → Order → ℕ → List ℕ → Option (List ℕ)
  unfolding assign_word assign_words
  assign_value datatype val bo idx registers =
      if str_eq datatype "uint16" && j.number val
      then assign_word (j.valueint val % 2 ^ 16) bo idx registers
      else if str_eq datatype "int16" && j.number val
      then assign_word (j.valueint val % 2 ^ 16) bo idx registers
      else if (str_eq datatype "uint32" || str_eq datatype "int32") && j.number val
      then assign_words (j.valueint val % 2 ^ 32) bo idx registers
      else if str_eq datatype "float" && j.number val
      then assign_words (f.to_float (j.valuedouble val) % 2 ^ 32) bo idx registers
      else some registers

  unfoldable pub order_text : Option j.Item → Option String
  order_text none = some "LE"
  order_text (some item) = j.valuestring item

  unfoldable pub update_mapping :
      Option String → Option j.Item → j.Item → ℕ → State → Option Mapping → Effect
  unfolding assign_value order_text
  update_mapping none order_it val addr_val s m = none
  update_mapping (some datatype) order_it val addr_val s none = some (s, [])
  update_mapping (some datatype) order_it val addr_val s (some m) =
      if int_lt addr_val 0 || not (int_lt addr_val m.nb_registers)
      then some (s, index_out_of_bounds addr_val ∷ [])
      else acknowledged s m addr_val datatype (
          assign_value datatype val (parse_byte_order (order_text order_it)) addr_val
            m.tab_registers)

  unfoldable pub update_fields :
      Option j.Item → Option j.Item → Option j.Item → Option j.Item → Option j.Item → State → Effect
  unfolding update_mapping
  update_fields type none datatype order_it val s = some (s, [])
  update_fields type (some addr) none order_it val s = some (s, [])
  update_fields type (some addr) (some datatype) order_it none s = some (s, [])
  update_fields type (some addr) (some datatype) order_it (some val) s =
      if holds j.string type && j.number addr && j.string datatype
      then update_mapping (j.valuestring datatype) order_it val (j.valueint addr) s s.mb_mapping
      else some (s, [])

  unfoldable pub json_command_update_data : String → State → Effect
  unfolding update_fields
  json_command_update_data json_str s = elim (j.parse json_str) [
    | none ↦ some (s, [])
    | some root ↦
        update_fields (j.get_object_item_case_sensitive root "type")
          (j.get_object_item_case_sensitive root "address")
          (j.get_object_item_case_sensitive root "datatype")
          (j.get_object_item_case_sensitive root "byte_order")
          (j.get_object_item_case_sensitive root "value") s
  ]

  unfoldable pub start : State → ServerState → State × List Output
  start s state_running = (s, already_running ∷ [])
  start s state_stopped = (record s { server_state = state_running }, starting ∷ [])

  -- The command, and otherwise the update, for which the line is parsed again.
  unfoldable pub process_command : Option String → String → State → Effect
  unfolding json_command_update_data start
  process_command cmd json_str s =
      if is_text cmd "stop"
      then some (record s { server_state = state_stopped; running = false }, stopping ∷ [])
      else if is_text cmd "start"
      then some (start s s.server_state)
      else if is_text cmd "status"
      then some (s, status s.server_state ∷ [])
      else json_command_update_data json_str s

  unfoldable pub command_of : Option j.Item → Option String
  command_of none = none
  command_of (some cmd) = if j.string cmd then j.valuestring cmd else none

  unfoldable pub json_command_process : String → State → Effect
  unfolding process_command command_of
  json_command_process json_str s = elim (j.parse json_str) [
    | none ↦ some (s, [])
    | some root ↦
        process_command (command_of (j.get_object_item_case_sensitive root "cmd")) json_str s
  ]
