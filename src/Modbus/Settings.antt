-- ===== src/Modbus/Settings.antt =====
-- The settings of the Modbus server: the globals of modbus-server/json-modbus-server.c and its
-- `load_config`. A number is the pattern of an `int`, a character its code.
use iec104_server_and_modbus.Base.{
  ℕ, String, slice, Bool, true, false, ◌&&◌, Option, none, some, List, [], ◌∷◌, if◌then◌else◌,
}
use iec104_server_and_modbus.Cjson.{Cjson}
use iec104_server_and_modbus.Modbus.Text.{strstr, first_char}

-- A block of registers or bits: its first address and its length.
pub record Range : Type 0 where
  pub start : ℕ
  pub nb : ℕ

pub record Settings : Type 0 where
  pub enable_tcp : Bool
  pub enable_rtu : Bool
  pub coils : Range
  pub input_bits : Range
  pub holding_regs : Range
  pub input_regs : Range
  pub unit_id : ℕ
  pub tcp_port : ℕ
  pub serial_device : String
  pub baudrate : ℕ
  pub parity : ℕ
  pub data_bits : ℕ
  pub stop_bits : ℕ

abbrev pub no_range : Range
no_range = record { start = 0; nb = 0 }

abbrev pub initial_settings : Settings
initial_settings = record {
  enable_tcp = false;
  enable_rtu = false;
  coils = no_range;
  input_bits = no_range;
  holding_regs = no_range;
  input_regs = no_range;
  unit_id = 1;
  tcp_port = 1502;
  serial_device = "/dev/ttyUSB0";
  baudrate = 9600;
  parity = b'N';
  data_bits = 8;
  stop_bits = 1;
}

module _ (j : Cjson) where
  -- The item if it is a number, or the old value.
  unfoldable pub int_or : Option j.Item → ℕ → ℕ
  int_or none old = old
  int_or (some item) old = if j.number item then j.valueint item else old

  -- The text of an item that is a string.
  unfoldable pub text_of : Option j.Item → Option String
  text_of none = none
  text_of (some item) = if j.string item then j.valuestring item else none

  -- `strncpy` into the 16 bytes of `mode`, whose last byte stays 0.
  unfoldable pub load_mode : Option j.Item → Settings → Settings
  unfolding text_of
  load_mode item s = elim (text_of item) [
    | none ↦ s
    | some t ↦
        let mode = slice t 0 15 in
        record s { enable_tcp = strstr mode "tcp"; enable_rtu = strstr mode "rtu" }
  ]

  -- `strncpy` into the 64 bytes of `serial_device`.
  unfoldable pub device_or : Option String → String → String
  device_or none old = old
  device_or (some t) old = slice t 0 63

  unfoldable pub char_or : Option String → ℕ → ℕ
  char_or none old = old
  char_or (some t) old = first_char t

  unfoldable pub load_serial : Option j.Item → Settings → Settings
  unfolding int_or text_of device_or char_or
  load_serial none s = s
  load_serial (some serial) s =
      if j.object serial
      then record s {
        serial_device = device_or (text_of (j.get_object_item serial "device")) s.serial_device;
        baudrate = int_or (j.get_object_item serial "baudrate") s.baudrate;
        parity = char_or (text_of (j.get_object_item serial "parity")) s.parity;
        data_bits = int_or (j.get_object_item serial "data_bits") s.data_bits;
        stop_bits = int_or (j.get_object_item serial "stop_bits") s.stop_bits;
      }
      else s

  -- Both items, if they are numbers.
  unfoldable pub numbers_or : Option j.Item → Option j.Item → Range → Range
  numbers_or none c old = old
  numbers_or (some s) none old = old
  numbers_or (some s) (some c) old =
      if j.number s && j.number c then record { start = j.valueint s; nb = j.valueint c } else old

  -- The first two entries of an array, whatever they are.
  unfoldable pub entries_or : List j.Item → Range → Range
  entries_or [] old = old
  entries_or (s ∷ []) old = old
  entries_or (s ∷ c ∷ items) old = record { start = j.valueint s; nb = j.valueint c }

  unfoldable pub load_range : Option j.Item → Range → Range
  unfolding numbers_or entries_or
  load_range none old = old
  load_range (some item) old =
      if j.object item
      then numbers_or (j.get_object_item item "start_address") (j.get_object_item item "count") old
      else if j.array item
      then entries_or (j.children item) old
      else old

  -- What is read after the mode.
  unfoldable pub load_settings : j.Item → Settings → Settings
  unfolding load_serial load_range int_or
  load_settings root s =
      let s = record s { tcp_port = int_or (j.get_object_item root "tcp_port") s.tcp_port } in
      let s = record s { unit_id = int_or (j.get_object_item root "unit_id") s.unit_id } in
      let s = load_serial (j.get_object_item root "serial") s in
      record s {
        coils = load_range (j.get_object_item root "coils") s.coils;
        input_bits = load_range (j.get_object_item root "input_bits") s.input_bits;
        holding_regs = load_range (j.get_object_item root "holding_registers") s.holding_regs;
        input_regs = load_range (j.get_object_item root "input_registers") s.input_regs;
      }

  unfoldable pub load_json : j.Item → Settings → Settings
  unfolding load_mode load_settings
  load_json root s = load_settings root (load_mode (j.get_object_item root "mode") s)

  -- `file` is the text of the file, if it can be opened; it has no character 0. At most 2047 bytes are
  -- read. The first result is the return value 0.
  unfoldable pub load_config : Option String → Settings → Bool × Settings
  unfolding load_json
  load_config none s = (false, s)
  load_config (some content) s = elim (j.parse (slice content 0 2047)) [
    | none ↦ (false, s)
    | some root ↦ (true, load_json root s)
  ]
