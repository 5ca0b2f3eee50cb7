-- ===== src/Modbus/Refactored/ConfigLoader.antt =====
-- modbus-server/src/config/config.h and config_loader.c. The struct is the caller's and is not cleared
-- by `config_load`: the text that memory holds from the last byte of `serial_device` on is a
-- parameter, `rest`.
use iec104_server_and_modbus.Base.{
  ℕ, String, slice, Bool, true, false, ◌&&◌, str_append, len, ltb, Option, none, some, List, [],
  ◌∷◌, if◌then◌else◌,
}
use iec104_server_and_modbus.Cjson.{Cjson}
use iec104_server_and_modbus.Modbus.Text.{strstr, first_char}

pub record ModbusConfig : Type 0 where
  pub enable_tcp : Bool
  pub enable_rtu : Bool
  pub tcp_port : ℕ
  pub serial_device : String
  pub baudrate : ℕ
  pub parity : ℕ
  pub data_bits : ℕ
  pub stop_bits : ℕ
  pub unit_id : ℕ
  pub coils_start : ℕ
  pub nb_coils : ℕ
  pub input_bits_start : ℕ
  pub nb_input_bits : ℕ
  pub holding_regs_start : ℕ
  pub nb_holding_regs : ℕ
  pub input_regs_start : ℕ
  pub nb_input_regs : ℕ

unfoldable pub defaults : ModbusConfig
defaults = record {
  enable_tcp = true;
  enable_rtu = false;
  tcp_port = 1502;
  serial_device = "/dev/ttyUSB0";
  baudrate = 9600;
  parity = b'N';
  data_bits = 8;
  stop_bits = 1;
  unit_id = 1;
  coils_start = 0;
  nb_coils = 0;
  input_bits_start = 0;
  nb_input_bits = 0;
  holding_regs_start = 0;
  nb_holding_regs = 0;
  input_regs_start = 0;
  nb_input_regs = 0;
}

module _ (j : Cjson) (rest : String) where
  unfoldable pub read_int : Option j.Item → ℕ → ℕ
  read_int none old = old
  read_int (some item) old = if j.number item then j.valueint item else old

  unfoldable pub string_of : Option j.Item → Option String
  string_of none = none
  string_of (some item) = if j.string item then j.valuestring item else none

  unfoldable pub read_mode : Option String → ModbusConfig → ModbusConfig
  read_mode none c = c
  read_mode (some mode) c = record c {
    enable_tcp = strstr mode "tcp";
    enable_rtu = strstr mode "rtu";
  }

  -- `strncpy` of 63 bytes into the 64 of `serial_device`: it ends a text of up to 62 bytes with a 0;
  -- after a longer one, the text of the array goes on with what is in memory.
  unfoldable pub read_device : Option String → String → String
  read_device none old = old
  read_device (some device) old =
      if ltb (len device) 63 then slice device 0 63 else str_append (slice device 0 63) rest

  unfoldable pub read_char : Option String → ℕ → ℕ
  read_char none old = old
  read_char (some parity) old = first_char parity

  unfoldable pub read_serial : Option j.Item → ModbusConfig → ModbusConfig
  unfolding read_int string_of read_device read_char
  read_serial none c = c
  read_serial (some serial) c =
      if j.object serial
      then record c {
        serial_device = read_device (string_of (j.get_object_item serial "device")) c.serial_device;
        baudrate = read_int (j.get_object_item serial "baudrate") c.baudrate;
        parity = read_char (string_of (j.get_object_item serial "parity")) c.parity;
        data_bits = read_int (j.get_object_item serial "data_bits") c.data_bits;
        stop_bits = read_int (j.get_object_item serial "stop_bits") c.stop_bits;
      }
      else c

  unfoldable pub pair_of : Option j.Item → Option j.Item → ℕ × ℕ → ℕ × ℕ
  pair_of none c old = old
  pair_of (some s) none old = old
  pair_of (some s) (some c) old =
      if j.number s && j.number c then (j.valueint s, j.valueint c) else old

  unfoldable pub first_two : List j.Item → ℕ × ℕ → ℕ × ℕ
  first_two [] old = old
  first_two (s ∷ []) old = old
  first_two (s ∷ c ∷ items) old = (j.valueint s, j.valueint c)

  -- The macro PARSE_REG_CONFIG: a start and a count.
  unfoldable pub parse_reg_config : Option j.Item → ℕ × ℕ → ℕ × ℕ
  unfolding pair_of first_two
  parse_reg_config none old = old
  parse_reg_config (some item) old =
      if j.object item
      then pair_of (j.get_object_item item "start_address") (j.get_object_item item "count") old
      else if j.array item
      then first_two (j.children item) old
      else old

  -- What is read after the mode.
  unfoldable pub read_settings : j.Item → ModbusConfig → ModbusConfig
  unfolding read_int read_serial parse_reg_config
  read_settings root c =
      let c = record c { tcp_port = read_int (j.get_object_item root "tcp_port") c.tcp_port } in
      let c = record c { unit_id = read_int (j.get_object_item root "unit_id") c.unit_id } in
      let c = read_serial (j.get_object_item root "serial") c in
      let coils = parse_reg_config (j.get_object_item root "coils") (c.coils_start, c.nb_coils) in
      let bits =
        parse_reg_config (j.get_object_item root "input_bits")
          (c.input_bits_start, c.nb_input_bits) in
      let holding =
        parse_reg_config (j.get_object_item root "holding_registers")
          (c.holding_regs_start, c.nb_holding_regs) in
      let input =
        parse_reg_config (j.get_object_item root "input_registers")
          (c.input_regs_start, c.nb_input_regs) in
      record c {
        coils_start = coils.0;
        nb_coils = coils.1;
        input_bits_start = bits.0;
        nb_input_bits = bits.1;
        holding_regs_start = holding.0;
        nb_holding_regs = holding.1;
        input_regs_start = input.0;
        nb_input_regs = input.1;
      }

  unfoldable pub read_root : j.Item → ModbusConfig → ModbusConfig
  unfolding read_mode string_of read_settings
  read_root root c = read_settings root (read_mode (string_of (j.get_object_item root "mode")) c)

  -- The return value is 0 if the first result is true; a file that is not there is no error.
  unfoldable pub config_load : Option String → Bool × ModbusConfig
  unfolding defaults read_root
  config_load none = (true, defaults)
  config_load (some content) = elim (j.parse (slice content 0 2047)) [
    | none ↦ (false, defaults)
    | some root ↦ (true, read_root root defaults)
  ]
