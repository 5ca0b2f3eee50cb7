-- ===== src/Modbus/Refactored/SameConfig.antt =====
-- The two servers read the same settings from a file that has a mode, and no long device.
use iec104_server_and_modbus.Base.{
  ℕ, ◌≡◌, refl, ap, ◌∙◌, String, slice, len, ltb, ◌<◌, true, Option, none, some, List, [], ◌∷◌,
  Bool-cases, inl, inr, arith,
}
use iec104_server_and_modbus.Cjson.{Cjson}
use iec104_server_and_modbus.Modbus.Settings.{
  Range, Settings, initial_settings, int_or, text_of, load_mode, device_or, char_or, load_serial,
  numbers_or, entries_or, load_range, load_settings, load_json, load_config,
}
use iec104_server_and_modbus.Modbus.Refactored.ConfigLoader.{
  ModbusConfig, defaults, read_int, string_of, read_mode, read_device, read_char, read_serial,
  pair_of, first_two, parse_reg_config, read_settings, read_root, config_load,
}

-- The globals of the server in a single file, as the struct of its successor.
abbrev pub as_config : Settings → ModbusConfig
as_config s = record {
  enable_tcp = s.enable_tcp;
  enable_rtu = s.enable_rtu;
  tcp_port = s.tcp_port;
  serial_device = s.serial_device;
  baudrate = s.baudrate;
  parity = s.parity;
  data_bits = s.data_bits;
  stop_bits = s.stop_bits;
  unit_id = s.unit_id;
  coils_start = s.coils.start;
  nb_coils = s.coils.nb;
  input_bits_start = s.input_bits.start;
  nb_input_bits = s.input_bits.nb;
  holding_regs_start = s.holding_regs.start;
  nb_holding_regs = s.holding_regs.nb;
  input_regs_start = s.input_regs.start;
  nb_input_regs = s.input_regs.nb;
}

abbrev as_pair : Range → ℕ × ℕ
as_pair r = (r.start, r.nb)

-- The device is a text of at most 62 bytes, if there is one.
abbrev pub IsShort : Option String → Type 0
IsShort none = Unit {0}
IsShort (some device) = len device < 63

module _ (j : Cjson) (rest : String) where
  -- The member `device` of the settings of the serial line.
  abbrev pub HasShortDevice : Option j.Item → Type 0
  HasShortDevice none = Unit {0}
  HasShortDevice (some serial) = IsShort (text_of j (j.get_object_item serial "device"))

  read_int-eq : (item : Option j.Item) (old : ℕ) → read_int j rest item old ≡ int_or j item old
  unfolding read_int int_or
  read_int-eq none old = refl
  read_int-eq (some item) old = refl

  string_of-eq : (item : Option j.Item) → string_of j rest item ≡ text_of j item
  unfolding string_of text_of
  string_of-eq none = refl
  string_of-eq (some item) = refl

  read_device-eq :
      (t : Option String) (old : String) → IsShort t → read_device j rest t old ≡ device_or j t old
  unfolding read_device device_or
  read_device-eq none old h = refl
  read_device-eq (some t) old h = let short : ltb (len t) 63 ≡ true = ground arith in rw short refl

  read_char-eq : (t : Option String) (old : ℕ) → read_char j rest t old ≡ char_or j t old
  unfolding read_char char_or
  read_char-eq none old = refl
  read_char-eq (some t) old = refl

  parse_reg_config-eq :
      (item : Option j.Item) (old : Range)
      → parse_reg_config j rest item (as_pair old) ≡ as_pair (load_range j item old)
  unfolding parse_reg_config load_range
  parse_reg_config-eq none old = refl
  parse_reg_config-eq (some item) old = elim (Bool-cases (j.object item)) [
    | inl o ↦ rw o (pair (j.get_object_item item "start_address") (j.get_object_item item "count"))
    | inr o ↦ elim (Bool-cases (j.array item)) [
      | inl a ↦ rw (o, a) (two (j.children item))
      | inr a ↦ rw (o, a) refl
    ]
  ]
    where
      pair :
          (s c : Option j.Item) → pair_of j rest s c (as_pair old) ≡ as_pair (numbers_or j s c old)
      pair none c = refl
      pair (some s) none = refl
      pair (some s) (some c) = ground arith

      two :
          (items : List j.Item)
          → first_two j rest items (as_pair old) ≡ as_pair (entries_or j items old)
      two [] = refl
      two (s ∷ []) = refl
      two (s ∷ c ∷ items) = refl

  read_serial-eq :
      (item : Option j.Item) (s : Settings)
      → HasShortDevice item
      → read_serial j rest item (as_config s) ≡ as_config (load_serial j item s)
  unfolding read_serial load_serial
  read_serial-eq none s h = refl
  read_serial-eq (some serial) s h = elim (Bool-cases (j.object serial)) [
    | inr o ↦ rw o refl
    | inl o ↦ rw o (
        let device = text_of j (j.get_object_item serial "device") in
        rw (read_device-eq device s.serial_device h) simp (read_int-eq, string_of-eq, read_char-eq))
  ]

  read_settings-eq :
      (root : j.Item) (s : Settings)
      → HasShortDevice (j.get_object_item root "serial")
      → read_settings j rest root (as_config s) ≡ as_config (load_settings j root s)
  unfolding read_settings load_settings
  read_settings-eq root s h =
      let port = int_or j (j.get_object_item root "tcp_port") s.tcp_port in
      let unit = int_or j (j.get_object_item root "unit_id") s.unit_id in
      let s' : Settings = record s { tcp_port = port; unit_id = unit } in
      let serial = load_serial j (j.get_object_item root "serial") s' in
      rw
        (
          read_int-eq (j.get_object_item root "tcp_port") s.tcp_port,
          read_int-eq (j.get_object_item root "unit_id") s.unit_id,
          read_serial-eq (j.get_object_item root "serial") s' h,
          parse_reg_config-eq (j.get_object_item root "coils") serial.coils,
          parse_reg_config-eq (j.get_object_item root "input_bits") serial.input_bits,
          parse_reg_config-eq (j.get_object_item root "holding_registers") serial.holding_regs,
          parse_reg_config-eq (j.get_object_item root "input_registers") serial.input_regs,
        )
        refl

  mode-eq :
      (item : Option j.Item) (t : String)
      → text_of j item ≡ some t
      → slice t 0 15 ≡ t
      → read_mode j rest (string_of j rest item) defaults
        ≡ as_config (load_mode j item initial_settings)
  unfolding read_mode load_mode defaults
  mode-eq item t e short = rw (string_of-eq item, e, load_mode, short) refl

  -- From a file that is JSON and has a text `mode` of at most 15 bytes, the two servers read the same
  -- settings, if the device of the serial line, where the file has one, is a text of at most 62 bytes.
  -- The rest of the file is arbitrary, and so is the memory that the struct of the successor is in.
  pub config_load-eq :
      (content t : String) (root : j.Item)
      → j.parse (slice content 0 2047) ≡ some root
      → text_of j (j.get_object_item root "mode") ≡ some t
      → slice t 0 15 ≡ t
      → HasShortDevice (j.get_object_item root "serial")
      → (config_load j rest (some content)
          ≡ (true, as_config (load_config j (some content) initial_settings).1))
        × ((load_config j (some content) initial_settings).0 ≡ true)
  unfolding config_load load_config read_root load_json
  config_load-eq content t root p e short device =
      let mode = mode-eq (j.get_object_item root "mode") t e short in
      let settings =
        read_settings-eq root (load_mode j (j.get_object_item root "mode") initial_settings)
          device in
      rw (p, config_load, load_config)
        (ap (λ c. (true, c)) (ap (read_settings j rest root) mode ∙ settings), refl)
