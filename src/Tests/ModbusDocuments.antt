-- ===== src/Tests/ModbusDocuments.antt =====
-- A JSON library with the lines of the Modbus runs: two updates of a value of two words, the stop
-- command, and a configuration with a mode and a device. Items are numbered.
use iec104_server_and_modbus.Base.{
  ℕ, String, str_eq, false, ◌||◌, ◌&&◌, Option, none, some, [], ◌==◌, if◌then◌else◌,
}
use iec104_server_and_modbus.Cjson.{Cjson}

abbrev parse : String → Option ℕ
parse s =
    if str_eq s "update"
    then some 0
    else if str_eq s "stop"
    then some 10
    else if str_eq s "config"
    then some 20
    else none

abbrev member : ℕ → String → Option ℕ
member item key =
    if item == 0 && str_eq key "type"
    then some 1
    else if item == 0 && str_eq key "address"
    then some 2
    else if item == 0 && str_eq key "datatype"
    then some 3
    else if item == 0 && str_eq key "value"
    then some 4
    else if item == 10 && str_eq key "cmd"
    then some 11
    else if item == 20 && str_eq key "mode"
    then some 21
    else if item == 20 && str_eq key "tcp_port"
    then some 22
    else if item == 20 && str_eq key "serial"
    then some 23
    else if item == 23 && str_eq key "device"
    then some 24
    else none

abbrev value_string : ℕ → Option String
value_string item =
    if item == 1
    then some "holding"
    else if item == 3
    then some "int32"
    else if item == 5
    then some "swap"
    else if item == 11
    then some "stop"
    else if item == 21
    then some "tcp_rtu"
    else if item == 24
    then some "/dev/ttyS1"
    else none

abbrev value_int : ℕ → ℕ
value_int item =
    if item == 2
    then 1
    else if item == 4
    then 0x1234_5678
    else if item == 22
    then 502
    else if item == 6
    then 0x7fff_ffff
    else 0

abbrev pub lines : Cjson
lines = record {
  Item = ℕ;
  parse = parse;
  get_object_item = member;
  get_object_item_case_sensitive = member;
  string =
      λ item. (item == 1 || item == 3) || (item == 5 || (item == 11 || (item == 21 || item == 24)));
  number = λ item. (item == 2 || item == 6) || (item == 4 || item == 22);
  array = λ _. false;
  object = λ item. item == 0 || (item == 10 || (item == 20 || item == 23));
  boolean = λ _. false;
  true_item = λ _. false;
  valuestring = value_string;
  valueint = value_int;
  valuedouble = value_int;
  children = λ _. [];
}
