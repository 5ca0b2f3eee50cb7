-- ===== src/Tests/Documents.antt =====
-- A JSON library with three texts: an update of a measured value, the stop command, and a
-- configuration with the addresses 100 and 200. Items are numbered.
use iec104_server_and_modbus.Base.{
  ℕ, String, str_eq, false, ◌||◌, ◌&&◌, Option, none, some, [], ◌∷◌, leb, ◌==◌, if◌then◌else◌,
}
use iec104_server_and_modbus.Cjson.{Cjson}

abbrev parse : String → Option ℕ
parse s =
    if str_eq s "update"
    then some 0
    else if str_eq s "stop"
    then some 10
    else if str_eq s "config"
    then some 20
    else none

abbrev member : ℕ → String → Option ℕ
member item key =
    if item == 0 && str_eq key "type"
    then some 1
    else if item == 0 && str_eq key "address"
    then some 2
    else if item == 0 && str_eq key "value"
    then some 3
    else if item == 10 && str_eq key "cmd"
    then some 11
    else if item == 20 && str_eq key "M_ME_NC_1_config"
    then some 21
    else none

abbrev value_string : ℕ → Option String
value_string item = if item == 1 then some "M_ME_NC_1" else if item == 11 then some "stop" else none

abbrev value_int : ℕ → ℕ
value_int item =
    if item == 2
    then 200
    else if item == 3
    then 7
    else if item == 22
    then 100
    else if item == 23
    then 200
    else 0

abbrev pub documents : Cjson
documents = record {
  Item = ℕ;
  parse = parse;
  get_object_item = member;
  get_object_item_case_sensitive = member;
  string = λ item. item == 1 || item == 11;
  number = λ item. item == 2 || (item == 3 || leb 22 item);
  array = λ item. item == 21;
  object = λ item. item == 0 || (item == 10 || item == 20);
  boolean = λ _. false;
  true_item = λ _. false;
  valuestring = value_string;
  valueint = value_int;
  valuedouble = value_int;
  children = λ item. if item == 21 then 22 ∷ 23 ∷ [] else [];
}
