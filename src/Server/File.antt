-- ===== src/Server/File.antt =====
-- The points of a server that has started are those of its configuration file.
use iec104_server_and_modbus.Base.{
  ◌≡◌, ◌==◌, refl, subst, String, len, Bool, true, false, Option, none, some, List, arith, inl, inr,
  Bool-cases,
}
use iec104_server_and_modbus.Cfloat.{FloatUnit}
use iec104_server_and_modbus.Cjson.{Cjson}
use iec104_server_and_modbus.Data.Manager.{DataTypeContext}
use iec104_server_and_modbus.Interrogation.Station.{station_addresses}
use iec104_server_and_modbus.Config.Parser.{config_keys, init_config_from_file}
use iec104_server_and_modbus.Config.Addresses.{file_addresses, parse_config_from_json-addresses}
use iec104_server_and_modbus.Server.{Server, unconfigured, running, start_server, config_file}

-- The file can be read, its text is JSON, and the contexts have exactly its addresses, in order.
abbrev pub IsFromFile : FloatUnit → (j : Cjson) → Option String → List DataTypeContext → Type 0
IsFromFile f j file cs =
    (content : String) × (json : j.Item) × (file ≡ some content)
    × (j.parse content ≡ some json)
    × (station_addresses cs ≡ file_addresses f j json config_keys)

init_config_from_file-IsFromFile :
    (f : FloatUnit) (j : Cjson) (name : String) (file : Option String)
    → (init_config_from_file f j (some name) file unconfigured).0 ≡ true
    → IsFromFile f j file (init_config_from_file f j (some name) file unconfigured).1.contexts
unfolding init_config_from_file
init_config_from_file-IsFromFile f j name none ok = absurd (ground arith)
init_config_from_file-IsFromFile f j name (some content) ok = elim (Bool-cases (len content == 0)) [
  | inl empty ↦ let never : false ≡ true = rw empty at ok in absurd (ground arith)
  | inr text ↦
      let (json, e, same) =
        parse_config_from_json-addresses f j content unconfigured refl (rw text at ok) in
      rw text (content, json, refl, e, same)
]

pub start_server-IsFromFile :
    (f : FloatUnit) (j : Cjson) (created : Bool) (argument file : Option String) (s : Server)
    → start_server f j created argument file ≡ some s
    → IsFromFile f j file s.input.contexts
unfolding start_server running
start_server-IsFromFile f j created argument file s e =
    elim (Bool-cases
      (init_config_from_file f j (some (config_file argument)) file unconfigured).0) [
        | inl ok ↦
            let p = (init_config_from_file f j (some (config_file argument)) file unconfigured).1 in
            let same : some (running created p) ≡ some s = rw ok at e in
            let is : running created p ≡ s = cc in
            subst (λ t. IsFromFile f j file t.input.contexts) is
              (init_config_from_file-IsFromFile f j (config_file argument) file ok)
        | inr bad ↦
            let never : ◌≡◌ {A = Option Server} none (some s) = rw bad at e in absurd (ground arith)
      ]
