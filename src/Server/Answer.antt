-- ===== src/Server/Answer.antt =====
-- What the running server answers to an interrogation, after every sequence of steps.
use iec104_server_and_modbus.Base.{
  String, ℕ, ◌^◌, ◌≤◌, ◌<◌, ◌≡◌, ◌⊎◌, refl, sym, ap, ◌∙◌, subst, Bool, true, false, Option, some,
  List, [], ◌∷◌, ◌++◌, map, All, inl, inr, String,
}
use iec104_server_and_modbus.Cfloat.{FloatUnit}
use iec104_server_and_modbus.Cjson.{Cjson}
use iec104_server_and_modbus.Iec.{Asdu, address, interrogated_by_station}
use iec104_server_and_modbus.Data.Types.{DataValue, DataTypeInfo}
use iec104_server_and_modbus.Data.Manager.{DataTypeContext, DynamicIoaConfig, entries}
use iec104_server_and_modbus.Data.Manager.Configured.{IsConfigured}
use iec104_server_and_modbus.Interrogation.Encoder.{Encoder, HasTableSizes}
use iec104_server_and_modbus.Interrogation.Blocks.{zip_points}
use iec104_server_and_modbus.Interrogation.Complete.{sent_objects, HasHeader}
use iec104_server_and_modbus.Interrogation.Fits.{InRange}
use iec104_server_and_modbus.Interrogation.Station.{
  act_con, act_term, asdu, interrogation_handler, IsServed, station_addresses,
  interrogation_handler_lem,
}
use iec104_server_and_modbus.Server.{Server, start_server, Reachable}
use iec104_server_and_modbus.Config.Parser.{config_keys}
use iec104_server_and_modbus.Config.Addresses.{file_addresses}
use iec104_server_and_modbus.Server.File.{start_server-IsFromFile}
use iec104_server_and_modbus.Server.Layout.{layout}
use iec104_server_and_modbus.Server.Invariant.{start_server-IsSound, Reachable-IsSound}

-- The addresses of a type have three bytes, and its objects take 5 bytes at least or there are at
-- most 127 of them.
abbrev pub IsServable : DataTypeInfo × DynamicIoaConfig → Type 0
IsServable l =
    All (λ a. a < 2 ^ 24) (entries l.1.ioa_list) × ((5 ≤ l.0.io_size) ⊎ (l.1.count ≤ 127))

zip_points-InRange :
    (as' : List ℕ) (vs : List DataValue) → All (λ a. a < 2 ^ 24) as' → InRange (zip_points as' vs)
zip_points-InRange [] vs h = tt
zip_points-InRange (a ∷ as') [] h = tt
zip_points-InRange (a ∷ as') (v ∷ vs) h = (h.0, zip_points-InRange as' vs h.1)

configured-IsServed : (c : DataTypeContext) → IsConfigured c → IsServable (layout c) → IsServed c
configured-IsServed c h l = record {
  valid = h.valid;
  known = h.known;
  range = zip_points-InRange (entries c.config.ioa_list) (entries c.data_array) l.0;
  few = l.1;
}

All-IsServed :
    (cs : List DataTypeContext)
    → All IsConfigured cs
    → All IsServable (map layout cs)
    → All IsServed cs
All-IsServed [] h l = tt
All-IsServed (c ∷ cs) h l = (configured-IsServed c h.0 l.0, All-IsServed cs h.1 l.1)

addresses : List (DataTypeInfo × DynamicIoaConfig) → List ℕ
addresses [] = []
addresses (l ∷ ls) = entries l.1.ioa_list ++ addresses ls

station_addresses-layout :
    (cs : List DataTypeContext) → station_addresses cs ≡ addresses (map layout cs)
unfolding addresses
station_addresses-layout [] = refl
station_addresses-layout (c ∷ cs) =
    ap (◌++◌ (entries c.config.ioa_list)) (station_addresses-layout cs)

-- A server that has started with a configuration as `IsServable` demands answers an interrogation of
-- the station completely, whatever lines, commands, connection events and periodic rounds came
-- before. Its configuration file is JSON; the answer ends, is confirmed and terminated, and its
-- objects have exactly the addresses of that file, each once and in order, under the common address.
pub interrogation_handler-Reachable :
    (f : FloatUnit) (j : Cjson) (enc : Encoder) (created : Bool) (argument file : Option String)
    (s t : Server)
    → HasTableSizes enc
    → 21 ≤ enc.max_size
    → enc.max_size ≤ 249
    → start_server f j created argument file ≡ some s
    → All IsServable (map layout s.input.contexts)
    → Reachable f j enc s t
    → (content : String) × (json : j.Item) × (sent : List Asdu) × (file ≡ some content)
      × (j.parse content ≡ some json)
      × (interrogation_handler enc t.globals.asdu t.input.contexts 20
          ≡ some (act_con false ∷ (map asdu sent ++ (act_term ∷ [])), true))
      × (map address (sent_objects sent) ≡ file_addresses f j json config_keys)
      × All (HasHeader interrogated_by_station t.globals.asdu) sent
interrogation_handler-Reachable f j enc created argument file s t sizes fits max started small
      steps =
    let l = map layout s.input.contexts in
    let sound =
      Reachable-IsSound f j enc l s t steps
        (start_server-IsSound f j created argument file s started) in
    let served =
      All-IsServed t.input.contexts sound.configured
        (subst (All IsServable) (sym sound.layouts) small) in
    let (content, json, text, parsed, points) =
      start_server-IsFromFile f j created argument file s started in
    let same =
      station_addresses-layout t.input.contexts
      ∙ ap addresses sound.layouts
      ∙ sym (station_addresses-layout s.input.contexts)
      ∙ points in
    elim (interrogation_handler_lem enc sizes fits max t.globals.asdu t.input.contexts 20 served) [
      | inl (_, answer) ↦
          (content, json, answer.0, text, parsed, answer.1, answer.3 ∙ same, answer.4)
      | inr (other, _) ↦ absurd (other refl)
    ]
