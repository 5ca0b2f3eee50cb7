-- ===== src/Tests/Server.antt =====
-- A server that has started with two measured values, and has seen an update and a command.
use iec104_server_and_modbus.Base.{
  ℕ, String, ◌≡◌, refl, true, false, none, some, List, [], ◌∷◌, ◌++◌, map, All, arith,
}
use iec104_server_and_modbus.Iec.{Asdu, address, interrogated_by_station, activation}
use iec104_server_and_modbus.Iec.TypeId
use iec104_server_and_modbus.Data.Manager.{init_context, init_data_contexts, get_data_context}
use iec104_server_and_modbus.Command.Handler.{Request}
use iec104_server_and_modbus.Client.{start}
use iec104_server_and_modbus.Interrogation.Complete.{sent_objects, HasHeader}
use iec104_server_and_modbus.Interrogation.Station.{act_con, act_term, asdu, interrogation_handler}
use iec104_server_and_modbus.Config.Parser.{
  init_config_from_file, parse_addresses, with_points, configure_array, parse_data_type_config,
  parse_periodic_config, configure_at, configure_type, configure_types, parse_config_from_json,
}
use iec104_server_and_modbus.Input.Line.{Surroundings, input_handler_init}
use iec104_server_and_modbus.Server.{
  Server, unconfigured, running, start_server, Reachable, here, next, line, command,
}
use iec104_server_and_modbus.Config.Parser.{config_keys}
use iec104_server_and_modbus.Config.Addresses.{file_addresses}
use iec104_server_and_modbus.Server.Layout.{layout}
use iec104_server_and_modbus.Server.Invariant.{IsSound, start_server-IsSound, Reachable-IsSound}
use iec104_server_and_modbus.Server.Answer.{IsServable, interrogation_handler-Reachable}
use iec104_server_and_modbus.Tests.Fixtures.{integers, encoder, encoder_sizes, level}
use iec104_server_and_modbus.Tests.Documents.{documents}

abbrev started : Server
started =
    running true
      (init_config_from_file integers documents (some "iec104_config.json") (some "config")
        unconfigured).1

starts : start_server integers documents true none (some "config") ≡ some started
unfolding start_server init_config_from_file parse_config_from_json configure_types configure_type
    configure_at parse_data_type_config configure_array parse_addresses with_points
    parse_periodic_config get_data_context init_data_contexts init_context
starts = refl

servable : All IsServable (map layout started.input.contexts)
unfolding running input_handler_init init_config_from_file parse_config_from_json configure_types
    configure_type configure_at parse_data_type_config configure_array parse_addresses with_points
    parse_periodic_config get_data_context init_data_contexts init_context
servable = omega arith

abbrev quiet : Surroundings
quiet = record {
  open_connections = 1;
  is_running = true;
  queue_entries = 0;
  manager = start;
  now = 9000;
  current = 9000;
  uninitialised = level 0;
}

-- A reset of the process.
abbrev reset : Request
reset = record {
  type_id = TypeId.c_rp_na_1;
  cot = activation;
  is_negative = false;
  ioa = 0;
  is_select = false;
  value = 0;
  qualifier = 1;
}

abbrev run : (t : Server) × Reachable integers documents encoder started t
run = (_, next (next here (line quiet "update")) (command reset 7 9500))

Reachable-IsSound_example : IsSound (map layout started.input.contexts) run.0
Reachable-IsSound_example =
    Reachable-IsSound integers documents encoder (map layout started.input.contexts) started run.0
      run.1 (start_server-IsSound integers documents true none (some "config") started starts)

interrogation_handler-Reachable_example :
    (content : String) × (json : ℕ) × (sent : List Asdu) × (some "config" ≡ some content)
    × (documents.parse content ≡ some json)
    × (interrogation_handler encoder run.0.globals.asdu run.0.input.contexts 20
        ≡ some (act_con false ∷ (map asdu sent ++ (act_term ∷ [])), true))
    × (map address (sent_objects sent) ≡ file_addresses integers documents json config_keys)
    × All (HasHeader interrogated_by_station run.0.globals.asdu) sent
interrogation_handler-Reachable_example =
    interrogation_handler-Reachable integers documents encoder true none (some "config") started
      run.0 encoder_sizes (omega arith) (omega arith) starts servable run.1
