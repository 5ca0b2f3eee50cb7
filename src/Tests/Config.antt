-- ===== src/Tests/Config.antt =====
-- The configuration of two measured values.
use iec104_server_and_modbus.Base.{ℕ, ◌≡◌, ◌⊎◌, refl, true, false, some, [], All}
use iec104_server_and_modbus.Globals.{initial_globals}
use iec104_server_and_modbus.Data.Manager.{
  entries, init_context, init_data_contexts, get_data_context,
}
use iec104_server_and_modbus.Data.Manager.Configured.{IsConfigured, init_data_contexts-IsConfigured}
use iec104_server_and_modbus.Periodic
use iec104_server_and_modbus.Config.Parser.{
  State, parse_addresses, with_points, configure_array, parse_data_type_config,
  parse_periodic_config, configure_at, configure_type, configure_types, parse_config_from_json,
}
use iec104_server_and_modbus.Config.TypeConfig.{
  AreNumbers, HasPoints, listed, parse_data_type_config_lem,
}
use iec104_server_and_modbus.Config.Parser.{config_keys}
use iec104_server_and_modbus.Interrogation.Station.{station_addresses}
use iec104_server_and_modbus.Config.Addresses.{file_addresses, parse_config_from_json-addresses}
use iec104_server_and_modbus.Config.Start.{parse_config_from_json-IsConfigured}
use iec104_server_and_modbus.Tests.Fixtures.{integers, meters, meters-IsConfigured}
use iec104_server_and_modbus.Tests.Documents.{documents}

parse_data_type_config_lem_example :
    let r = parse_data_type_config integers documents 20 "M_ME_NC_1_config" meters in
    let items = listed integers documents 20 "M_ME_NC_1_config" in
    ((items ≡ []) × (r ≡ (true, meters)))
    ⊎ (AreNumbers integers documents items
        × (r.0 ≡ true)
        × HasPoints integers documents items r.1
        × IsConfigured r.1)
    ⊎ ((AreNumbers integers documents items → ⊥)
        × (r.0 ≡ false)
        × (entries r.1.config.ioa_list ≡ []))
parse_data_type_config_lem_example =
    parse_data_type_config_lem integers documents 20 "M_ME_NC_1_config" meters meters-IsConfigured

abbrev blank : State
blank = record {
  globals = initial_globals;
  contexts = init_data_contexts;
  me_nc_1 = Periodic.initial.me_nc_1;
  sp_tb_1 = Periodic.initial.sp_tb_1;
}

succeeds : (parse_config_from_json integers documents (some "config") blank).0 ≡ true
unfolding parse_config_from_json configure_types configure_type configure_at parse_data_type_config
    configure_array parse_addresses with_points parse_periodic_config get_data_context
    init_data_contexts init_context
succeeds = refl

parse_config_from_json-IsConfigured_example :
    All IsConfigured (parse_config_from_json integers documents (some "config") blank).1.contexts
parse_config_from_json-IsConfigured_example =
    parse_config_from_json-IsConfigured integers documents (some "config") blank
      init_data_contexts-IsConfigured succeeds

parse_config_from_json-addresses_example :
    (json : ℕ) × (documents.parse "config" ≡ some json)
    × (station_addresses
          (parse_config_from_json integers documents (some "config") blank).1.contexts
        ≡ file_addresses integers documents json config_keys)
parse_config_from_json-addresses_example =
    parse_config_from_json-addresses integers documents "config" blank refl succeeds
