-- ===== src/Tests/Client.antt =====
-- The registry of clients with one connection.
use iec104_server_and_modbus.Base.{◌≡◌, refl, [], ◌∷◌}
use iec104_server_and_modbus.Client.{
  ClientManager, start, client_manager_init, is_known, connection_opened, connection_closed,
  client_connection_event_handler,
}
use iec104_server_and_modbus.Client.Registry.{
  IsValid, client_manager_init-IsValid, client_connection_event_handler-IsValid, known_after,
  client_connection_event_handler_refines,
}

abbrev ready : ClientManager
ready = client_manager_init start

ready-IsValid : IsValid ready
ready-IsValid = client_manager_init-IsValid start refl refl

abbrev joined : ClientManager
joined = client_connection_event_handler 7 connection_opened (49 ∷ []) 1000 ready

client_connection_event_handler-IsValid_example : IsValid joined
client_connection_event_handler-IsValid_example =
    client_connection_event_handler-IsValid 7 connection_opened (49 ∷ []) 1000 ready ready-IsValid

joined-IsValid : IsValid joined
joined-IsValid =
    client_connection_event_handler-IsValid 7 connection_opened (49 ∷ []) 1000 ready ready-IsValid

client_connection_event_handler_refines_example :
    is_known 7 (client_connection_event_handler 7 connection_closed [] 2000 joined).clients
    ≡ known_after connection_closed 7 7 (is_known 7 joined.clients) joined.client_count
client_connection_event_handler_refines_example =
    client_connection_event_handler_refines 7 7 connection_closed [] 2000 joined joined-IsValid
