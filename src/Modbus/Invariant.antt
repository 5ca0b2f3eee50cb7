-- ===== src/Modbus/Invariant.antt =====
-- What holds of the Modbus server between two rounds of its loop.
pub mod Start
pub mod Connections
pub mod Rounds
pub mod Stop
use iec104_server_and_modbus.Base.{
  ℕ, ◌+◌, ◌≡◌, refl, sym, ap, ◌∙◌, subst, String, Bool, true, false, not, ◌&&◌, Option, none, some,
  List, [], ◌∷◌, ◌++◌, if◌then◌else◌, if_intro, if_split, &&_left, arith, Bool-cases, Option-cases,
  inl, inr,
}
use iec104_server_and_modbus.Cfloat.{FloatUnit}
use iec104_server_and_modbus.Cjson.{Cjson}
use iec104_server_and_modbus.Modbus.Registers.{Mapping}
use iec104_server_and_modbus.Modbus.Settings.{Settings}
use iec104_server_and_modbus.Modbus.Command.{State, Effect, state_running, state_stopped}
use iec104_server_and_modbus.Modbus.Clients.{
  Clients, Received, request, nothing, failed, no_clients, accept_client, replied, Serving,
  serve_slot, serve_client, serve_clients, close_clients,
}
use iec104_server_and_modbus.Modbus.Sockets.{
  IsTable, accept_client-IsTable, serve_clients-IsTable, open-close_clients, empty-IsTable,
}
use iec104_server_and_modbus.Modbus.Server.{
  Selected, select_failed, select_terminated, select_interrupted, selected, Round, Server, Output,
  initial_server, Next, next, leave, is_running, is_mapped, stopped, read_line, read_stdin,
  start_tcp, start_rtu, with_mapping, start_mapping, start_modbus, clean_up, is_set,
  accept_connections, handle_clients, receive_rtu, handle_rtu, reconnect_rtu, handle_connections,
  finish_round, started, run_round, commands, after_input, after_select, round, server_ready,
  server_stopped,
}
use iec104_server_and_modbus.Modbus.Update.{Serves, ServesAny}
use iec104_server_and_modbus.Modbus.Session.{Keeps, KeepsEffect, process_json-Keeps}

-- The server runs or has stopped as its flag says; a mapping serves the settings; with TCP and a
-- mapping, the slots hold exactly the open client sockets and are counted; and without one of these,
-- no client socket is open.
pub record IsSound (c : Settings) (s : Server) : Type 0 where
  pub session : Keeps c (is_mapped s.session.mb_mapping) s.session
  pub table : c.enable_tcp ≡ true → is_mapped s.session.mb_mapping ≡ true → IsTable s.clients
  pub unmapped : is_mapped s.session.mb_mapping ≡ false → s.clients.open_socks ≡ []
  pub no_tcp : c.enable_tcp ≡ false → s.clients.open_socks ≡ []

pub initial_server-IsSound : (c : Settings) → IsSound c initial_server
initial_server-IsSound c = record {
  session = record { state = refl; serves = tt; mapped = refl };
  table = λ t m. cc;
  unmapped = λ e. refl;
  no_tcp = λ e. refl;
}

-- A reply leaves the mapping one for the settings.
abbrev pub IsReply : Settings → Received → Type 0
IsReply c (request reply) = (m : Mapping) → Serves c m → Serves c (reply m)
IsReply c nothing = Unit {0}
IsReply c failed = Unit {0}

-- What libmodbus is relied on for: mappings are made as the settings say, and a reply writes into the
-- arrays of a mapping.
pub record IsRound (c : Settings) (r : Round) : Type 0 where
  pub mapping : ServesAny c r.new_mapping
  pub replies : (fd : ℕ) → IsReply c (r.received fd)
  pub reply_rtu : IsReply c r.received_rtu
