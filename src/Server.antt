-- ===== src/Server.antt =====
-- json-iec104-server/src/main.c: the parts as one program. Its callbacks, its input loop and its
-- periodic thread are the steps of a relation; each runs to its end before the next, as the mutexes
-- make it for what they share.
pub mod Layout
pub mod Invariant
pub mod File
pub mod Answer
use iec104_server_and_modbus.Base.{
  ℕ, String, Bool, true, false, Option, none, some, List, ◌≡◌, if◌then◌else◌,
}
use iec104_server_and_modbus.Cfloat.{FloatUnit}
use iec104_server_and_modbus.Globals.{Globals, initial_globals}
use iec104_server_and_modbus.Cjson.{Cjson}
use iec104_server_and_modbus.Iec.{Asdu}
use iec104_server_and_modbus.Data.Manager.{
  DataTypeContext, init_data_contexts, cleanup_data_contexts,
}
use iec104_server_and_modbus.Command.Select.{SelectEntry, empty_table}
use iec104_server_and_modbus.Command.Handler
use iec104_server_and_modbus.Command.Handler.{Request, asdu_handler}
use iec104_server_and_modbus.Client
use iec104_server_and_modbus.Client.{
  ClientManager, client_manager_init, client_manager_cleanup, PeerConnectionEvent,
  client_connection_event_handler,
}
use iec104_server_and_modbus.Interrogation.Encoder.{Encoder}
use iec104_server_and_modbus.Periodic
use iec104_server_and_modbus.Periodic.{
  periodic_sender_round, start_periodic_sender, stop_periodic_sender,
}
use iec104_server_and_modbus.Config.Parser
use iec104_server_and_modbus.Config.Parser.{init_config_from_file}
use iec104_server_and_modbus.Input.Line
use iec104_server_and_modbus.Input.Line.{
  Surroundings, input_handler_init, input_handler_cleanup, input_handler_process_line,
}

-- The state of all modules.
pub record Server : Type 0 where
  pub globals : Globals
  pub input : Line.State
  pub select_table : List SelectEntry
  pub manager : ClientManager
  pub periodic : Periodic.State

-- What the configuration parser reads and writes of a program that has just started.
abbrev pub unconfigured : Parser.State
unconfigured = record {
  globals = initial_globals;
  contexts = init_data_contexts;
  me_nc_1 = Periodic.initial.me_nc_1;
  sp_tb_1 = Periodic.initial.sp_tb_1;
}

-- The modules after the configuration, with the thread started (`created`) and the input handler
-- initialised.
unfoldable pub running : Bool → Parser.State → Server
unfolding client_manager_init start_periodic_sender input_handler_init
running created p = record {
  globals = p.globals;
  input = input_handler_init true (Line.initial p.contexts);
  select_table = empty_table;
  manager = client_manager_init Client.start;
  periodic =
      start_periodic_sender created
        (record { me_nc_1 = p.me_nc_1; sp_tb_1 = p.sp_tb_1; running = false });
}

-- The name of the configuration file: the first argument of the program, if there is one.
abbrev pub config_file : Option String → String
config_file none = "iec104_config.json"
config_file (some argument) = argument

-- `main` up to its loop, with a slave that is created and runs; `none` is the exit with an error.
unfoldable pub start_server :
    FloatUnit → Cjson → Bool → Option String → Option String → Option Server
unfolding running init_config_from_file
start_server f j created argument file =
    let r = init_config_from_file f j (some (config_file argument)) file unconfigured in
    if r.0 then some (running created r.1) else none

-- The modules after the loop of `main`.
unfoldable pub shut_down : Server → Server
unfolding input_handler_cleanup stop_periodic_sender cleanup_data_contexts client_manager_cleanup
shut_down s = record s {
  input = record (input_handler_cleanup s.input) {
    contexts = cleanup_data_contexts s.input.contexts;
  };
  periodic = stop_periodic_sender s.periodic;
  manager = client_manager_cleanup s.manager;
}

module _ (f : FloatUnit) (j : Cjson) (enc : Encoder) where
  -- A line of input.
  unfoldable pub after_line : Surroundings → String → Server → Server
  unfolding input_handler_process_line
  after_line env line s = record s {
    input =
        (input_handler_process_line f s.globals enc (record env { manager = s.manager }) j s.input
          line).1;
  }

  -- A call of `asduHandler` by a connection, at a time.
  unfoldable pub after_command : Request → ℕ → ℕ → Server → Server
  unfolding asdu_handler
  after_command r connection now s =
      let c =
        (asdu_handler s.globals.command_mode r connection now
          (record { select_table = s.select_table; contexts = s.input.contexts })).0 in
      record s { input = record s.input { contexts = c.contexts }; select_table = c.select_table }

  unfoldable pub after_connection : ℕ → PeerConnectionEvent → List ℕ → ℕ → Server → Server
  unfolding client_connection_event_handler
  after_connection connection event ip now s = record s {
    manager = client_connection_event_handler connection event ip now s.manager;
  }

  -- The steps of the running program. An interrogation changes no state and is no step.
  pub data Step (s : Server) : Server → Type 0 where
    line : (env : Surroundings) (l : String) → Step s (after_line env l s)
    command : (r : Request) (connection now : ℕ) → Step s (after_command r connection now s)
    connection :
        (k : ℕ) (event : PeerConnectionEvent) (ip : List ℕ) (now : ℕ)
        → Step s (after_connection k event ip now s)
    round :
        (open_connections now_me now_sp : ℕ) (sent : List Asdu) (p : Periodic.State)
        → periodic_sender_round enc s.globals.asdu
            (some open_connections)
            s.input.contexts
            (now_me, now_sp)
            s.periodic
          ≡ some (sent, p)
        → Step s (record s { periodic = p })

  -- The states that some steps lead to from `s`.
  pub data Reachable (s : Server) : Server → Type 0 where
    here : Reachable s s
    next : {t u : Server} → Reachable s t → Step t u → Reachable s u
