-- ===== src/Modbus/Server.antt =====
-- The main loop of modbus-server/json-modbus-server.c, with the calls of libmodbus and of the system
-- as the environment of a round: what they return.
use iec104_server_and_modbus.Base.{
  ℕ, String, Bool, true, false, not, ◌&&◌, Option, none, some, List, [], ◌∷◌, ◌++◌, replicate,
  if◌then◌else◌,
}
use iec104_server_and_modbus.Cfloat.{FloatUnit}
use iec104_server_and_modbus.Cjson.{Cjson}
use iec104_server_and_modbus.Modbus.Registers.{Mapping}
use iec104_server_and_modbus.Modbus.Settings.{Settings}
use iec104_server_and_modbus.Modbus.Command
use iec104_server_and_modbus.Modbus.Command.{
  ServerState, state_running, state_stopped, State, process_json,
}
use iec104_server_and_modbus.Modbus.Clients.{
  Clients, Received, request, nothing, failed, no_clients, max_tcp_clients, accept_client, replied,
  serve_clients, close_clients,
}

-- What `select` returned: an error; an interruption by a signal, one that `signal_handler` handles or
-- another; or whether its result was positive and which descriptors are set.
pub data Selected : Type 0 where
  select_failed select_terminated select_interrupted : Selected
  selected : Bool → (ℕ → Bool) → Selected

-- What the calls of one round return: `fgets`; the contexts, whether there is one, whether it is
-- connected, and the listening socket; the mapping; a new connection; what is received from a client
-- and on the serial line; and whether `errno` is EAGAIN or EWOULDBLOCK then.
pub record Round : Type 0 where
  pub select : Selected
  pub line : Option String
  pub new_tcp : Bool
  pub listen : Option ℕ
  pub new_rtu : Bool
  pub connect_rtu : Bool
  pub new_mapping : Option Mapping
  pub accepted : Option ℕ
  pub received : ℕ → Received
  pub rtu_socket : Option ℕ
  pub received_rtu : Received
  pub again : Bool
  pub reconnect_new : Bool
  pub reconnect : Bool

-- The globals: those that a line of input uses, whether there are contexts, and the sockets.
pub record Server : Type 0 where
  pub session : State
  pub ctx_tcp : Bool
  pub ctx_rtu : Bool
  pub tcp_listen_sock : Option ℕ
  pub clients : Clients

pub data Output : Type 0 where
  command : Command.Output → Output
  ready server_ready server_stopped exited : Output

-- Static storage: the slots start as 0.
abbrev pub initial_server : Server
initial_server = record {
  session = record { server_state = state_running; running = true; mb_mapping = none };
  ctx_tcp = false;
  ctx_rtu = false;
  tcp_listen_sock = none;
  clients = record {
    tcp_conn_socks = replicate max_tcp_clients (some 0);
    tcp_conn_count = 0;
    open_socks = [];
  };
}

-- How a round goes on: to the next round by `continue` or at its end, or out of the loop.
pub data Next : Type 0 where
  next : Server → List Output → Next
  leave : Server → List Output → Next

abbrev pub is_running : State → Bool
is_running s = elim s.server_state [ state_running ↦ true | state_stopped ↦ false ]

abbrev pub is_mapped : Option Mapping → Bool
is_mapped none = false
is_mapped (some m) = true

-- The end of the input, or a signal.
abbrev pub stopped : State → State
stopped s = record s { server_state = state_stopped; running = false }

-- How far the program has come: a fault, after some rounds in the loop, or its end.
pub data Progress : Type 0 where
  fault : Progress
  in_loop : Server → List Output → Progress
  ended : Server → List Output → Progress

unfoldable pub printed : List Output → Progress → Progress
printed out fault = fault
printed out (in_loop s rest) = in_loop s (out ++ rest)
printed out (ended s rest) = ended s (out ++ rest)

module _ (f : FloatUnit) (j : Cjson) (c : Settings) where
  -- The commands on the standard input.
  unfoldable pub read_line : Option String → State → Command.Effect
  read_line none s = some (stopped s, [])
  read_line (some line) s = process_json f j c line s

  unfoldable pub read_stdin : Round → (ℕ → Bool) → State → Command.Effect
  unfolding read_line
  read_stdin r set s = if set 0 then read_line r.line s else some (s, [])

  -- The start of TCP and of the serial line: the new globals, and whether it did not `continue`.
  unfoldable pub start_tcp : Round → Server → Server × Bool
  start_tcp r s =
      if c.enable_tcp
      then if r.new_tcp
        then elim r.listen [
          | none ↦ (record s { ctx_tcp = true; tcp_listen_sock = none }, false)
          | some fd ↦ (
            record s {
              ctx_tcp = true;
              tcp_listen_sock = some fd;
              clients = record {
                tcp_conn_socks = no_clients;
                tcp_conn_count = 0;
                open_socks = s.clients.open_socks;
              };
            },
            true,
          )
        ]
        else (record s { ctx_tcp = false }, false)
      else (s, true)

  unfoldable pub start_rtu : Round → Server → Server × Bool
  start_rtu r s =
      if c.enable_rtu
      then (record s { ctx_rtu = r.new_rtu && r.connect_rtu }, r.new_rtu && r.connect_rtu)
      else (s, true)

  abbrev pub with_mapping : Option Mapping → Server → Server
  with_mapping m s = record s { session = record s.session { mb_mapping = m } }

  unfoldable pub start_mapping : Option Mapping → Server → Server × Bool
  start_mapping m s = (with_mapping m s, is_mapped m)

  -- The start of the server, when it runs and has no mapping.
  unfoldable pub start_modbus : Round → Server → Server × Bool
  unfolding start_tcp start_rtu start_mapping
  start_modbus r s =
      let (t, tcp_started) = start_tcp r s in
      let (u, rtu_started) = start_rtu r t in
      if tcp_started
      then if rtu_started then start_mapping r.new_mapping u else (u, false)
      else (t, false)

  -- The cleanup when the server has stopped, and before the exit.
  unfoldable pub clean_up : Server → Server
  clean_up s = record {
    session = record s.session { mb_mapping = none };
    ctx_tcp = if c.enable_tcp then false else s.ctx_tcp;
    ctx_rtu = if c.enable_rtu then false else s.ctx_rtu;
    tcp_listen_sock = if c.enable_tcp then none else s.tcp_listen_sock;
    clients = if c.enable_tcp then close_clients s.clients else s.clients;
  }

  unfoldable pub is_set : (ℕ → Bool) → Option ℕ → Bool
  is_set set none = false
  is_set set (some fd) = set fd

  -- New connections on the listening socket.
  unfoldable pub accept_connections : Round → (ℕ → Bool) → Server → Server
  unfolding is_set
  accept_connections r set s =
      if c.enable_tcp && is_set set s.tcp_listen_sock
      then record s { clients = accept_client r.accepted s.clients }
      else s

  -- Data from all TCP clients.
  unfoldable pub handle_clients : Round → (ℕ → Bool) → Server → Server
  handle_clients r set s =
      let (socks, t) = serve_clients set r.received s.clients.tcp_conn_socks (record {
        mapping = s.session.mb_mapping;
        count = s.clients.tcp_conn_count;
        sockets = s.clients.open_socks;
      }) in
      if c.enable_tcp
      then record s {
        session = record s.session { mb_mapping = t.mapping };
        clients = record {
          tcp_conn_socks = socks;
          tcp_conn_count = t.count;
          open_socks = t.sockets;
        };
      }
      else s

  unfoldable pub receive_rtu : Received → Bool → Server → Server
  receive_rtu (request reply) again s = with_mapping (replied reply s.session.mb_mapping) s
  receive_rtu nothing again s = s
  receive_rtu failed again s = if again then s else record s { ctx_rtu = false }

  -- The serial line.
  unfoldable pub handle_rtu : Round → (ℕ → Bool) → Server → Server
  unfolding receive_rtu is_set
  handle_rtu r set s =
      if (c.enable_rtu && s.ctx_rtu) && is_set set r.rtu_socket
      then receive_rtu r.received_rtu r.again s
      else s

  -- AUTO-RECONNECT
  unfoldable pub reconnect_rtu : Round → Server → Server
  reconnect_rtu r s =
      if (c.enable_rtu && not s.ctx_rtu) && is_running s.session
      then record s { ctx_rtu = r.reconnect_new && r.reconnect }
      else s

  unfoldable pub handle_connections : Round → (ℕ → Bool) → Server → Server
  unfolding accept_connections handle_clients handle_rtu reconnect_rtu
  handle_connections r set s =
      reconnect_rtu r (handle_rtu r set (handle_clients r set (accept_connections r set s)))

  -- The rest of a round, after the commands and the start.
  unfoldable pub finish_round : Round → Bool → (ℕ → Bool) → Server → List Output → Next
  unfolding clean_up handle_connections
  finish_round r positive set s out =
      if not (is_running s.session) && is_mapped s.session.mb_mapping
      then next (clean_up s) (out ++ (server_stopped ∷ []))
      else if is_running s.session && positive
      then next (handle_connections r set s) out
      else next s out

  unfoldable pub started : Round → Bool → (ℕ → Bool) → Server × Bool → List Output → Next
  unfolding finish_round
  started r positive set (s, true) out = finish_round r positive set s (out ++ (server_ready ∷ []))
  started r positive set (s, false) out = next s out

  unfoldable pub run_round : Round → Bool → (ℕ → Bool) → Server → List Output → Next
  unfolding start_modbus started finish_round
  run_round r positive set s out =
      if is_running s.session && not (is_mapped s.session.mb_mapping)
      then started r positive set (start_modbus r s) out
      else finish_round r positive set s out

  unfoldable pub commands : List Command.Output → List Output
  commands [] = []
  commands (x ∷ xs) = command x ∷ commands xs

  unfoldable pub after_input : Round → Bool → (ℕ → Bool) → Server → Command.Effect → Option Next
  unfolding run_round commands
  after_input r positive set s none = none
  after_input r positive set s (some (session, out)) =
      some (run_round r positive set (record s { session = session }) (commands out))

  unfoldable pub after_select : Selected → Round → Server → Option Next
  unfolding read_stdin after_input
  after_select select_failed r s = some (leave s [])
  after_select select_terminated r s = some (next (record s { session = stopped s.session }) [])
  after_select select_interrupted r s = some (next s [])
  after_select (selected positive set) r s =
      after_input r positive set s (read_stdin r set s.session)

  -- One round of the loop; `none` is a fault.
  unfoldable pub round : Round → Server → Option Next
  unfolding after_select
  round r s = after_select r.select r s

  -- After the loop.
  unfoldable pub exit_server : Server → Server
  unfolding clean_up
  exit_server s = if is_mapped s.session.mb_mapping then clean_up s else s

  unfoldable pub end_program : Server → Progress
  unfolding exit_server
  end_program s = ended (exit_server s) (exited ∷ [])

  -- `rest` is the loop from the next round on.
  unfoldable pub after_round : (Server → Progress) → Option Next → Progress
  unfolding end_program
  after_round rest none = fault
  after_round rest (some (leave t out)) = printed out (end_program t)
  after_round rest (some (next t out)) = printed out (rest t)

  unfoldable pub main_loop : List Round → Server → Progress
  unfolding round after_round end_program
  main_loop [] s = if s.session.running then in_loop s [] else end_program s
  main_loop (r ∷ rounds) s =
      let go_on = after_round (main_loop rounds) (round r s) in
      if s.session.running then go_on else end_program s
