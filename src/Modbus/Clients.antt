-- ===== src/Modbus/Clients.antt =====
-- The table of TCP clients of modbus-server/json-modbus-server.c: a socket is its descriptor, and a
-- slot is empty where the source has -1.
use iec104_server_and_modbus.Base.{
  ℕ, suc, Bool, Option, none, some, List, [], ◌∷◌, set, replicate, ◌==◌, if◌then◌else◌, add_int,
}
use iec104_server_and_modbus.Modbus.Registers.{Mapping}

abbrev pub max_tcp_clients : ℕ
max_tcp_clients = 10

-- What `modbus_receive` returned on a socket, and what `modbus_reply` then did to the mapping.
pub data Received : Type 0 where
  request : (Mapping → Mapping) → Received
  nothing : Received
  failed : Received

-- The slots and their count, and, of the operating system, the accepted sockets that are open.
pub record Clients : Type 0 where
  pub tcp_conn_socks : List (Option ℕ)
  pub tcp_conn_count : ℕ
  pub open_socks : List ℕ

abbrev pub no_clients : List (Option ℕ)
no_clients = replicate max_tcp_clients none

-- `close`: the descriptor is free again.
unfoldable pub close : ℕ → List ℕ → List ℕ
close fd [] = []
close fd (x ∷ xs) = if x == fd then xs else x ∷ close fd xs

unfoldable pub find_free_tcp_client_slot : List (Option ℕ) → Option ℕ
find_free_tcp_client_slot [] = none
find_free_tcp_client_slot (none ∷ socks) = some 0
find_free_tcp_client_slot (some fd ∷ socks) = elim (find_free_tcp_client_slot socks) [
  | none ↦ none
  | some slot ↦ some (suc slot)
]

-- A new connection; `accepted` is the result of `modbus_tcp_accept`.
unfoldable pub accept_at : Option ℕ → Option ℕ → Clients → Clients
accept_at slot none c = c
accept_at none (some temp_sock) c = record c {
  open_socks = close temp_sock (temp_sock ∷ c.open_socks);
}
accept_at (some slot) (some new_conn) c = record {
  tcp_conn_socks = set c.tcp_conn_socks slot (some new_conn);
  tcp_conn_count = add_int c.tcp_conn_count 1;
  open_socks = new_conn ∷ c.open_socks;
}

unfoldable pub accept_client : Option ℕ → Clients → Clients
unfolding accept_at find_free_tcp_client_slot close
accept_client accepted c = accept_at (find_free_tcp_client_slot c.tcp_conn_socks) accepted c

-- The mapping after a reply; without a mapping `modbus_reply` fails.
abbrev pub replied : (Mapping → Mapping) → Option Mapping → Option Mapping
replied reply none = none
replied reply (some m) = some (reply m)

-- What the loop over the slots changes beside them.
pub record Serving : Type 0 where
  pub mapping : Option Mapping
  pub count : ℕ
  pub sockets : List ℕ

-- Data of a client: the slot, and the rest.
unfoldable pub serve_client : Received → ℕ → Serving → Option ℕ × Serving
unfolding close
serve_client (request reply) fd s = (some fd, record s { mapping = replied reply s.mapping })
serve_client nothing fd s = (some fd, s)
serve_client failed fd s =
    (none, record s { count = add_int s.count 0xffff_ffff; sockets = close fd s.sockets })

unfoldable pub serve_slot : (ℕ → Bool) → (ℕ → Received) → Option ℕ → Serving → Option ℕ × Serving
unfolding serve_client
serve_slot ready received none s = (none, s)
serve_slot ready received (some fd) s =
    if ready fd then serve_client (received fd) fd s else (some fd, s)

-- The loop over the slots; `ready` is `FD_ISSET`.
unfoldable pub serve_clients :
    (ℕ → Bool) → (ℕ → Received) → List (Option ℕ) → Serving → List (Option ℕ) × Serving
unfolding serve_slot
serve_clients ready received [] s = ([], s)
serve_clients ready received (x ∷ socks) s =
    let (x', s') = serve_slot ready received x s in
    let (rest, t) = serve_clients ready received socks s' in (x' ∷ rest, t)

-- The loop that closes all clients.
unfoldable pub close_sockets : List (Option ℕ) → List ℕ → List ℕ
unfolding close
close_sockets [] sockets = sockets
close_sockets (none ∷ socks) sockets = close_sockets socks sockets
close_sockets (some fd ∷ socks) sockets = close_sockets socks (close fd sockets)

unfoldable pub emptied : List (Option ℕ) → List (Option ℕ)
emptied [] = []
emptied (x ∷ socks) = none ∷ emptied socks

unfoldable pub close_clients : Clients → Clients
unfolding close_sockets emptied
close_clients c = record {
  tcp_conn_socks = emptied c.tcp_conn_socks;
  tcp_conn_count = 0;
  open_socks = close_sockets c.tcp_conn_socks c.open_socks;
}
