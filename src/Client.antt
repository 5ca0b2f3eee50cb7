-- ===== src/Client.antt =====
-- json-iec104-server/src/client/client_manager.h and client_manager.c: the table of connected
-- clients. A connection is the number of its pointer, 0 for NULL. The mutex makes each call one
-- step; the peer's address and the time are arguments. Addresses keep the bytes that fit.
pub mod Registry
use iec104_server_and_modbus.Base.{
  ℕ, zero, suc, ◌+◌, ◌-◌, ◌%◌, ◌^◌, Bool, true, false, not, ◌&&◌, List, [], ◌∷◌, map, replicate,
  take, ◌==◌, if◌then◌else◌, add_int,
}

abbrev pub max_clients : ℕ
max_clients = 10

-- `ip_address` is the text before the terminating 0.
pub record ConnectedClient : Type 0 where
  pub ip_address : List ℕ
  pub connection : ℕ
  pub connect_time : ℕ
  pub is_active : Bool

-- `client_count` is the pattern of an `int`.
pub record ClientManager : Type 0 where
  pub clients : List ConnectedClient
  pub client_count : ℕ
  pub initialized : Bool

abbrev pub empty_slot : ConnectedClient
empty_slot = record { ip_address = []; connection = 0; connect_time = 0; is_active = false }

-- Static storage starts as zero bytes.
abbrev pub start : ClientManager
start = record { clients = replicate max_clients empty_slot; client_count = 0; initialized = false }

unfoldable pub client_manager_init : ClientManager → ClientManager
client_manager_init m =
    if m.initialized
    then m
    else record { clients = map (λ _. empty_slot) m.clients; client_count = 0; initialized = true }

abbrev pub vacate : ConnectedClient → ConnectedClient
vacate c = record c { is_active = false; connection = 0 }

unfoldable pub client_manager_cleanup : ClientManager → ClientManager
client_manager_cleanup m =
    if m.initialized
    then record { clients = map vacate m.clients; client_count = 0; initialized = false }
    else m

abbrev pub is_client : ℕ → ConnectedClient → Bool
is_client connection c = c.is_active && c.connection == connection

unfoldable pub is_known : ℕ → List ConnectedClient → Bool
is_known connection [] = false
is_known connection (c ∷ cs) = if is_client connection c then true else is_known connection cs

-- `strncpy` of at most 127 bytes, and the terminating 0.
abbrev pub new_client : ℕ → List ℕ → ℕ → ConnectedClient
new_client connection ip now = record {
  ip_address = take 127 ip;
  connection = connection;
  connect_time = now;
  is_active = true;
}

-- The slots after the first empty one is taken, and whether there was one.
unfoldable pub take_slot : ConnectedClient → List ConnectedClient → List ConnectedClient × Bool
take_slot new [] = ([], false)
take_slot new (c ∷ cs) =
    let (rest, found) = take_slot new cs in
    if not c.is_active then (new ∷ cs, true) else (c ∷ rest, found)

unfoldable pub add_client : ℕ → List ℕ → ℕ → ClientManager → ClientManager
unfolding is_known take_slot
add_client connection ip now m =
    let (slots, found) = take_slot (new_client connection ip now) m.clients in
    if is_known connection m.clients then m else record m {
      clients = slots;
      client_count = if found then add_int m.client_count 1 else m.client_count;
    }

unfoldable pub free_slot : ℕ → List ConnectedClient → List ConnectedClient × Bool
free_slot connection [] = ([], false)
free_slot connection (c ∷ cs) =
    let (rest, found) = free_slot connection cs in
    if is_client connection c then (vacate c ∷ cs, true) else (c ∷ rest, found)

-- `client_count--` wraps as an `int` pattern.
unfoldable pub remove_client : ℕ → ClientManager → ClientManager
unfolding free_slot
remove_client connection m =
    let (slots, found) = free_slot connection m.clients in
    record m {
      clients = slots;
      client_count = if found then add_int m.client_count 0xffff_ffff else m.client_count;
    }

-- enum CS104_PeerConnectionEvent
pub data PeerConnectionEvent : Type 0 where
  connection_opened connection_closed activated deactivated : PeerConnectionEvent

unfoldable pub client_connection_event_handler :
    ℕ → PeerConnectionEvent → List ℕ → ℕ → ClientManager → ClientManager
unfolding add_client remove_client
client_connection_event_handler connection connection_opened ip now m =
    add_client connection ip now m
client_connection_event_handler connection connection_closed ip now m = remove_client connection m
client_connection_event_handler connection activated ip now m = m
client_connection_event_handler connection deactivated ip now m = m

listed : List ConnectedClient → List (List ℕ × ℕ)
listed [] = []
listed (c ∷ cs) = if c.is_active then (c.ip_address, c.connect_time) ∷ listed cs else listed cs

-- The answer of `get_connected_clients`: the address and the time of each client, and the count.
unfoldable pub client_manager_get_clients_json : ClientManager → List (List ℕ × ℕ) × ℕ
unfolding listed
client_manager_get_clients_json m = (listed m.clients, m.client_count)
