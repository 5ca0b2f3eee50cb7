-- ===== src/Client/Registry.antt =====
-- The client table keeps each connection once, and counts the connections that it holds.
use iec104_server_and_modbus.Base.{
  ℕ, suc, ◌+◌, ◌≤◌, ◌≡◌, refl, ap, ◌∙◌, inl, inr, Bool, true, false, List, [], ◌∷◌, map, length,
  ltb, ◌==◌, if◌then◌else◌, arith, Bool-cases,
}
use iec104_server_and_modbus.Client.{
  ConnectedClient, ClientManager, empty_slot, client_manager_init, is_known, new_client, take_slot,
  add_client, free_slot, remove_client, PeerConnectionEvent, connection_opened, connection_closed,
  activated, deactivated, client_connection_event_handler, listed, client_manager_get_clients_json,
}

-- How many slots are active.
pub active : List ConnectedClient → ℕ
active [] = 0
active (c ∷ cs) = (if c.is_active then 1 else 0) + active cs

-- No two active slots have the same connection.
abbrev pub IsDistinct : List ConnectedClient → Type 0
IsDistinct [] = Unit {0}
IsDistinct (c ∷ cs) = (c.is_active ≡ true → is_known c.connection cs ≡ false) × IsDistinct cs

pub record IsValid (m : ClientManager) : Type 0 where
  pub size : length m.clients ≡ 10
  pub counted : m.client_count ≡ active m.clients
  pub distinct : IsDistinct m.clients

active-le : (cs : List ConnectedClient) → active cs ≤ length cs
unfolding active
active-le [] = omega arith
active-le (c ∷ cs) = ground (arith, active-le cs)

module _ (new : ConnectedClient) (on : new.is_active ≡ true) where
  length-take_slot : (cs : List ConnectedClient) → length (take_slot new cs).0 ≡ length cs
  unfolding take_slot
  length-take_slot [] = refl
  length-take_slot (c ∷ cs) = ground (arith, length-take_slot cs)

  active-take_slot :
      (cs : List ConnectedClient)
      → active (take_slot new cs).0 ≡ active cs + (if (take_slot new cs).1 then 1 else 0)
  unfolding take_slot active
  active-take_slot [] = omega arith
  active-take_slot (c ∷ cs) = ground (arith, active-take_slot cs)

  is_known-take_slot :
      (k : ℕ) (cs : List ConnectedClient)
      → is_known k (take_slot new cs).0 ≡ (
          if is_known k cs
          then true
          else if (take_slot new cs).1
          then new.connection == k
          else false)
  unfolding take_slot is_known
  is_known-take_slot k [] = refl
  is_known-take_slot k (c ∷ cs) = ground (arith, is_known-take_slot k cs)

  take_slot-IsDistinct :
      (cs : List ConnectedClient)
      → is_known new.connection cs ≡ false
      → IsDistinct cs
      → IsDistinct (take_slot new cs).0
  unfolding take_slot is_known
  take_slot-IsDistinct [] k d = tt
  take_slot-IsDistinct (c ∷ cs) k d =
      ground (arith, is_known-take_slot c.connection cs, take_slot-IsDistinct cs)

module _ (k : ℕ) where
  length-free_slot : (cs : List ConnectedClient) → length (free_slot k cs).0 ≡ length cs
  unfolding free_slot
  length-free_slot [] = refl
  length-free_slot (c ∷ cs) = ground (arith, length-free_slot cs)

  active-free_slot :
      (cs : List ConnectedClient)
      → active (free_slot k cs).0 + (if (free_slot k cs).1 then 1 else 0) ≡ active cs
  unfolding free_slot active
  active-free_slot [] = omega arith
  active-free_slot (c ∷ cs) = ground (arith, active-free_slot cs)

  is_known-free_slot-le :
      (j : ℕ) (cs : List ConnectedClient)
      → is_known j cs ≡ false
      → is_known j (free_slot k cs).0 ≡ false
  unfolding free_slot is_known
  is_known-free_slot-le j [] h = refl
  is_known-free_slot-le j (c ∷ cs) h = ground (arith, is_known-free_slot-le j cs)

  free_slot-IsDistinct : (cs : List ConnectedClient) → IsDistinct cs → IsDistinct (free_slot k cs).0
  unfolding free_slot
  free_slot-IsDistinct [] d = tt
  free_slot-IsDistinct (c ∷ cs) d =
      ground (arith, is_known-free_slot-le c.connection cs, free_slot-IsDistinct cs)

  -- In a table without repetition, a removal forgets its connection and no other.
  is_known-free_slot :
      (j : ℕ) (cs : List ConnectedClient)
      → IsDistinct cs
      → is_known j (free_slot k cs).0 ≡ (if j == k then false else is_known j cs)
  unfolding free_slot is_known
  is_known-free_slot j [] d = ground arith
  is_known-free_slot j (c ∷ cs) d = ground (arith, is_known-free_slot j cs)

take_slot-room :
    (new : ConnectedClient) (cs : List ConnectedClient)
    → (take_slot new cs).1 ≡ ltb (active cs) (length cs)
unfolding take_slot active
take_slot-room new [] = refl
take_slot-room new (c ∷ cs) = ground (arith, take_slot-room new cs, active-le cs)

-- `client_manager_init` makes the table valid and empty, unless it was initialised before.
pub client_manager_init-IsValid :
    (m : ClientManager)
    → length m.clients ≡ 10
    → m.initialized ≡ false
    → IsValid (client_manager_init m)
unfolding client_manager_init active
client_manager_init-IsValid m n off = rw off (record {
  size = blank_length m.clients ∙ n;
  counted = blank_active m.clients;
  distinct = blank_distinct m.clients;
})
  where
    blank_length : (cs : List ConnectedClient) → length (map (λ _. empty_slot) cs) ≡ length cs
    blank_length [] = refl
    blank_length (c ∷ cs) = ap suc (blank_length cs)

    blank_active : (cs : List ConnectedClient) → 0 ≡ active (map (λ _. empty_slot) cs)
    blank_active [] = refl
    blank_active (c ∷ cs) = omega (arith, blank_active cs)

    blank_distinct : (cs : List ConnectedClient) → IsDistinct (map (λ _. empty_slot) cs)
    blank_distinct [] = tt
    blank_distinct (c ∷ cs) = (λ on. cc, blank_distinct cs)

add_client-IsValid :
    (k : ℕ) (ip : List ℕ) (now : ℕ) (m : ClientManager)
    → IsValid m
    → IsValid (add_client k ip now m)
unfolding add_client
add_client-IsValid k ip now m v = elim (Bool-cases (is_known k m.clients)) [
  | inl known ↦ rw known v
  | inr new ↦ rw new (record {
    size = length-take_slot (new_client k ip now) refl m.clients ∙ v.size;
    counted = ground (
      arith,
      active-take_slot (new_client k ip now) refl m.clients,
      active-le m.clients,
      v.size,
      v.counted,
    );
    distinct = take_slot-IsDistinct (new_client k ip now) refl m.clients new v.distinct;
  })
]

remove_client-IsValid : (k : ℕ) (m : ClientManager) → IsValid m → IsValid (remove_client k m)
unfolding remove_client
remove_client-IsValid k m v = record {
  size = length-free_slot k m.clients ∙ v.size;
  counted = ground (arith, active-free_slot k m.clients, active-le m.clients, v.size, v.counted);
  distinct = free_slot-IsDistinct k m.clients v.distinct;
}

-- Every connection event keeps the table of 10 slots, the count equal to the number of active
-- slots, and each connection in one active slot at most.
pub client_connection_event_handler-IsValid :
    (k : ℕ) (event : PeerConnectionEvent) (ip : List ℕ) (now : ℕ) (m : ClientManager)
    → IsValid m
    → IsValid (client_connection_event_handler k event ip now m)
unfolding client_connection_event_handler
client_connection_event_handler-IsValid k connection_opened ip now m v =
    add_client-IsValid k ip now m v
client_connection_event_handler-IsValid k connection_closed ip now m v = remove_client-IsValid k m v
client_connection_event_handler-IsValid k activated ip now m v = v
client_connection_event_handler-IsValid k deactivated ip now m v = v

-- The registry as a set of at most 10 connections: whether `j` is in it after an event of `k`, if
-- `known` tells whether it was before, and `count` connections were.
pub known_after : PeerConnectionEvent → ℕ → ℕ → Bool → ℕ → Bool
known_after connection_opened k j known count =
    if known then true else if ltb count 10 then k == j else false
known_after connection_closed k j known count = if j == k then false else known
known_after activated k j known count = known
known_after deactivated k j known count = known

-- A valid table behaves as that set: an opened connection is added if there is room and is dropped
-- otherwise, a closed one is forgotten, and no other connection is touched.
pub client_connection_event_handler_refines :
    (k j : ℕ) (event : PeerConnectionEvent) (ip : List ℕ) (now : ℕ) (m : ClientManager)
    → IsValid m
    → is_known j (client_connection_event_handler k event ip now m).clients
      ≡ known_after event k j (is_known j m.clients) m.client_count
unfolding client_connection_event_handler known_after
client_connection_event_handler_refines k j connection_opened ip now m v = ground (
  arith,
  is_known-take_slot (new_client k ip now) refl j m.clients,
  take_slot-room (new_client k ip now) m.clients,
  v.size,
  v.counted,
)
client_connection_event_handler_refines k j connection_closed ip now m v =
    is_known-free_slot k j m.clients v.distinct
client_connection_event_handler_refines k j activated ip now m v = refl
client_connection_event_handler_refines k j deactivated ip now m v = refl

length-listed : (cs : List ConnectedClient) → length (listed cs) ≡ active cs
unfolding listed active
length-listed [] = refl
length-listed (c ∷ cs) = ground (arith, length-listed cs)

-- The answer to `get_connected_clients` has as many clients as its count says, and at most 10.
pub client_manager_get_clients_json_count :
    (m : ClientManager)
    → IsValid m
    → (length (client_manager_get_clients_json m).0 ≡ (client_manager_get_clients_json m).1)
      × ((client_manager_get_clients_json m).1 ≤ 10)
unfolding client_manager_get_clients_json
client_manager_get_clients_json_count m v =
    omega (arith, length-listed m.clients, active-le m.clients, v.size, v.counted)
