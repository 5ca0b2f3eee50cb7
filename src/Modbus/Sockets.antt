-- ===== src/Modbus/Sockets.antt =====
-- The slots hold exactly the client sockets that are open, and are counted.
use iec104_server_and_modbus.Base.{
  ℕ, zero, suc, replicate, ◌+◌, ◌-◌, ◌≤◌, ◌≡◌, refl, ap, sym, ◌∙◌, Bool, Option, none, some, List,
  [], ◌∷◌, length, set, length-set, ◌==◌, if◌then◌else◌, arith, Option-cases, Bool-cases, inl, inr,
}
use iec104_server_and_modbus.Modbus.Registers.{Mapping}
use iec104_server_and_modbus.Modbus.Clients.{
  Clients, no_clients, Received, request, nothing, failed, close, find_free_tcp_client_slot,
  accept_at, accept_client, Serving, serve_client, serve_slot, serve_clients, close_sockets,
  close_clients,
}

-- How often a descriptor occurs among open sockets, and in the slots.
unfoldable pub times : ℕ → List ℕ → ℕ
times fd [] = 0
times fd (x ∷ xs) = (if x == fd then 1 else 0) + times fd xs

unfoldable pub held : ℕ → List (Option ℕ) → ℕ
held fd [] = 0
held fd (none ∷ socks) = held fd socks
held fd (some x ∷ socks) = (if x == fd then 1 else 0) + held fd socks

unfoldable pub occupied : List (Option ℕ) → ℕ
occupied [] = 0
occupied (none ∷ socks) = occupied socks
occupied (some x ∷ socks) = 1 + occupied socks

pub record IsTable (c : Clients) : Type 0 where
  pub size : length c.tcp_conn_socks ≡ 10
  pub counted : c.tcp_conn_count ≡ occupied c.tcp_conn_socks
  pub owned : (fd : ℕ) → held fd c.tcp_conn_socks ≡ times fd c.open_socks

times-close :
    (fd x : ℕ) (xs : List ℕ) → times fd (close x xs) ≡ times fd xs - (if x == fd then 1 else 0)
unfolding times close
times-close fd x [] = ground arith
times-close fd x (y ∷ xs) = ground (arith, times-close fd x xs)

occupied-le : (socks : List (Option ℕ)) → occupied socks ≤ length socks
unfolding occupied
occupied-le [] = omega arith
occupied-le (none ∷ socks) = omega (arith, occupied-le socks)
occupied-le (some x ∷ socks) = omega (arith, occupied-le socks)

-- A free slot that is filled.
module _ (x : ℕ) where
  held-free :
      (fd : ℕ) (socks : List (Option ℕ)) (k : ℕ)
      → find_free_tcp_client_slot socks ≡ some k
      → held fd (set socks k (some x)) ≡ (if x == fd then 1 else 0) + held fd socks
  unfolding held find_free_tcp_client_slot
  held-free fd [] k e = ground arith
  held-free fd (none ∷ socks) k e = ground arith
  held-free fd (some y ∷ socks) k e = elim (Option-cases (find_free_tcp_client_slot socks)) [
    | inl n ↦ absurd (ground arith)
    | inr (i, g) ↦ ground (arith, held-free fd socks i g)
  ]

  occupied-free :
      (socks : List (Option ℕ)) (k : ℕ)
      → find_free_tcp_client_slot socks ≡ some k
      → occupied (set socks k (some x)) ≡ 1 + occupied socks
  unfolding occupied find_free_tcp_client_slot
  occupied-free [] k e = ground arith
  occupied-free (none ∷ socks) k e = ground arith
  occupied-free (some y ∷ socks) k e = elim (Option-cases (find_free_tcp_client_slot socks)) [
    | inl n ↦ absurd (ground arith)
    | inr (i, g) ↦ ground (arith, occupied-free socks i g)
  ]

pub accept_client-IsTable :
    (accepted : Option ℕ) (c : Clients) → IsTable c → IsTable (accept_client accepted c)
unfolding accept_client times close
accept_client-IsTable accepted c t = go (find_free_tcp_client_slot c.tcp_conn_socks) accepted refl
  where
    go :
        (slot accepted : Option ℕ)
        → find_free_tcp_client_slot c.tcp_conn_socks ≡ slot
        → IsTable (accept_at slot accepted c)
    go none none e = t
    go (some k) none e = t
    go none (some x) e = record {
      size = t.size;
      counted = t.counted;
      owned = λ fd. ground (arith, t.owned fd);
    }
    go (some k) (some x) e = record {
      size = length-set c.tcp_conn_socks k (some x) ∙ t.size;
      counted = omega (
        arith,
        occupied-free x c.tcp_conn_socks k e,
        t.counted,
        occupied-le c.tcp_conn_socks,
        t.size,
      );
      owned = λ fd. ground (arith, held-free x fd c.tcp_conn_socks k e, t.owned fd);
    }

held-cons :
    (fd : ℕ) (x : Option ℕ) (socks : List (Option ℕ))
    → held fd (x ∷ socks) ≡ held fd (x ∷ []) + held fd socks
unfolding held
held-cons fd none socks = omega arith
held-cons fd (some x) socks = omega arith

occupied-cons :
    (x : Option ℕ) (socks : List (Option ℕ))
    → occupied (x ∷ socks) ≡ occupied (x ∷ []) + occupied socks
unfolding occupied
occupied-cons none socks = omega arith
occupied-cons (some x) socks = omega arith

-- Data of one client: what leaves the slot is closed, and counted.
serve_client-held :
    (fd x : ℕ) (r : Received) (s : Serving)
    → held fd (some x ∷ []) ≤ times fd s.sockets
    → times fd (serve_client r x s).1.sockets + held fd (some x ∷ [])
      ≡ times fd s.sockets + held fd ((serve_client r x s).0 ∷ [])
unfolding serve_client held
serve_client-held fd x (request reply) s h = refl
serve_client-held fd x nothing s h = refl
serve_client-held fd x failed s h = ground (arith, times-close fd x s.sockets)

serve_client-count :
    (x : ℕ) (r : Received) (s : Serving)
    → 1 ≤ s.count
    → s.count ≤ 10
    → (serve_client r x s).1.count + 1 ≡ s.count + occupied ((serve_client r x s).0 ∷ [])
unfolding serve_client occupied
serve_client-count x (request reply) s some_clients few = omega arith
serve_client-count x nothing s some_clients few = omega arith
serve_client-count x failed s some_clients few = omega arith

module _ (ready : ℕ → Bool) (received : ℕ → Received) where
  serve_slot-held :
      (fd : ℕ) (x : Option ℕ) (s : Serving)
      → held fd (x ∷ []) ≤ times fd s.sockets
      → times fd (serve_slot ready received x s).1.sockets + held fd (x ∷ [])
        ≡ times fd s.sockets + held fd ((serve_slot ready received x s).0 ∷ [])
  unfolding serve_slot
  serve_slot-held fd none s h = refl
  serve_slot-held fd (some x) s h = elim (Bool-cases (ready x)) [
    | inl set ↦ rw set (serve_client-held fd x (received x) s h)
    | inr unset ↦ rw unset refl
  ]

  serve_slot-count :
      (x : Option ℕ) (s : Serving)
      → occupied (x ∷ []) ≤ s.count
      → s.count ≤ 10
      → (serve_slot ready received x s).1.count + occupied (x ∷ [])
        ≡ s.count + occupied ((serve_slot ready received x s).0 ∷ [])
  unfolding serve_slot occupied
  serve_slot-count none s h few = refl
  serve_slot-count (some x) s h few = elim (Bool-cases (ready x)) [
    | inl set ↦ rw set (serve_client-count x (received x) s (omega arith) few)
    | inr unset ↦ rw unset refl
  ]

  serve_slot-occupied-le :
      (x : Option ℕ) (s : Serving)
      → occupied ((serve_slot ready received x s).0 ∷ []) ≤ occupied (x ∷ [])
  unfolding serve_slot serve_client occupied
  serve_slot-occupied-le none s = omega arith
  serve_slot-occupied-le (some x) s = occupied-le-one (serve_slot ready received (some x) s).0
    where
      occupied-le-one : (y : Option ℕ) → occupied (y ∷ []) ≤ 1
      occupied-le-one none = omega arith
      occupied-le-one (some y) = omega arith

  length-serve_clients :
      (socks : List (Option ℕ)) (s : Serving)
      → length (serve_clients ready received socks s).0 ≡ length socks
  unfolding serve_clients
  length-serve_clients [] s = refl
  length-serve_clients (x ∷ socks) s = ap suc (length-serve_clients socks _)

  held-serve_clients :
      (fd : ℕ) (socks : List (Option ℕ)) (s : Serving)
      → held fd socks ≤ times fd s.sockets
      → times fd (serve_clients ready received socks s).1.sockets + held fd socks
        ≡ times fd s.sockets + held fd (serve_clients ready received socks s).0
  unfolding serve_clients
  held-serve_clients fd [] s h = refl
  held-serve_clients fd (x ∷ socks) s h =
      let t = serve_slot ready received x s in
      let whole = held-cons fd x socks in
      let one = serve_slot-held fd x s (omega (arith, whole)) in
      let rest = held-serve_clients fd socks t.1 (omega (arith, whole, one)) in
      omega (arith, whole, one, rest, held-cons fd t.0 (serve_clients ready received socks t.1).0)

  count-serve_clients :
      (socks : List (Option ℕ)) (s : Serving)
      → occupied socks ≤ s.count
      → s.count ≤ 10
      → (serve_clients ready received socks s).1.count + occupied socks
        ≡ s.count + occupied (serve_clients ready received socks s).0
  unfolding serve_clients
  count-serve_clients [] s h few = refl
  count-serve_clients (x ∷ socks) s h few =
      let t = serve_slot ready received x s in
      let whole = occupied-cons x socks in
      let one = serve_slot-count x s (omega (arith, whole)) few in
      let rest =
        count-serve_clients socks t.1 (omega (arith, whole, one))
          (omega (arith, one, serve_slot-occupied-le x s)) in
      omega (arith, whole, one, rest, occupied-cons t.0 (serve_clients ready received socks t.1).0)

  pub serve_clients-IsTable :
      (c : Clients) (m : Option Mapping)
      → IsTable c
      → let s : Serving = record {
        mapping = m;
        count = c.tcp_conn_count;
        sockets = c.open_socks;
      } in
        let r = serve_clients ready received c.tcp_conn_socks s in
        IsTable
          (record { tcp_conn_socks = r.0; tcp_conn_count = r.1.count; open_socks = r.1.sockets })
  serve_clients-IsTable c m t =
      let s : Serving = record { mapping = m; count = c.tcp_conn_count; sockets = c.open_socks } in
      record {
        size = length-serve_clients c.tcp_conn_socks s ∙ t.size;
        counted = omega (
          arith,
          t.counted,
          t.size,
          occupied-le c.tcp_conn_socks,
          count-serve_clients c.tcp_conn_socks s (omega (arith, t.counted))
              (omega (arith, t.counted, t.size, occupied-le c.tcp_conn_socks)),
        );
        owned = λ fd. omega (
          arith,
          t.owned fd,
          held-serve_clients fd c.tcp_conn_socks s (omega (arith, t.owned fd)),
        );
      }

-- The loop that closes all clients closes every open socket.
times-close_sockets :
    (fd : ℕ) (socks : List (Option ℕ)) (sockets : List ℕ)
    → times fd (close_sockets socks sockets) ≡ times fd sockets - held fd socks
unfolding close_sockets held
times-close_sockets fd [] sockets = omega arith
times-close_sockets fd (none ∷ socks) sockets = times-close_sockets fd socks sockets
times-close_sockets fd (some x ∷ socks) sockets =
    omega (arith, times-close fd x sockets, times-close_sockets fd socks (close x sockets))

times_all-zero : (xs : List ℕ) → ((fd : ℕ) → times fd xs ≡ 0) → xs ≡ []
unfolding times
times_all-zero [] h = refl
times_all-zero (x ∷ xs) h = absurd (ground (arith, h x))

pub open-close_clients : (c : Clients) → IsTable c → (close_clients c).open_socks ≡ []
unfolding close_clients
open-close_clients c t =
    times_all-zero (close_sockets c.tcp_conn_socks c.open_socks)
      (λ fd. omega (arith, t.owned fd, times-close_sockets fd c.tcp_conn_socks c.open_socks))

-- A table of empty slots.
held-replicate : (fd n : ℕ) → held fd (replicate n none) ≡ 0
unfolding held
held-replicate fd zero = refl
held-replicate fd (suc n) = held-replicate fd n

occupied-replicate : (n : ℕ) → occupied (replicate n none) ≡ 0
unfolding occupied
occupied-replicate zero = refl
occupied-replicate (suc n) = occupied-replicate n

pub empty-IsTable :
    IsTable (record { tcp_conn_socks = no_clients; tcp_conn_count = 0; open_socks = [] })
unfolding times
empty-IsTable = record {
  size = refl;
  counted = sym (occupied-replicate 10);
  owned = λ fd. held-replicate fd 10;
}
