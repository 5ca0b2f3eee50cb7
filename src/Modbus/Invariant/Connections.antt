-- ===== src/Modbus/Invariant/Connections.antt =====
-- The connections of the Modbus server keep it sound.
use iec104_server_and_modbus.Base.{
  ℕ, ◌≡◌, refl, sym, ◌∙◌, Bool, true, false, not, ◌&&◌, Option, none, some, List, [], ◌∷◌, if_intro,
  if_split, &&_left, Bool-cases, inl, inr,
}
use iec104_server_and_modbus.Cfloat.{FloatUnit}
use iec104_server_and_modbus.Cjson.{Cjson}
use iec104_server_and_modbus.Modbus.Registers.{Mapping}
use iec104_server_and_modbus.Modbus.Settings.{Settings}
use iec104_server_and_modbus.Modbus.Clients.{
  Clients, Received, request, nothing, failed, accept_client, replied, Serving, serve_slot,
  serve_client, serve_clients,
}
use iec104_server_and_modbus.Modbus.Sockets.{IsTable, accept_client-IsTable, serve_clients-IsTable}
use iec104_server_and_modbus.Modbus.Server.{
  Round, Server, is_running, is_mapped, with_mapping, is_set, accept_connections, handle_clients,
  receive_rtu, handle_rtu, reconnect_rtu, handle_connections,
}
use iec104_server_and_modbus.Modbus.Update.{ServesAny}
use iec104_server_and_modbus.Modbus.Invariant.{IsSound, IsReply, IsRound}

replied-ServesAny :
    (c : Settings) (reply : Mapping → Mapping) (m : Option Mapping)
    → IsReply c (request reply)
    → ServesAny c m
    → ServesAny c (replied reply m)
replied-ServesAny c reply none h v = tt
replied-ServesAny c reply (some m) h v = h m v

is_mapped-replied :
    (reply : Mapping → Mapping) (m : Option Mapping) → is_mapped (replied reply m) ≡ is_mapped m
is_mapped-replied reply none = refl
is_mapped-replied reply (some m) = refl

-- The loop over the slots keeps the mapping.
module _ (c : Settings) (ready : ℕ → Bool) (received : ℕ → Received)
    (replies : (fd : ℕ) → IsReply c (received fd)) where
  abbrev MapKept : Option Mapping → Option Mapping → Type 0
  MapKept m m' = ServesAny c m' × (is_mapped m' ≡ is_mapped m)

  serve_client-MapKept :
      (fd : ℕ) (r : Received) (s : Serving)
      → IsReply c r
      → ServesAny c s.mapping
      → MapKept s.mapping (serve_client r fd s).1.mapping
  unfolding serve_client
  serve_client-MapKept fd (request reply) s h v =
      (replied-ServesAny c reply s.mapping h v, is_mapped-replied reply s.mapping)
  serve_client-MapKept fd nothing s h v = (v, refl)
  serve_client-MapKept fd failed s h v = (v, refl)

  serve_slot-MapKept :
      (x : Option ℕ) (s : Serving)
      → ServesAny c s.mapping
      → MapKept s.mapping (serve_slot ready received x s).1.mapping
  unfolding serve_slot
  serve_slot-MapKept none s v = (v, refl)
  serve_slot-MapKept (some fd) s v = elim (Bool-cases (ready fd)) [
    | inl set ↦ rw set (serve_client-MapKept fd (received fd) s (replies fd) v)
    | inr unset ↦ rw unset (v, refl)
  ]

  serve_clients-MapKept :
      (socks : List (Option ℕ)) (s : Serving)
      → ServesAny c s.mapping
      → MapKept s.mapping (serve_clients ready received socks s).1.mapping
  unfolding serve_clients
  serve_clients-MapKept [] s v = (v, refl)
  serve_clients-MapKept (x ∷ socks) s v =
      let one = serve_slot-MapKept x s v in
      let rest = serve_clients-MapKept socks (serve_slot ready received x s).1 one.0 in
      (rest.0, rest.1 ∙ one.1)

module _ (f : FloatUnit) (j : Cjson) (c : Settings) where
  -- Sound, with a mapping.
  abbrev pub Live : Server → Type 0
  Live s = IsSound c s × (is_mapped s.session.mb_mapping ≡ true)

  remapped-Live :
      (s : Server) (m : Option Mapping)
      → Live s
      → ServesAny c m
      → is_mapped m ≡ is_mapped s.session.mb_mapping
      → Live (with_mapping f j c m s)
  remapped-Live s m (h, live) v e = (
    record {
      session = record { state = h.session.state; serves = v; mapped = refl };
      table = λ on _. h.table on live;
      unmapped =
          λ off. absurd (let off' : is_mapped s.session.mb_mapping ≡ false = sym e ∙ off in cc);
      no_tcp = h.no_tcp;
    },
    e ∙ live,
  )

  -- A table of clients, where TCP is on.
  retabled-Live :
      (s : Server) (t : Clients)
      → Live s
      → c.enable_tcp ≡ true
      → IsTable t
      → Live (record s { clients = t })
  retabled-Live s t (h, live) on table = (
    record {
      session = h.session;
      table = λ _ _. table;
      unmapped = λ off. absurd (cc);
      no_tcp = λ off. absurd (cc);
    },
    live,
  )

  rtu-Live : (s : Server) (ctx : Bool) → Live s → Live (record s { ctx_rtu = ctx })
  rtu-Live s ctx (h, live) = (
    record { session = h.session; table = h.table; unmapped = h.unmapped; no_tcp = h.no_tcp },
    live,
  )

  accept_connections-Live :
      (r : Round) (set : ℕ → Bool) (s : Server) → Live s → Live (accept_connections f j c r set s)
  unfolding accept_connections
  accept_connections-Live r set s h =
      let test = c.enable_tcp && is_set f j c set s.tcp_listen_sock in
      if_split Live test (record s { clients = accept_client r.accepted s.clients }) s
        (λ called.
          let on = &&_left c.enable_tcp (is_set f j c set s.tcp_listen_sock) called in
          retabled-Live s (accept_client r.accepted s.clients) h on
            (accept_client-IsTable r.accepted s.clients (h.0.table on h.1)))
        (λ _. h)

  handle_clients-Live :
      (r : Round) (set : ℕ → Bool) (s : Server)
      → IsRound c r
      → Live s
      → Live (handle_clients f j c r set s)
  unfolding handle_clients
  handle_clients-Live r set s ok h =
      let v : Serving = record {
        mapping = s.session.mb_mapping;
        count = s.clients.tcp_conn_count;
        sockets = s.clients.open_socks;
      } in
      let served = serve_clients set r.received s.clients.tcp_conn_socks v in
      let kept =
        serve_clients-MapKept c set r.received ok.replies s.clients.tcp_conn_socks v
          h.0.session.serves in
      let table : Clients = record {
        tcp_conn_socks = served.0;
        tcp_conn_count = served.1.count;
        open_socks = served.1.sockets;
      } in
      let mapped = with_mapping f j c served.1.mapping s in
      if_split Live c.enable_tcp (record mapped { clients = table }) s
        (λ on.
          retabled-Live mapped table (remapped-Live s served.1.mapping h kept.0 kept.1) on (
            serve_clients-IsTable set r.received s.clients s.session.mb_mapping (h.0.table on h.1)))
        (λ _. h)

  receive_rtu-Live :
      (x : Received) (again : Bool) (s : Server)
      → IsReply c x
      → Live s
      → Live (receive_rtu f j c x again s)
  unfolding receive_rtu
  receive_rtu-Live (request reply) again s ok h =
      remapped-Live s (replied reply s.session.mb_mapping) h
        (replied-ServesAny c reply s.session.mb_mapping ok h.0.session.serves)
        (is_mapped-replied reply s.session.mb_mapping)
  receive_rtu-Live nothing again s ok h = h
  receive_rtu-Live failed again s ok h =
      if_intro Live again s (record s { ctx_rtu = false }) h (rtu-Live s false h)

  handle_rtu-Live :
      (r : Round) (set : ℕ → Bool) (s : Server)
      → IsRound c r
      → Live s
      → Live (handle_rtu f j c r set s)
  unfolding handle_rtu
  handle_rtu-Live r set s ok h =
      if_intro Live ((c.enable_rtu && s.ctx_rtu) && is_set f j c set r.rtu_socket)
        (receive_rtu f j c r.received_rtu r.again s) s
        (receive_rtu-Live r.received_rtu r.again s ok.reply_rtu h) h

  pub handle_connections-Live :
      (r : Round) (set : ℕ → Bool) (s : Server)
      → IsRound c r
      → Live s
      → Live (handle_connections f j c r set s)
  unfolding handle_connections reconnect_rtu
  handle_connections-Live r set s ok h =
      let accepted = accept_connections f j c r set s in
      let handled = handle_clients f j c r set accepted in
      let t = handle_rtu f j c r set handled in
      let live =
        handle_rtu-Live r set handled ok
          (handle_clients-Live r set accepted ok (accept_connections-Live r set s h)) in
      if_intro Live ((c.enable_rtu && not t.ctx_rtu) && is_running t.session)
        (record t { ctx_rtu = r.reconnect_new && r.reconnect }) t
        (rtu-Live t (r.reconnect_new && r.reconnect) live) live
