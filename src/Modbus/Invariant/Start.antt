-- ===== src/Modbus/Invariant/Start.antt =====
-- The start of the Modbus server and its cleanup keep it sound.
use iec104_server_and_modbus.Base.{
  ◌≡◌, refl, sym, ap, ◌∙◌, subst, true, false, [], if◌then◌else◌, arith, Bool-cases, Option-cases,
  inl, inr,
}
use iec104_server_and_modbus.Cfloat.{FloatUnit}
use iec104_server_and_modbus.Cjson.{Cjson}
use iec104_server_and_modbus.Modbus.Settings.{Settings}
use iec104_server_and_modbus.Modbus.Command.{State}
use iec104_server_and_modbus.Modbus.Clients.{no_clients, close_clients}
use iec104_server_and_modbus.Modbus.Sockets.{IsTable, open-close_clients, empty-IsTable}
use iec104_server_and_modbus.Modbus.Server.{
  Round, Server, is_running, is_mapped, start_tcp, start_rtu, start_mapping, start_modbus, clean_up,
}
use iec104_server_and_modbus.Modbus.Session.{Keeps}
use iec104_server_and_modbus.Modbus.Invariant.{IsSound, IsRound}

module _ (f : FloatUnit) (j : Cjson) (c : Settings) where
  pub clean_up-IsSound :
      (s : Server)
      → is_mapped s.session.mb_mapping ≡ true
      → IsSound c s
      → IsSound c (clean_up f j c s)
  unfolding clean_up
  clean_up-IsSound s m h =
      let none_open : (if c.enable_tcp then close_clients s.clients else s.clients).open_socks
          ≡ [] =
        elim (Bool-cases c.enable_tcp) [
          | inl on ↦ rw on (open-close_clients s.clients (h.table on m))
          | inr off ↦ rw off (h.no_tcp off)
        ] in
      record {
        session = record { state = h.session.state; serves = tt; mapped = refl };
        table = λ t e. cc;
        unmapped = λ e. none_open;
        no_tcp = λ e. none_open;
      }

  -- The start of TCP, when no client socket is open.
  start_tcp-IsTable :
      (r : Round) (s : Server)
      → s.clients.open_socks ≡ []
      → ((start_tcp f j c r s).0.session ≡ s.session)
        × ((start_tcp f j c r s).0.clients.open_socks ≡ [])
        × (c.enable_tcp ≡ true
            → (start_tcp f j c r s).1 ≡ true
            → IsTable (start_tcp f j c r s).0.clients)
  unfolding start_tcp
  start_tcp-IsTable r s e = elim (Bool-cases c.enable_tcp) [
    | inr off ↦ rw off (refl, e, λ on. cc)
    | inl on ↦ elim (Bool-cases r.new_tcp) [
      | inr no_context ↦ rw (on, no_context) (refl, e, λ _ no. cc)
      | inl context ↦ elim (Option-cases r.listen) [
        | inl no_socket ↦ rw (on, context, no_socket) (refl, e, λ _ no. cc)
        | inr (fd, listening) ↦
            rw (on, context, listening)
              (
                refl,
                e,
                λ _ _.
                    subst
                      (λ open_socks. IsTable (record {
                        tcp_conn_socks = no_clients;
                        tcp_conn_count = 0;
                        open_socks = open_socks;
                      }))
                      (sym e) empty-IsTable,
              )
      ]
    ]
  ]

  start_rtu-rest :
      (r : Round) (s : Server)
      → ((start_rtu f j c r s).0.session ≡ s.session)
        × ((start_rtu f j c r s).0.clients ≡ s.clients)
  unfolding start_rtu
  start_rtu-rest r s = elim (Bool-cases c.enable_rtu) [
    | inl on ↦ rw on (refl, refl)
    | inr off ↦ rw off (refl, refl)
  ]

  -- What is known when no mapping is there, whatever the start has reached.
  waiting-IsSound :
      (s t : Server)
      → IsSound c s
      → is_mapped s.session.mb_mapping ≡ false
      → t.session ≡ s.session
      → t.clients.open_socks ≡ []
      → IsSound c t
  waiting-IsSound s t h m same closed =
      let unmapped : is_mapped t.session.mb_mapping ≡ false =
        ap (λ v. is_mapped v.mb_mapping) same ∙ m in
      record {
        session = subst (λ v. Keeps c (is_mapped v.mb_mapping) v) (sym same) h.session;
        table = λ on mapped. cc;
        unmapped = λ _. closed;
        no_tcp = λ _. closed;
      }

  pub start_modbus-IsSound :
      (r : Round) (s : Server)
      → IsRound c r
      → IsSound c s
      → is_mapped s.session.mb_mapping ≡ false
      → IsSound c (start_modbus f j c r s).0
  unfolding start_modbus start_mapping
  start_modbus-IsSound r s ok h m =
      let t = start_tcp f j c r s in
      let u = start_rtu f j c r t.0 in
      let tcp = start_tcp-IsTable r s (h.unmapped m) in
      let rtu = start_rtu-rest r t.0 in
      let closed : u.0.clients.open_socks ≡ [] = ap (λ v. v.open_socks) rtu.1 ∙ tcp.1 in
      let same : u.0.session ≡ s.session = rtu.0 ∙ tcp.0 in
      elim (Bool-cases t.1) [
        | inr failed_tcp ↦ rw failed_tcp (waiting-IsSound s t.0 h m tcp.0 tcp.1)
        | inl started_tcp ↦ elim (Bool-cases u.1) [
          | inr failed_rtu ↦ rw (started_tcp, failed_rtu) (waiting-IsSound s u.0 h m same closed)
          | inl started_rtu ↦
              rw (started_tcp, started_rtu)
                (record {
                  session = record {
                    state =
                        subst (λ (v : State). v.running ≡ is_running v) (sym same) h.session.state;
                    serves = ok.mapping;
                    mapped = refl;
                  };
                  table = λ on mapped. subst IsTable (sym rtu.1) (tcp.2 on started_tcp);
                  unmapped = λ _. closed;
                  no_tcp = λ _. closed;
                })
        ]
      ]

  pub start_modbus-mapped :
      (r : Round) (s : Server)
      → (start_modbus f j c r s).1 ≡ true
      → is_mapped (start_modbus f j c r s).0.session.mb_mapping ≡ true
  unfolding start_modbus start_mapping
  start_modbus-mapped r s e = elim (Bool-cases (start_tcp f j c r s).1) [
    | inr failed_tcp ↦ absurd (ground arith)
    | inl started_tcp ↦ elim (Bool-cases (start_rtu f j c r (start_tcp f j c r s).0).1) [
      | inr failed_rtu ↦ absurd (ground arith)
      | inl started_rtu ↦ ground arith
    ]
  ]
