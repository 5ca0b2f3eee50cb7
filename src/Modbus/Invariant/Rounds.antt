-- ===== src/Modbus/Invariant/Rounds.antt =====
-- The rounds of the Modbus server keep it sound.
use iec104_server_and_modbus.Base.{
  ℕ, ◌≡◌, refl, sym, ◌∙◌, String, Bool, true, false, not, ◌&&◌, Option, none, some, List, [], ◌∷◌,
  ◌++◌, if◌then◌else◌, if_intro, if_split, &&_left, arith,
}
use iec104_server_and_modbus.Cfloat.{FloatUnit}
use iec104_server_and_modbus.Cjson.{Cjson}
use iec104_server_and_modbus.Modbus.Settings.{Settings}
use iec104_server_and_modbus.Modbus.Command.{State, Effect}
use iec104_server_and_modbus.Modbus.Server.{
  Selected, select_failed, select_terminated, select_interrupted, selected, Round, Server, Output,
  Next, next, leave, is_running, is_mapped, stopped, read_line, read_stdin, start_modbus, clean_up,
  handle_connections, finish_round, started, run_round, commands, after_input, after_select, round,
  server_ready, server_stopped,
}
use iec104_server_and_modbus.Modbus.Session.{Keeps, KeepsEffect, process_json-Keeps}
use iec104_server_and_modbus.Modbus.Invariant.{IsSound, IsRound}
use iec104_server_and_modbus.Modbus.Invariant.Start.{
  clean_up-IsSound, start_modbus-IsSound, start_modbus-mapped,
}
use iec104_server_and_modbus.Modbus.Invariant.Connections.{handle_connections-Live}

module _ (f : FloatUnit) (j : Cjson) (c : Settings) where
  abbrev pub NextSound : Next → Type 0
  NextSound (next s out) = IsSound c s
  NextSound (leave s out) = IsSound c s

  finish_round-Sound :
      (r : Round) (positive : Bool) (set : ℕ → Bool) (s : Server) (out : List Output)
      → IsRound c r
      → IsSound c s
      → (is_running s.session ≡ true → is_mapped s.session.mb_mapping ≡ true)
      → NextSound (finish_round f j c r positive set s out)
  unfolding finish_round
  finish_round-Sound r positive set s out ok h live =
      if_split NextSound (not (is_running s.session) && is_mapped s.session.mb_mapping)
        (next (clean_up f j c s) (out ++ (server_stopped ∷ [])))
        (if is_running s.session && positive
          then next (handle_connections f j c r set s) out
          else next s out)
        (λ both. clean_up-IsSound f j c s (ground arith) h)
        (λ _.
          if_split NextSound (is_running s.session && positive)
            (next (handle_connections f j c r set s) out) (next s out)
            (λ on.
              (handle_connections-Live f j c r set s ok
                (h, live (&&_left (is_running s.session) positive on))).0)
            (λ _. h))

  started-Sound :
      (r : Round) (positive : Bool) (set : ℕ → Bool) (s : Server × Bool) (out : List Output)
      → IsRound c r
      → IsSound c s.0
      → (s.1 ≡ true → is_mapped s.0.session.mb_mapping ≡ true)
      → NextSound (started f j c r positive set s out)
  unfolding started
  started-Sound r positive set (s, true) out ok h live =
      finish_round-Sound r positive set s (out ++ (server_ready ∷ [])) ok h (λ _. live refl)
  started-Sound r positive set (s, false) out ok h live = h

  pub run_round-Sound :
      (r : Round) (positive : Bool) (set : ℕ → Bool) (s : Server) (out : List Output)
      → IsRound c r
      → IsSound c s
      → NextSound (run_round f j c r positive set s out)
  unfolding run_round
  run_round-Sound r positive set s out ok h =
      if_split NextSound (is_running s.session && not (is_mapped s.session.mb_mapping))
        (started f j c r positive set (start_modbus f j c r s) out)
        (finish_round f j c r positive set s out)
        (λ waiting.
          started-Sound r positive set (start_modbus f j c r s) out ok
            (start_modbus-IsSound f j c r s ok h (ground arith)) (start_modbus-mapped f j c r s))
        (λ e. finish_round-Sound r positive set s out ok h (λ on. ground arith))

  -- The globals after a line of input.
  pub session-IsSound :
      (s : Server) (t : State)
      → IsSound c s
      → Keeps c (is_mapped s.session.mb_mapping) t
      → IsSound c (record s { session = t })
  session-IsSound s t h k = record {
    session = record { state = k.state; serves = k.serves; mapped = refl };
    table = λ on mapped. h.table on (sym k.mapped ∙ mapped);
    unmapped = λ off. h.unmapped (sym k.mapped ∙ off);
    no_tcp = h.no_tcp;
  }

  abbrev pub RoundSound : Option Next → Type 0
  RoundSound none = Unit {0}
  RoundSound (some n) = NextSound n

  read_stdin-Keeps :
      (r : Round) (set : ℕ → Bool) (s : State) (m : Bool)
      → s.running ≡ true
      → Keeps c m s
      → KeepsEffect c m (read_stdin f j c r set s)
  unfolding read_stdin
  read_stdin-Keeps r set s m on k =
      if_intro (KeepsEffect c m) (set 0) (read_line f j c r.line s) (some (s, [])) (go r.line) k
    where
      go : (line : Option String) → KeepsEffect c m (read_line f j c line s)
      go none = record { state = refl; serves = k.serves; mapped = k.mapped }
      go (some line) = process_json-Keeps f j c m line s on k

  after_input-Sound :
      (r : Round) (positive : Bool) (set : ℕ → Bool) (s : Server) (effect : Effect)
      → IsRound c r
      → IsSound c s
      → KeepsEffect c (is_mapped s.session.mb_mapping) effect
      → RoundSound (after_input f j c r positive set s effect)
  unfolding after_input
  after_input-Sound r positive set s none ok h k = tt
  after_input-Sound r positive set s (some (t, out)) ok h k =
      run_round-Sound r positive set (record s { session = t }) (commands f j c out) ok
        (session-IsSound s t h k)

  -- A round of the loop keeps the server sound, wherever it leaves off: after a line of input, a
  -- failed start, a cleanup, or whatever the clients and the serial line do. The server runs before
  -- it, and libmodbus does in it what `IsRound` says. A round that faults leaves nothing.
  pub round-IsSound :
      (r : Round) (s : Server)
      → IsRound c r
      → IsSound c s
      → s.session.running ≡ true
      → RoundSound (round f j c r s)
  unfolding round after_select
  round-IsSound r s ok h on = go r.select
    where
      go : (v : Selected) → RoundSound (after_select f j c v r s)
      go select_failed = h
      go select_terminated =
          session-IsSound s (stopped s.session) h
            (record { state = refl; serves = h.session.serves; mapped = refl })
      go select_interrupted = h
      go (selected positive set) =
          after_input-Sound r positive set s (read_stdin f j c r set s.session) ok h
            (read_stdin-Keeps r set s.session (is_mapped s.session.mb_mapping) on h.session)
