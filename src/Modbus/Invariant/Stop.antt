-- ===== src/Modbus/Invariant/Stop.antt =====
-- How the Modbus server ends.
use iec104_server_and_modbus.Base.{
  ℕ, ◌≡◌, refl, ◌∙◌, inl, inr, String, Bool, true, false, Option, none, some, List, [], ◌∷◌, All,
  if_split, Bool-cases,
}
use iec104_server_and_modbus.Cfloat.{FloatUnit}
use iec104_server_and_modbus.Cjson.{Cjson}
use iec104_server_and_modbus.Modbus.Registers.{Mapping}
use iec104_server_and_modbus.Modbus.Settings.{Settings}
use iec104_server_and_modbus.Modbus.Command
use iec104_server_and_modbus.Modbus.Command.{
  State, Effect, process_json, process_root, start_command, command_text, already_running, starting,
  state_running, state_stopped, ServerState,
}
use iec104_server_and_modbus.Modbus.Server.{
  Selected, select_failed, select_terminated, select_interrupted, selected, Round, Server, Output,
  Next, next, leave, Progress, fault, in_loop, ended, printed, is_mapped, stopped, read_line,
  read_stdin, clean_up, finish_round, run_round, commands, after_input, after_select, round,
  exit_server, end_program, after_round, main_loop,
}
use iec104_server_and_modbus.Modbus.Invariant.{IsSound, IsRound}
use iec104_server_and_modbus.Modbus.Invariant.Start.{clean_up-IsSound}
use iec104_server_and_modbus.Modbus.Invariant.Rounds.{
  NextSound, RoundSound, run_round-Sound, session-IsSound, round-IsSound,
}

-- Nothing of the clients is left: no socket of theirs is open, and the mapping is freed.
abbrev pub IsReleased : Server → Type 0
IsReleased s = (s.session.mb_mapping ≡ none) × (s.clients.open_socks ≡ [])

-- In the loop the server is sound and runs; after it, nothing is left. A fault promises nothing.
abbrev pub ProgressSound : Settings → Progress → Type 0
ProgressSound c fault = Unit {0}
ProgressSound c (in_loop s out) = IsSound c s × (s.session.running ≡ true)
ProgressSound c (ended s out) = IsReleased s

-- The program has ended, with nothing left.
abbrev pub EndsReleased : Progress → Type 0
EndsReleased fault = ⊥
EndsReleased (in_loop s out) = ⊥
EndsReleased (ended s out) = IsReleased s

unmapped-none : (m : Option Mapping) → is_mapped m ≡ false → m ≡ none
unmapped-none none e = refl
unmapped-none (some m) e = cc

module _ (f : FloatUnit) (j : Cjson) (c : Settings) where
  clean_up-IsReleased :
      (s : Server)
      → is_mapped s.session.mb_mapping ≡ true
      → IsSound c s
      → IsReleased (clean_up f j c s)
  unfolding clean_up
  clean_up-IsReleased s m h = (refl, (clean_up-IsSound f j c s m h).unmapped refl)

  end_program-EndsReleased : (s : Server) → IsSound c s → EndsReleased (end_program f j c s)
  unfolding end_program exit_server
  end_program-EndsReleased s h =
      if_split IsReleased (is_mapped s.session.mb_mapping) (clean_up f j c s) s
        (λ m. clean_up-IsReleased s m h) (λ m. (unmapped-none s.session.mb_mapping m, h.unmapped m))

  printed-EndsReleased :
      (out : List Output) (p : Progress) → EndsReleased p → EndsReleased (printed out p)
  unfolding printed
  printed-EndsReleased out fault h = h
  printed-EndsReleased out (in_loop s rest) h = h
  printed-EndsReleased out (ended s rest) h = h

  printed-Sound :
      (out : List Output) (p : Progress) → ProgressSound c p → ProgressSound c (printed out p)
  unfolding printed
  printed-Sound out fault h = h
  printed-Sound out (in_loop s rest) h = h
  printed-Sound out (ended s rest) h = h

  EndsReleased-Sound : (p : Progress) → EndsReleased p → ProgressSound c p
  EndsReleased-Sound fault h = tt
  EndsReleased-Sound (in_loop s out) h = absurd h
  EndsReleased-Sound (ended s out) h = h

  after_round-Sound :
      (rest : Server → Progress)
      → ((t : Server) → IsSound c t → ProgressSound c (rest t))
      → (n : Option Next) → RoundSound f j c n
      → ProgressSound c (after_round f j c rest n)
  unfolding after_round
  after_round-Sound rest ih none h = tt
  after_round-Sound rest ih (some (next t out)) h = printed-Sound out (rest t) (ih t h)
  after_round-Sound rest ih (some (leave t out)) h =
      printed-Sound out (end_program f j c t)
        (EndsReleased-Sound (end_program f j c t) (end_program-EndsReleased t h))

  -- From a sound server, whatever happens in any number of rounds that do not fault. While the program
  -- is in its loop, it runs as its flag says, and a mapping that is there serves the settings; with
  -- TCP and a mapping, the slots hold exactly the open client sockets and are counted, and without TCP
  -- or without a mapping no client socket is open. When the program has ended, no client socket is
  -- open and the mapping is freed. libmodbus does in each round what `IsRound` says.
  pub main_loop-Sound :
      (rounds : List Round) (s : Server)
      → All (IsRound c) rounds
      → IsSound c s
      → ProgressSound c (main_loop f j c rounds s)
  unfolding main_loop
  main_loop-Sound [] s ok h =
      if_split (ProgressSound c) s.session.running (in_loop s []) (end_program f j c s)
        (λ on. (h, on))
        (λ off. EndsReleased-Sound (end_program f j c s) (end_program-EndsReleased s h))
  main_loop-Sound (r ∷ rounds) s ok h =
      if_split (ProgressSound c) s.session.running
        (after_round f j c (main_loop f j c rounds) (round f j c r s)) (end_program f j c s)
        (λ on.
          after_round-Sound (main_loop f j c rounds) (λ t ht. main_loop-Sound rounds t ok.1 ht)
            (round f j c r s) (round-IsSound f j c r s ok.0 h on))
        (λ off. EndsReleased-Sound (end_program f j c s) (end_program-EndsReleased s h))

  -- A line or the end of the input, or a signal, that stops the server.
  abbrev pub IsStopLine : Option String → Type 0
  IsStopLine none = Unit {0}
  IsStopLine (some line) =
      (root : j.Item) × (j.parse line ≡ some root)
      × (command_text f j (j.get_object_item_case_sensitive root "cmd") ≡ some "stop")

  abbrev pub IsStop : Round → Selected → Type 0
  IsStop r select_failed = Unit {0}
  IsStop r select_terminated = Unit {0}
  IsStop r select_interrupted = ⊥
  IsStop r (selected positive set) = (set 0 ≡ true) × IsStopLine r.line

  stopped-ends :
      (rounds : List Round) (s : Server)
      → IsSound c s
      → s.session.running ≡ false
      → EndsReleased (main_loop f j c rounds s)
  unfolding main_loop
  stopped-ends [] s h off =
      if_split EndsReleased s.session.running (in_loop s []) (end_program f j c s)
        (λ on. absurd (cc)) (λ _. end_program-EndsReleased s h)
  stopped-ends (r ∷ rounds) s h off =
      if_split EndsReleased s.session.running
        (after_round f j c (main_loop f j c rounds) (round f j c r s)) (end_program f j c s)
        (λ on. absurd (cc)) (λ _. end_program-EndsReleased s h)

  abbrev NextStopped : Next → Type 0
  NextStopped (next s out) = s.session.running ≡ false
  NextStopped (leave s out) = Unit {0}

  after_round-EndsReleased :
      (rounds : List Round) (n : Next)
      → NextSound f j c n
      → NextStopped n
      → EndsReleased (after_round f j c (main_loop f j c rounds) (some n))
  unfolding after_round
  after_round-EndsReleased rounds (next t out) h off =
      printed-EndsReleased out (main_loop f j c rounds t) (stopped-ends rounds t h off)
  after_round-EndsReleased rounds (leave t out) h off =
      printed-EndsReleased out (end_program f j c t) (end_program-EndsReleased t h)

  run_round-stopped :
      (r : Round) (positive : Bool) (set : ℕ → Bool) (s : Server) (out : List Output)
      → s.session.server_state ≡ state_stopped
      → s.session.running ≡ false
      → NextStopped (run_round f j c r positive set s out)
  unfolding run_round finish_round clean_up
  run_round-stopped r positive set s out e off =
      elim (Bool-cases (is_mapped s.session.mb_mapping)) [
        | inl m ↦ rw (e, m) off
        | inr m ↦ rw (e, m) off
      ]

  -- What such a line, or the end of the input, does to the globals.
  stop_line :
      (s : State) (line : Option String)
      → IsStopLine line
      → (out : List Command.Output) × (read_line f j c line s ≡ some (stopped s, out))
  unfolding read_line process_json process_root
  stop_line s none h = ([], refl)
  stop_line s (some line) (root, p, cmd) =
      (Command.stopping ∷ [], rw (p, process_json) (rw cmd refl))

  read_stdin_set :
      (r : Round) (set : ℕ → Bool) (s : State)
      → set 0 ≡ true
      → read_stdin f j c r set s ≡ read_line f j c r.line s
  unfolding read_stdin
  read_stdin_set r set s waits = rw waits refl

  -- The server ends: in the round in which it is told to stop, by the end of the input, by the stop
  -- command, by a signal, or by an error of `select`, it leaves its loop, whatever the connections do
  -- in that round and whatever later rounds would bring; no client socket is open then, and the
  -- mapping is freed. The server is sound and runs before, and libmodbus does in the round what
  -- `IsRound` says.
  pub main_loop-ends :
      (r : Round) (rounds : List Round) (s : Server)
      → IsRound c r
      → IsSound c s
      → s.session.running ≡ true
      → IsStop r r.select
      → EndsReleased (main_loop f j c (r ∷ rounds) s)
  unfolding main_loop round after_select after_input
  main_loop-ends r rounds s ok h on stop =
      if_split EndsReleased s.session.running
        (after_round f j c (main_loop f j c rounds) (round f j c r s)) (end_program f j c s)
        (λ _. go r.select stop) (λ off. absurd (cc))
    where
      halted : IsSound c (record s { session = stopped s.session })
      halted =
          session-IsSound f j c s (stopped s.session) h
            (record { state = refl; serves = h.session.serves; mapped = refl })

      go :
          (v : Selected)
          → IsStop r v
          → EndsReleased (after_round f j c (main_loop f j c rounds) (after_select f j c v r s))
      go select_failed stop = after_round-EndsReleased rounds (leave s []) h tt
      go select_terminated stop =
          after_round-EndsReleased rounds (next (record s { session = stopped s.session }) [])
            halted refl
      go select_interrupted stop = absurd stop
      go (selected positive set) (waits, line) =
          let (out, told) = stop_line s.session r.line line in
          let told' = read_stdin_set r set s.session waits ∙ told in
          let t : Server = record s { session = stopped s.session } in
          rw told' (
            after_round-EndsReleased rounds (run_round f j c r positive set t (commands f j c out))
              (run_round-Sound f j c r positive set t (commands f j c out) ok halted)
              (run_round-stopped r positive set t (commands f j c out) refl refl))
