-- ===== src/Input/Stop.antt =====
-- When `input_handler_process_line` ends the program.
use iec104_server_and_modbus.Base.{
  ◌≡◌, ◌∙◌, sym, subst, ◌⊎◌, inl, inr, refl, String, str_eq, eq_iff, true, false, not, ◌||◌, Option,
  none, some, [], Bool-cases, Option-cases, ap, arith,
}
use iec104_server_and_modbus.Cfloat.{FloatUnit}
use iec104_server_and_modbus.Globals.{Globals}
use iec104_server_and_modbus.Cjson.{Cjson}
use iec104_server_and_modbus.Interrogation.Encoder.{Encoder}
use iec104_server_and_modbus.Input.Line.{
  Surroundings, State, run_line, go_on, command, input_handler_process_line,
}

module _ (f : FloatUnit) (g : Globals) (enc : Encoder) (env : Surroundings) (j : Cjson) where
  -- The line is a JSON text with the command "stop".
  abbrev pub IsStop : String → Type 0
  IsStop line =
      (json : j.Item) × (j.parse line ≡ some json) × (command f g enc env j json ≡ some "stop")

  run_line_stop :
      (s : State) (json : j.Item) (cmd : Option String)
      → ((cmd ≡ some "stop") × (run_line f g enc env j s json cmd ≡ (false, s, [])))
        ⊎ (¬ (cmd ≡ some "stop") × ((run_line f g enc env j s json cmd).0 ≡ true))
  unfolding run_line go_on
  run_line_stop s json none = inr (λ e. cc, refl)
  run_line_stop s json (some c) = elim (Bool-cases (str_eq c "stop")) [
    | inl stop ↦ inl (ap some ((eq_iff c "stop").0 stop), rw stop refl)
    | inr a ↦ inr (
      other c a,
      elim (Bool-cases (str_eq c "get_connected_clients")) [
        | inl list ↦ rw (a, list) refl
        | inr b ↦ elim (Bool-cases (str_eq c "get_queue_count")) [
          | inl queue ↦ rw (a, b, queue) refl
          | inr unknown ↦ rw (a, b, unknown) refl
        ]
      ],
    )
  ]
    where
      other : (c : String) → str_eq c "stop" ≡ false → ¬ (some c ≡ some "stop")
      other c a e = let same : c ≡ "stop" = cc in let hit = (eq_iff c "stop").1 same in ground arith

  -- A line ends the reading exactly when it is the stop command and the handler is initialised with a
  -- slave, and then nothing else is done; after any other line, and on a handler that is not
  -- initialised, reading goes on. The write of an update through the uninitialised pointer
  -- `timestamp` is taken to leave the program alone.
  pub input_handler_process_line-IsStop :
      (s : State) (line : String)
      → (IsStop line
          × ((s.initialized ≡ true) × (s.slave ≡ true))
          × (input_handler_process_line f g enc env j s line ≡ (false, s, [])))
        ⊎ (¬ (IsStop line × ((s.initialized ≡ true) × (s.slave ≡ true)))
            × ((input_handler_process_line f g enc env j s line).0 ≡ true))
  unfolding input_handler_process_line
  input_handler_process_line-IsStop s line = elim (Bool-cases (not s.initialized || not s.slave)) [
    | inl off ↦ inr (λ (_, on). ground arith, rw off refl)
    | inr on ↦ elim (Option-cases (j.parse line)) [
      | inl bad ↦ inr (
        λ ((json, e, _), _). let none_some : none ≡ some json = sym bad ∙ e in cc,
        rw (on, bad) refl,
      )
      | inr (json, e) ↦ elim (run_line_stop s json (command f g enc env j json)) [
        | inl (stop, ends) ↦ inl ((json, e, stop), (ground arith, ground arith), rw (on, e) ends)
        | inr (other, going) ↦ inr (
          λ ((json', e', stop), _).
              other
                (subst (λ i. command f g enc env j i ≡ some "stop") (same json' json e' e) stop),
          rw (on, e) going,
        )
      ]
    ]
  ]
    where
      same : (a b : j.Item) → j.parse line ≡ some a → j.parse line ≡ some b → a ≡ b
      same a b p q = cc
