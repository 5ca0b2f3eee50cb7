-- ===== src/Command/History.antt =====
-- The command handler over a history of requests: in select-before-operate mode nothing is executed
-- that was not selected.
use iec104_server_and_modbus.Base.{
  ℕ, ◌<◌, ◌≡◌, refl, subst, ◌⊎◌, inl, inr, Bool, true, false, String, List, [], ◌∷◌, All, replicate,
  zero, suc, sub_u64, arith, Bool-cases, ◌==◌,
}
use iec104_server_and_modbus.Iec.TypeId
use iec104_server_and_modbus.Command.Select.{
  SelectEntry, selected, empty_entry, empty_table, is_previously_selected, holds, is_live,
}
use iec104_server_and_modbus.Command.Select.Store.{
  store-All, is_previously_selected-All, clear-All, is_previously_selected-found,
}
use iec104_server_and_modbus.Command.Handler.{
  Request, is_direct, State, execute_selected, handle_single_command, handle_set_point_command,
  handle_reset_process_command, asdu_handler,
}
use iec104_server_and_modbus.Command.Sbo.{executes}

-- A call of the handler by a connection, at a time.
pub record Event : Type 0 where
  pub request : Request
  pub connection : ℕ
  pub now : ℕ

-- The state after a history, the newest event first.
unfoldable pub after : String → State → List Event → State
after mode s [] = s
after mode s (e ∷ es) = (asdu_handler mode e.request e.connection e.now (after mode s es)).0

-- The event is a selection of the address by the connection, at the time.
pub record IsSelection (ioa connection now : ℕ) (e : Event) : Type 0 where
  pub select : e.request.is_select ≡ true
  pub address : e.request.ioa ≡ ioa
  pub by : e.connection ≡ connection
  pub at : e.now ≡ now

-- Such an event is in the history.
abbrev pub WasSelected : ℕ → ℕ → ℕ → List Event → Type 0
WasSelected ioa connection now [] = ⊥
WasSelected ioa connection now (e ∷ es) =
    IsSelection ioa connection now e ⊎ WasSelected ioa connection now es

-- Every selected entry goes back to an event.
abbrev IsTraced : List Event → SelectEntry → Type 0
IsTraced es s = s.is_selected ≡ true → WasSelected s.ioa s.connection s.timestamp es

IsTraced-freed :
    (es : List Event) (s : SelectEntry)
    → IsTraced es s
    → IsTraced es (record s { is_selected = false })
IsTraced-freed es s t e = absurd (cc)

IsTraced-later :
    (e : Event) (es : List Event) (t : List SelectEntry)
    → All (IsTraced es) t
    → All (IsTraced (e ∷ es)) t
IsTraced-later e es [] h = tt
IsTraced-later e es (s ∷ t) h = (λ on. inr (h.0 on), IsTraced-later e es t h.1)

initially-IsTraced : (n : ℕ) → All (IsTraced []) (replicate n empty_entry)
initially-IsTraced zero = tt
initially-IsTraced (suc n) = (λ on. cc, initially-IsTraced n)

held_by :
    (ioa c : ℕ) (e : SelectEntry) (es : List Event)
    → holds ioa c e ≡ true
    → IsTraced es e
    → WasSelected ioa c e.timestamp es
held_by ioa c e es held traced =
    let same_ioa : e.ioa ≡ ioa = ground arith in
    let same_connection : e.connection ≡ c = ground arith in
    subst (λ k. WasSelected k c e.timestamp es) same_ioa
      (subst (λ k. WasSelected e.ioa k e.timestamp es) same_connection (traced (ground arith)))

lt_timeout : (now : ℕ) (e : SelectEntry) → is_live now e ≡ true → sub_u64 now e.timestamp < 5000
lt_timeout now e live = ground arith

module _ (mode : String) where
  -- A property of every entry survives a command, if a freed entry keeps it and an entry that is
  -- selected by the command has it.
  handle-All {κ} :
      (P : SelectEntry → Type κ) (r : Request) (c now : ℕ) (t : List SelectEntry)
      → ((s : SelectEntry) → P s → P (record s { is_selected = false }))
      → (r.is_select ≡ true → P (selected r.ioa c now))
      → All P t
      → All P (handle_single_command mode r c now t).0
  unfolding handle_single_command
  handle-All P r c now t freed new h = elim (Bool-cases r.is_select) [
    | inl sel ↦
        let kept = store-All P r.ioa c now t (new sel) h in
        elim (Bool-cases (is_direct mode)) [ inl d ↦ rw (d, sel) kept | inr s ↦ rw (s, sel) kept ]
    | inr exe ↦ elim (Bool-cases (is_direct mode)) [
      | inl d ↦ rw (d, exe) h
      | inr s ↦
          let tested = is_previously_selected-All P freed r.ioa c now t h in
          rw (s, exe) (executed (is_previously_selected r.ioa c now t) tested)
    ]
  ]
    where
      executed :
          (found : Bool × List SelectEntry) → All P found.1 → All P (execute_selected r c found).0
      executed (true, u) k = clear-All P freed r.ioa c u k
      executed (false, u) k = k

  -- An execution in select-before-operate mode has found a live entry.
  handle-found {κ} :
      (P : SelectEntry → Type κ) (r : Request) (c now : ℕ) (t : List SelectEntry)
      → is_direct mode ≡ false
      → All P t
      → executes (handle_single_command mode r c now t).1 ≡ true
      → (s : SelectEntry) × P s × (holds r.ioa c s ≡ true) × (is_live now s ≡ true)
  unfolding handle_single_command
  handle-found P r c now t m h ran = is_previously_selected-found P r.ioa c now t h (ground arith)

  -- Both handlers of commands have the same body.
  set_point-eq-single :
      (r : Request) (c now : ℕ) (t : List SelectEntry)
      → handle_set_point_command mode r c now t ≡ handle_single_command mode r c now t
  unfolding handle_single_command handle_set_point_command
  set_point-eq-single r c now t = refl

  asdu_handler-All {κ} :
      (P : SelectEntry → Type κ) (r : Request) (c now : ℕ) (s : State)
      → ((e : SelectEntry) → P e → P (record e { is_selected = false }))
      → (r.is_select ≡ true → P (selected r.ioa c now))
      → All P s.select_table
      → All P (asdu_handler mode r c now s).0.select_table
  unfolding asdu_handler
  asdu_handler-All P r c now s freed new h =
      let kept = handle-All P r c now s.select_table freed new h in
      elim (Bool-cases (r.type_id == TypeId.c_sc_na_1)) [
        | inl sc ↦ rw sc kept
        | inr not_sc ↦ rw not_sc (elim (Bool-cases (r.type_id == TypeId.c_se_nc_1)) [
          | inl se ↦ rw (se, set_point-eq-single) kept
          | inr not_se ↦ rw not_se (elim (Bool-cases (r.type_id == TypeId.c_rp_na_1)) [
            | inl rp ↦ rw rp h
            | inr other ↦ rw other h
          ])
        ])
      ]

  asdu_handler-found {κ} :
      (P : SelectEntry → Type κ) (r : Request) (c now : ℕ) (s : State)
      → is_direct mode ≡ false
      → All P s.select_table
      → executes (asdu_handler mode r c now s).1 ≡ true
      → (e : SelectEntry) × P e × (holds r.ioa c e ≡ true) × (is_live now e ≡ true)
  unfolding asdu_handler handle_reset_process_command
  asdu_handler-found P r c now s m h ran =
      handle-found P r c now s.select_table m h
        (ground (arith, set_point-eq-single r c now s.select_table))

  after-IsTraced :
      (s : State) (es : List Event)
      → s.select_table ≡ empty_table
      → All (IsTraced es) (after mode s es).select_table
  unfolding after
  after-IsTraced s [] e = rw e (initially-IsTraced 100)
  after-IsTraced s (e ∷ es) h =
      asdu_handler-All (IsTraced (e ∷ es)) e.request e.connection e.now (after mode s es)
        (IsTraced-freed (e ∷ es))
        (λ sel _. inl (record { select = sel; address = refl; by = refl; at = refl }))
        (IsTraced-later e es _ (after-IsTraced s es h))

  -- In select-before-operate mode, after any history from the empty table, a command is executed
  -- only if the history has a selection of its address by its connection less than 5 seconds ago.
  pub execution-WasSelected :
      (s : State) (es : List Event) (r : Request) (c now : ℕ)
      → is_direct mode ≡ false
      → s.select_table ≡ empty_table
      → executes (asdu_handler mode r c now (after mode s es)).1 ≡ true
      → (t : ℕ) × WasSelected r.ioa c t es × (sub_u64 now t < 5000)
  execution-WasSelected s es r c now m start ran =
      let found =
        asdu_handler-found (IsTraced es) r c now (after mode s es) m (after-IsTraced s es start)
          ran in
      (
        found.0.timestamp,
        held_by r.ioa c found.0 es found.2 found.1,
        lt_timeout now found.0 found.3,
      )
