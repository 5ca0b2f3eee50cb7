-- ===== src/Legacy/Command/Protocol.antt =====
-- How `asduHandler` of json-iec104-server/json-iec104-server.c answers, and what it executes.
use iec104_server_and_modbus.Base.{
  ℕ, ◌≡◌, ◌≢◌, ◌⊎◌, inl, inr, refl, sym, subst, Bool, true, false, String, Option, none, some, List,
  [], ◌∷◌, ◌==◌, if◌then◌else◌, arith, Bool-cases,
}
use iec104_server_and_modbus.Iec.TypeId
use iec104_server_and_modbus.Iec.{
  Cot, activation, activation_con, activation_termination, unknown_type_id, unknown_cot,
  unknown_ioa,
}
use iec104_server_and_modbus.Data.Manager.{DynamicIoaConfig}
use iec104_server_and_modbus.Command.Select.{
  SelectEntry, store_select_state, is_previously_selected,
}
use iec104_server_and_modbus.Command.Handler.{is_direct}
use iec104_server_and_modbus.Legacy.Command.{
  CommandObject, Request, Output, reply, execute_line, Addresses, Result, is_found, perform,
  execute_single, execute_other, unknown_type, single_command, other_command, double_command,
  set_point_normalized, set_point_short, activate, dispatch, legacy_asdu_handler,
}

-- The commands that are printed for execution, with their types, and what is sent back.
abbrev pub executed : List Output → List (ℕ × CommandObject)
executed [] = []
executed (execute_line t m o ∷ out) = (t, o) ∷ executed out
executed (o ∷ out) = executed out

abbrev pub replies : List Output → List (Cot × Bool)
replies [] = []
replies (reply c n ∷ out) = (c, n) ∷ replies out
replies (o ∷ out) = replies out

-- The configured addresses of a command type.
abbrev pub configured : Addresses → ℕ → Option DynamicIoaConfig
configured a t =
    if t == TypeId.c_sc_na_1
    then some a.c_sc_na_1
    else if t == TypeId.c_dc_na_1
    then some a.c_dc_na_1
    else if t == TypeId.c_se_na_1
    then some a.c_se_na_1
    else if t == TypeId.c_se_nc_1
    then some a.c_se_nc_1
    else none

-- The cause of the answer to an execution that was not selected.
abbrev pub refusal : ℕ → Cot
refusal t = if t == TypeId.c_sc_na_1 then activation_con else activation_termination

module _ (mode : String) (c now : ℕ) (table : List SelectEntry) where
  abbrev pub Executed : ℕ → CommandObject → Result → Type 0
  Executed t o res =
      (o.is_select ≡ false)
      × ((is_direct mode ≡ true) ⊎ ((is_previously_selected o.ioa c now table).0 ≡ true))
      × (executed res.1 ≡ (t, o) ∷ [])
      × (replies res.1 ≡ (activation_con, false) ∷ (activation_termination, false) ∷ [])

  abbrev pub Selected : CommandObject → Result → Type 0
  Selected o res =
      (o.is_select ≡ true)
      × (res.0 ≡ store_select_state o.ioa c now table)
      × (executed res.1 ≡ [])
      × (replies res.1 ≡ (activation_con, false) ∷ [])

  abbrev pub Unselected : Cot → CommandObject → Result → Type 0
  Unselected cause o res =
      (o.is_select ≡ false)
      × (is_direct mode ≡ false)
      × ((is_previously_selected o.ioa c now table).0 ≡ false)
      × (executed res.1 ≡ [])
      × (replies res.1 ≡ (cause, true) ∷ [])

  -- Answered with one cause and sign, and nothing done.
  abbrev pub Refused : Cot → Bool → Result → Type 0
  Refused cause sign res =
      (res.0 ≡ table) × (executed res.1 ≡ []) × (replies res.1 ≡ (cause, sign) ∷ [])

  abbrev pub Answered : ℕ → Cot → DynamicIoaConfig → CommandObject → Result → Type 0
  Answered t cause config o res =
      ((is_found config o.ioa ≡ true)
        × (Executed t o res ⊎ Selected o res ⊎ Unselected cause o res))
      ⊎ ((is_found config o.ioa ≡ false) × Refused unknown_ioa true res)

  -- The three ways of a configured command, if its execution is answered as it should.
  module _ (t : ℕ) (cause : Cot)
      (execute : CommandObject → ℕ → Bool × List SelectEntry → Result) where
    abbrev Executes : Type 0
    Executes =
        (o : CommandObject) (left : List SelectEntry)
        → (executed (execute o c (true, left)).1 ≡ (t, o) ∷ [])
          × (replies (execute o c (true, left)).1
              ≡ (activation_con, false) ∷ (activation_termination, false) ∷ [])
          × (executed (execute o c (false, left)).1 ≡ [])
          × (replies (execute o c (false, left)).1 ≡ (cause, true) ∷ [])

    perform-Answered :
        (o : CommandObject)
        → Executes
        → let res = perform mode c now table execute t o in
          Executed t o res ⊎ Selected o res ⊎ Unselected cause o res
    unfolding perform
    perform-Answered o h =
        let left = (is_previously_selected o.ioa c now table).1 in
        elim (Bool-cases (o.is_select)) [
          | inl sel ↦ elim (Bool-cases (is_direct mode)) [
            | inl d ↦ inr (inl (sel, ground arith, ground arith, ground arith))
            | inr s ↦ inr (inl (sel, ground arith, ground arith, ground arith))
          ]
          | inr exe ↦ elim (Bool-cases (is_direct mode)) [
            | inl d ↦ inl (exe, inl d, ground arith, ground arith)
            | inr s ↦ elim (Bool-cases ((is_previously_selected o.ioa c now table).0)) [
              | inl held ↦ inl (exe, inr held, ground (arith, h o left), ground (arith, h o left))
              | inr free ↦
                  inr (inr (exe, s, free, ground (arith, h o left), ground (arith, h o left)))
            ]
          ]
        ]

  single_command-Answered :
      (config : DynamicIoaConfig) (o : CommandObject)
      → Answered TypeId.c_sc_na_1 activation_con config o (single_command mode c now table config o)
  unfolding single_command
  single_command-Answered config o = elim (Bool-cases (is_found config o.ioa)) [
    | inr lost ↦ inr (lost, rw lost (refl, refl, refl))
    | inl found ↦ inl (
      found,
      rw found (
          perform-Answered TypeId.c_sc_na_1 activation_con execute_single o
            (λ o left. (refl, refl, refl, refl))),
    )
  ]

  other_command-Answered :
      (t : ℕ) (config : DynamicIoaConfig) (o : CommandObject)
      → Answered t activation_termination config o (other_command mode c now table t config o)
  unfolding other_command
  other_command-Answered t config o = elim (Bool-cases (is_found config o.ioa)) [
    | inr lost ↦ inr (lost, rw lost (refl, refl, refl))
    | inl found ↦ inl (
      found,
      rw found (
          perform-Answered t activation_termination (execute_other t) o
            (λ o left. (refl, refl, refl, refl))),
    )
  ]

  -- A command of a type that has addresses, or any other activation.
  abbrev pub Activated : Addresses → Request → Result → Type 0
  Activated a r res =
      ((o : CommandObject) × (config : DynamicIoaConfig) × (r.element ≡ some o)
        × (configured a r.type_id ≡ some config)
        × Answered r.type_id (refusal r.type_id) config o res)
      ⊎ (((r.element ≡ none) ⊎ (configured a r.type_id ≡ none))
          × Refused unknown_type_id r.is_negative res)

  module _ (a : Addresses) (r : Request) where
    type_known :
        (o : CommandObject) (k : ℕ) (cause : Cot) (config : DynamicIoaConfig) (res out : Result)
        → out ≡ res
        → r.element ≡ some o
        → r.type_id ≡ k
        → refusal k ≡ cause
        → configured a k ≡ some config
        → Answered k cause config o res
        → Activated a r out
    type_known o k cause config res out same e known way set h = inl (
      o,
      config,
      e,
      subst (λ t. configured a t ≡ some config) (sym known) set,
      subst (λ t. Answered t (refusal t) config o out) (sym known)
          (subst (λ w. Answered k w config o out) (sym way)
            (subst (Answered k cause config o) (sym same) h)),
    )

    activate-Activated :
        (element : Option CommandObject)
        → r.element ≡ element
        → Activated a r (activate mode c now table a r element)
    unfolding activate double_command set_point_normalized set_point_short unknown_type
    activate-Activated none e = inr (inl e, (refl, refl, refl))
    activate-Activated (some o) e =
        let got = activate mode c now table a r (some o) in
        elim (Bool-cases (r.type_id == TypeId.c_sc_na_1)) [
          | inl t ↦
              type_known o TypeId.c_sc_na_1 activation_con a.c_sc_na_1
                (single_command mode c now table a.c_sc_na_1 o) got (rw t refl) e (ground arith)
                refl refl (single_command-Answered a.c_sc_na_1 o)
          | inr n ↦ elim (Bool-cases (r.type_id == TypeId.c_dc_na_1)) [
            | inl t ↦
                type_known o TypeId.c_dc_na_1 activation_termination a.c_dc_na_1
                  (other_command mode c now table TypeId.c_dc_na_1 a.c_dc_na_1 o) got
                  (rw (n, t) refl) e (ground arith) refl refl
                  (other_command-Answered TypeId.c_dc_na_1 a.c_dc_na_1 o)
            | inr m ↦ elim (Bool-cases (r.type_id == TypeId.c_se_na_1)) [
              | inl t ↦
                  type_known o TypeId.c_se_na_1 activation_termination a.c_se_na_1
                    (other_command mode c now table TypeId.c_se_na_1 a.c_se_na_1 o) got
                    (rw (n, m, t) refl) e (ground arith) refl refl
                    (other_command-Answered TypeId.c_se_na_1 a.c_se_na_1 o)
              | inr l ↦ elim (Bool-cases (r.type_id == TypeId.c_se_nc_1)) [
                | inl t ↦
                    type_known o TypeId.c_se_nc_1 activation_termination a.c_se_nc_1
                      (other_command mode c now table TypeId.c_se_nc_1 a.c_se_nc_1 o) got
                      (rw (n, m, l, t) refl) e (ground arith) refl refl
                      (other_command-Answered TypeId.c_se_nc_1 a.c_se_nc_1 o)
                | inr k ↦ inr (inr (rw (n, m, l, k) refl), rw (n, m, l, k) (refl, refl, refl))
              ]
            ]
          ]
        ]

    dispatch_lem :
        (cause : Cot)
        → r.cot ≡ cause
        → ((r.cot ≡ activation) × Activated a r (dispatch mode c now table a r cause))
          ⊎ ((r.cot ≢ activation)
              × Refused unknown_cot r.is_negative (dispatch mode c now table a r cause))
    unfolding dispatch
    dispatch_lem activation e = inl (e, activate-Activated r.element refl)
    dispatch_lem cause e = inr (λ f. cc, (refl, refl, refl))

    -- Every request is answered, and the result is true. An activation of a type that has addresses,
    -- with an object of a configured address, is executed, and confirmed and terminated
    -- positively, if it is no selection and either the mode is direct or the connection holds a
    -- live selection; a selection is stored and confirmed; an execution that is not selected is
    -- refused with a negative confirmation of a single command, and a negative termination of the
    -- others. An address that is not configured, an object or a type that is unknown, and a cause
    -- other than activation are answered with the cause that tells so, the first one negatively and
    -- the others with the sign of the request, nothing is executed and the table stays as it was.
    pub legacy_asdu_handler_protocol :
        let res = legacy_asdu_handler mode c now table a r in
        (res.1 ≡ true)
        × (((r.cot ≡ activation) × Activated a r res.0)
            ⊎ ((r.cot ≢ activation) × Refused unknown_cot r.is_negative res.0))
    unfolding legacy_asdu_handler
    legacy_asdu_handler_protocol = (refl, dispatch_lem r.cot refl)
