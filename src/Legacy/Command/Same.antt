-- ===== src/Legacy/Command/Same.antt =====
-- The command handlers of json-iec104-server/json-iec104-server.c and of
-- json-iec104-server/src/protocol/command_handler.c on the types that both handle.
use iec104_server_and_modbus.Base.{
  ℕ, ◌≡◌, ◌⊎◌, inl, inr, refl, sym, subst, Bool, true, false, String, Option, none, some, List, [],
  ◌∷◌, ◌==◌, if◌then◌else◌, if_both,
}
use iec104_server_and_modbus.Iec.TypeId
use iec104_server_and_modbus.Iec.{Cot, activation, activation_con, activation_termination}
use iec104_server_and_modbus.Command.Select.{SelectEntry, is_previously_selected}
use iec104_server_and_modbus.Command.Handler
use iec104_server_and_modbus.Command.Handler.{
  is_direct, State, asdu_handler, execute_selected, handle_single_command,
}
use iec104_server_and_modbus.Command.Sbo
use iec104_server_and_modbus.Data.Manager.{DynamicIoaConfig}
use iec104_server_and_modbus.Legacy.Command.{
  CommandObject, Request, Output, execute_line, Addresses, Result, is_found, perform,
  execute_single, execute_other, legacy_asdu_handler,
}
use iec104_server_and_modbus.Legacy.Command.Protocol.{configured, replies}

-- An activation with one object, as either handler reads it.
abbrev pub legacy_request : ℕ → CommandObject → Request
legacy_request t o = record { type_id = t; cot = activation; is_negative = false; element = some o }

abbrev pub new_request : ℕ → CommandObject → Handler.Request
new_request t o = record {
  type_id = t;
  cot = activation;
  is_negative = false;
  ioa = o.ioa;
  is_select = o.is_select;
  value = o.value;
  qualifier = o.qualifier;
}

-- What the line of an executed command has after the value.
abbrev pub legacy_qualifier : ℕ → CommandObject → Option ℕ
legacy_qualifier t o = if t == TypeId.c_sc_na_1 then none else some o.qualifier

-- The type, the address, the value and, of a set point, the qualifier of what is executed.
abbrev pub orders : List Output → List (ℕ × ℕ × ℕ × Option ℕ)
orders [] = []
orders (execute_line t m o ∷ out) = (t, o.ioa, o.value, legacy_qualifier t o) ∷ orders out
orders (o ∷ out) = orders out

abbrev pub new_orders : List Handler.Output → List (ℕ × ℕ × ℕ × Option ℕ)
new_orders [] = []
new_orders (Handler.execute_line t m ioa v q ∷ out) = (t, ioa, v, q) ∷ new_orders out
new_orders (o ∷ out) = new_orders out

-- The same answers, or a refusal with the other cause.
abbrev pub SameReplies : List (Cot × Bool) → List (Cot × Bool) → Type 0
SameReplies old new =
    (old ≡ new)
    ⊎ ((old ≡ (activation_con, true) ∷ []) × (new ≡ (activation_termination, true) ∷ []))

-- The same table, the same orders and the same answers.
abbrev pub Agree : Result → List SelectEntry × List Handler.Output → Type 0
Agree old new =
    (old.0 ≡ new.0)
    × (orders old.1 ≡ new_orders new.1)
    × SameReplies (replies old.1) (Sbo.replies new.1)

module _ (mode : String) (c now : ℕ) (o : CommandObject) where
  perform-Agree :
      (execute : CommandObject → ℕ → Bool × List SelectEntry → Result) (t : ℕ)
      (table : List SelectEntry)
      → ((b : Bool) (left : List SelectEntry)
          → Agree (execute o c (b, left)) (execute_selected (new_request t o) c (b, left)))
      → Agree
          (perform mode c now table execute t o)
          (handle_single_command mode (new_request t o) c now table)
  unfolding perform handle_single_command
  perform-Agree execute t table h =
      let p = is_previously_selected o.ioa c now table in
      if_both Agree (is_direct mode)
        (if_both Agree (o.is_select) (refl, refl, inl refl) (refl, refl, inl refl))
        (if_both Agree (o.is_select) (refl, refl, inl refl) (h p.0 p.1))

  execute_single-Agree :
      (b : Bool) (left : List SelectEntry)
      → Agree
          (execute_single o c (b, left))
          (execute_selected (new_request TypeId.c_sc_na_1 o) c (b, left))
  unfolding execute_single execute_selected
  execute_single-Agree true left = (refl, refl, inl refl)
  execute_single-Agree false left = (refl, refl, inr (refl, refl))

  execute_other-Agree :
      (b : Bool) (left : List SelectEntry)
      → Agree
          (execute_other TypeId.c_se_nc_1 o c (b, left))
          (execute_selected (new_request TypeId.c_se_nc_1 o) c (b, left))
  unfolding execute_other execute_selected
  execute_other-Agree true left = (refl, refl, inl refl)
  execute_other-Agree false left = (refl, refl, inl refl)

  module _ (a : Addresses) (s : State) where
    abbrev pub HandlersAgree : ℕ → Type 0
    HandlersAgree t =
        let old = legacy_asdu_handler mode c now s.select_table a (legacy_request t o) in
        let new = asdu_handler mode (new_request t o) c now s in
        Agree old.0 (new.0.select_table, new.1) × (new.0.contexts ≡ s.contexts) × (old.1 ≡ new.2)

    single-agree : is_found a.c_sc_na_1 o.ioa ≡ true → HandlersAgree TypeId.c_sc_na_1
    unfolding legacy_asdu_handler asdu_handler
    single-agree found = rw found (
      perform-Agree execute_single TypeId.c_sc_na_1 s.select_table execute_single-Agree,
      refl,
      refl,
    )

    short-agree : is_found a.c_se_nc_1 o.ioa ≡ true → HandlersAgree TypeId.c_se_nc_1
    unfolding legacy_asdu_handler asdu_handler Handler.handle_set_point_command
        handle_single_command
    short-agree found = rw found (
      perform-Agree (execute_other TypeId.c_se_nc_1) TypeId.c_se_nc_1 s.select_table
          execute_other-Agree,
      refl,
      refl,
    )

    -- For a positive activation of a single command or of a short set point at a configured address,
    -- the handler of the server in a single file and that of its successor leave the same table, execute
    -- the same command with the same value and, for a set point, the same qualifier, answer alike and
    -- both return true; but for an execution that is not selected, which may be refused with a negative
    -- confirmation by the first, and is with a negative termination by the second. (The texts differ: the
    -- value of a single command is printed as true or false by the first, as "on" or "off" by the second.)
    pub legacy_asdu_handler-same :
        (t : ℕ) (config : DynamicIoaConfig)
        → (t ≡ TypeId.c_sc_na_1) ⊎ (t ≡ TypeId.c_se_nc_1)
        → configured a t ≡ some config
        → is_found config o.ioa ≡ true
        → HandlersAgree t
    legacy_asdu_handler-same t config (inl single) set found =
        let same : some a.c_sc_na_1 ≡ some config =
          subst (λ k. configured a k ≡ some config) single set in
        subst HandlersAgree (sym single)
          (single-agree (subst (λ x. is_found x o.ioa ≡ true) (cc) found))
    legacy_asdu_handler-same t config (inr short) set found =
        let same : some a.c_se_nc_1 ≡ some config =
          subst (λ k. configured a k ≡ some config) short set in
        subst HandlersAgree (sym short)
          (short-agree (subst (λ x. is_found x o.ioa ≡ true) (cc) found))
