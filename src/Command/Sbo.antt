-- ===== src/Command/Sbo.antt =====
-- The two modes of the command handlers: direct execution, and select before operate.
use iec104_server_and_modbus.Base.{
  ℕ, ◌<◌, ◌≡◌, ◌≢◌, ◌⊎◌, inl, inr, Bool, true, false, String, List, [], ◌∷◌, sub_u64, arith,
  Bool-cases,
}
use iec104_server_and_modbus.Iec.{Cot, activation_con, activation_termination}
use iec104_server_and_modbus.Command.Select.{
  SelectEntry, store_select_state, is_previously_selected, clear_select_state,
}
use iec104_server_and_modbus.Command.Select.Store.{
  HasNone, has_room, store-check-clear, is_previously_selected-HasNone, store-full,
}
use iec104_server_and_modbus.Command.Handler.{
  Request, Output, reply, execute_line, is_direct, handle_single_command,
}

-- The commands that are printed for execution, and the causes and signs that are sent back.
abbrev pub executes : List Output → Bool
executes [] = false
executes (execute_line t m ioa v q ∷ out) = true
executes (o ∷ out) = executes out

abbrev pub replies : List Output → List (Cot × Bool)
replies [] = []
replies (reply c n ∷ out) = (c, n) ∷ replies out
replies (o ∷ out) = replies out

-- Every command is answered, and how it is answered tells whether it is executed. A command that
-- is executed is confirmed and then terminated, with the sign of the request; a selection is only
-- confirmed; an execution that is refused is answered once, by a negative termination, and this
-- happens only in select-before-operate mode to a connection with no live selection.
pub handle_single_command_protocol :
    (mode : String) (r : Request) (c now : ℕ) (table : List SelectEntry)
    → let out = (handle_single_command mode r c now table).1 in
      ((executes out ≡ true)
        × (r.is_select ≡ false)
        × (replies out
            ≡ (activation_con, r.is_negative) ∷ (activation_termination, r.is_negative) ∷ []))
      ⊎ ((executes out ≡ false)
          × (r.is_select ≡ true)
          × (replies out ≡ (activation_con, r.is_negative) ∷ []))
      ⊎ ((executes out ≡ false)
          × (r.is_select ≡ false)
          × (is_direct mode ≡ false)
          × ((is_previously_selected r.ioa c now table).0 ≡ false)
          × (replies out ≡ (activation_termination, true) ∷ []))
unfolding handle_single_command
handle_single_command_protocol mode r c now table = elim (Bool-cases (r.is_select)) [
  | inl sel ↦ elim (Bool-cases (is_direct mode)) [
    | inl d ↦ inr (inl (ground arith, sel, ground arith))
    | inr s ↦ inr (inl (ground arith, sel, ground arith))
  ]
  | inr exe ↦ elim (Bool-cases (is_direct mode)) [
    | inl d ↦ inl (ground arith, exe, ground arith)
    | inr s ↦ elim (Bool-cases ((is_previously_selected r.ioa c now table).0)) [
      | inl found ↦ inl (ground arith, exe, ground arith)
      | inr lost ↦ inr (inr (ground arith, exe, s, lost, ground arith))
    ]
  ]
]

-- Select before operate, on a table with room where the connection does not hold the address yet:
-- a selection is confirmed and executes nothing, an execution by the same connection within 5
-- seconds is carried out, confirmed and terminated, and a second execution, whenever it comes, is
-- not carried out and gets a negative termination as its only answer.
pub select_execute_once :
    (mode : String) (sel exe : Request) (c now later again : ℕ) (table : List SelectEntry)
    → is_direct mode ≡ false
    → sel.is_select ≡ true
    → exe.is_select ≡ false
    → exe.ioa ≡ sel.ioa
    → has_room sel.ioa table ≡ true
    → HasNone sel.ioa c table
    → sub_u64 later now < 5000
    → let first = handle_single_command mode sel c now table in
      let second = handle_single_command mode exe c later first.0 in
      let third = handle_single_command mode exe c again second.0 in
      ((executes first.1 ≡ false) × (replies first.1 ≡ (activation_con, sel.is_negative) ∷ []))
      × ((executes second.1 ≡ true)
          × (replies second.1
              ≡ (activation_con, exe.is_negative) ∷ (activation_termination, exe.is_negative) ∷ []))
      × ((executes third.1 ≡ false) × (replies third.1 ≡ (activation_termination, true) ∷ []))
unfolding handle_single_command
select_execute_once mode sel exe c now later again table m s x same room free soon =
    let stored = store_select_state sel.ioa c now table in
    let step = store-check-clear sel.ioa c now later table room free soon in
    let refused =
      is_previously_selected-HasNone sel.ioa c again (clear_select_state sel.ioa c stored) step.1 in
    ground arith

-- A table with no room is a dead end. Where every entry is selected for another address, however
-- old its selection is, a selection is confirmed all the same but not stored, and the execution
-- that follows is refused, whenever it comes.
pub full_table_refuses :
    (mode : String) (sel exe : Request) (c now later : ℕ) (table : List SelectEntry)
    → is_direct mode ≡ false
    → sel.is_select ≡ true
    → exe.is_select ≡ false
    → exe.ioa ≡ sel.ioa
    → has_room sel.ioa table ≡ false
    → HasNone sel.ioa c table
    → let first = handle_single_command mode sel c now table in
      let second = handle_single_command mode exe c later first.0 in
      (replies first.1 ≡ (activation_con, sel.is_negative) ∷ [])
      × (first.0 ≡ table)
      × (executes second.1 ≡ false)
      × (replies second.1 ≡ (activation_termination, true) ∷ [])
unfolding handle_single_command
full_table_refuses mode sel exe c now later table m s x same full none_held =
    let kept = store-full sel.ioa c now table full in
    let refused = is_previously_selected-HasNone sel.ioa c later table none_held in ground arith

-- Two connections can hold the same address at once. Where the first entry is free and a later
-- one holds a live selection of the address by a connection, a selection by another connection
-- takes the free entry, and an execution by either of them is then carried out.
pub rival_selections :
    (mode : String) (sel exe : Request) (c rival now later : ℕ) (e : SelectEntry)
    (table : List SelectEntry)
    → is_direct mode ≡ false
    → sel.is_select ≡ true
    → exe.is_select ≡ false
    → exe.ioa ≡ sel.ioa
    → e.is_selected ≡ false
    → c ≢ rival
    → (is_previously_selected sel.ioa rival later table).0 ≡ true
    → sub_u64 later now < 5000
    → let stored = (handle_single_command mode sel c now (e ∷ table)).0 in
      (executes (handle_single_command mode exe c later stored).1 ≡ true)
      × (executes (handle_single_command mode exe rival later stored).1 ≡ true)
unfolding handle_single_command store_select_state is_previously_selected
rival_selections mode sel exe c rival now later e table m s x same free ne held soon =
    (ground arith, ground arith)
