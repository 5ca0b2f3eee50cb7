-- ===== src/Tests/Command.antt =====
-- Commands in select-before-operate mode.
use iec104_server_and_modbus.Base.{
  ℕ, zero, suc, ◌<◌, ◌≡◌, ◌⊎◌, refl, Bool, true, false, List, [], ◌∷◌, replicate, sub_u64, arith,
}
use iec104_server_and_modbus.Iec.{activation, activation_con, activation_termination}
use iec104_server_and_modbus.Iec.TypeId
use iec104_server_and_modbus.Command.Select.{
  SelectEntry, empty_entry, empty_table, selected, store_select_state, is_previously_selected,
  clear_select_state,
}
use iec104_server_and_modbus.Command.Select.Store.{HasNone, has_room}
use iec104_server_and_modbus.Command.Handler.{
  Request, State, is_direct, execute_selected, handle_single_command, asdu_handler,
}
use iec104_server_and_modbus.Command.Sbo.{
  executes, replies, handle_single_command_protocol, select_execute_once, full_table_refuses,
  rival_selections,
}
use iec104_server_and_modbus.Command.History.{Event, after, WasSelected, execution-WasSelected}

-- A single command for address 5: a selection or an execution.
abbrev command : Bool → Request
command select = record {
  type_id = TypeId.c_sc_na_1;
  cot = activation;
  is_negative = false;
  ioa = 5;
  is_select = select;
  value = 1;
  qualifier = 0;
}

none_in_empty : (n : ℕ) → HasNone 5 7 (replicate n empty_entry)
none_in_empty zero = tt
none_in_empty (suc n) = (refl, none_in_empty n)

room_in_empty : has_room 5 empty_table ≡ true
unfolding has_room
room_in_empty = refl

-- A table with every entry selected for address 6.
abbrev full_table : ℕ → List SelectEntry
full_table n = replicate n (selected 6 7 0)

none_in_full : (n : ℕ) → HasNone 5 7 (full_table n)
none_in_full zero = tt
none_in_full (suc n) = (refl, none_in_full n)

no_room_in_full : has_room 5 (full_table 100) ≡ false
unfolding has_room
no_room_in_full = refl

handle_single_command_protocol_example :
    let out = (handle_single_command "sbo" (command false) 7 1000 empty_table).1 in
    ((executes out ≡ true)
      × (false ≡ false)
      × (replies out ≡ (activation_con, false) ∷ (activation_termination, false) ∷ []))
    ⊎ ((executes out ≡ false) × (false ≡ true) × (replies out ≡ (activation_con, false) ∷ []))
    ⊎ ((executes out ≡ false)
        × (false ≡ false)
        × (is_direct "sbo" ≡ false)
        × ((is_previously_selected 5 7 1000 empty_table).0 ≡ false)
        × (replies out ≡ (activation_termination, true) ∷ []))
handle_single_command_protocol_example =
    handle_single_command_protocol "sbo" (command false) 7 1000 empty_table

select_execute_once_example :
    let first = handle_single_command "sbo" (command true) 7 1000 empty_table in
    let second = handle_single_command "sbo" (command false) 7 2000 first.0 in
    let third = handle_single_command "sbo" (command false) 7 2100 second.0 in
    ((executes first.1 ≡ false) × (replies first.1 ≡ (activation_con, false) ∷ []))
    × ((executes second.1 ≡ true)
        × (replies second.1 ≡ (activation_con, false) ∷ (activation_termination, false) ∷ []))
    × ((executes third.1 ≡ false) × (replies third.1 ≡ (activation_termination, true) ∷ []))
select_execute_once_example =
    select_execute_once "sbo" (command true) (command false) 7 1000 2000 2100 empty_table refl refl
      refl refl room_in_empty (none_in_empty 100) (omega arith)

full_table_refuses_example :
    let first = handle_single_command "sbo" (command true) 7 9000 (full_table 100) in
    let second = handle_single_command "sbo" (command false) 7 9100 first.0 in
    (replies first.1 ≡ (activation_con, false) ∷ [])
    × (first.0 ≡ full_table 100)
    × (executes second.1 ≡ false)
    × (replies second.1 ≡ (activation_termination, true) ∷ [])
full_table_refuses_example =
    full_table_refuses "sbo" (command true) (command false) 7 9000 9100 (full_table 100) refl refl
      refl refl no_room_in_full (none_in_full 100)

held : (is_previously_selected 5 8 1200 (selected 5 8 900 ∷ [])).0 ≡ true
unfolding is_previously_selected
held = refl

rival_selections_example :
    let stored =
      (handle_single_command "sbo" (command true) 7 1000 (empty_entry ∷ selected 5 8 900 ∷ [])).0 in
    (executes (handle_single_command "sbo" (command false) 7 1200 stored).1 ≡ true)
    × (executes (handle_single_command "sbo" (command false) 8 1200 stored).1 ≡ true)
rival_selections_example =
    rival_selections "sbo" (command true) (command false) 7 8 1000 1200 empty_entry
      (selected 5 8 900 ∷ []) refl refl refl refl refl (omega arith) held (omega arith)

abbrev initial : State
initial = record { select_table = empty_table; contexts = [] }

-- One selection by connection 7.
abbrev history : List Event
history = record { request = command true; connection = 7; now = 1000 } ∷ []

ran : executes (asdu_handler "sbo" (command false) 7 2000 (after "sbo" initial history)).1 ≡ true
unfolding asdu_handler after handle_single_command store_select_state is_previously_selected
    clear_select_state execute_selected
ran = refl

execution-WasSelected_example : (t : ℕ) × WasSelected 5 7 t history × (sub_u64 2000 t < 5000)
execution-WasSelected_example =
    execution-WasSelected "sbo" initial history (command false) 7 2000 refl refl ran
