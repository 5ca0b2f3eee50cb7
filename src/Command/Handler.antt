-- ===== src/Command/Handler.antt =====
-- The handlers of json-iec104-server/src/protocol/command_handler.c. What they send and print is
-- returned as a list, in order.
use iec104_server_and_modbus.Base.{
  ℕ, Bool, true, false, String, str_eq, Option, none, some, List, [], ◌∷◌, ◌==◌, if◌then◌else◌,
}
use iec104_server_and_modbus.Iec.TypeId
use iec104_server_and_modbus.Iec.{Cot, activation_con, activation_termination}
use iec104_server_and_modbus.Data.Manager.{DataTypeContext, reset_all_data}
use iec104_server_and_modbus.Command.Select.{
  SelectEntry, store_select_state, is_previously_selected, clear_select_state,
}

-- What a handler reads from an ASDU and from its first object. `value` is the state of a single
-- command and the float of a set point; `qualifier` is QU, QL or QRP.
pub record Request : Type 0 where
  pub type_id : ℕ
  pub cot : Cot
  pub is_negative : Bool
  pub ioa : ℕ
  pub is_select : Bool
  pub value : ℕ
  pub qualifier : ℕ

pub data Mode : Type 0 where
  direct sbo : Mode

-- `reply` is `IMasterConnection_sendASDU` of the request with that cause and that sign; the others
-- are lines on the standard output. An `execute_line` has the type, the mode, the address, the value
-- and, for a set point, the qualifier QL.
pub data Output : Type 0 where
  reply : Cot → Bool → Output
  execute_line : ℕ → Mode → ℕ → ℕ → Option ℕ → Output
  select_line : ℕ → Mode → ℕ → Output
  reset_line : ℕ → ℕ → Output
  not_selected_error : Output
  not_selected_warning : ℕ → Output

abbrev pub is_direct : String → Bool
is_direct command_mode = str_eq command_mode "direct"

abbrev pub confirm : Request → Output
confirm r = reply activation_con r.is_negative

abbrev pub terminate : Request → Output
terminate r = reply activation_termination r.is_negative

-- What is printed for an execution that was not selected.
abbrev pub not_selected : Request → Output
not_selected r =
    if r.type_id == TypeId.c_sc_na_1 then not_selected_error else not_selected_warning r.ioa

-- What the line of an executed command says after the value: nothing for a single command, the
-- qualifier for a set point.
abbrev pub printed_qualifier : Request → Option ℕ
printed_qualifier r = if r.type_id == TypeId.c_sc_na_1 then none else some r.qualifier

unfoldable pub execute_selected :
    Request → ℕ → Bool × List SelectEntry → List SelectEntry × List Output
execute_selected r connection (true, table) = (
  clear_select_state r.ioa connection table,
  execute_line r.type_id sbo r.ioa r.value (printed_qualifier r) ∷ confirm r ∷ terminate r ∷ [],
)
execute_selected r connection (false, table) =
    (table, reply activation_termination true ∷ not_selected r ∷ [])

-- The body that `handle_single_command` and `handle_set_point_command` share.
handle_command : String → Request → ℕ → ℕ → List SelectEntry → List SelectEntry × List Output
unfolding execute_selected
handle_command command_mode r connection now table =
    let store = store_select_state r.ioa connection now table in
    if is_direct command_mode
    then (if r.is_select then (store, confirm r ∷ select_line r.type_id direct r.ioa ∷ []) else (
      table,
      execute_line r.type_id direct r.ioa r.value (printed_qualifier r)
          ∷ confirm r
          ∷ terminate r
          ∷ [],
    ))
    else (if r.is_select
        then (store, confirm r ∷ select_line r.type_id sbo r.ioa ∷ [])
        else execute_selected r connection (is_previously_selected r.ioa connection now table))

unfoldable pub handle_single_command :
    String → Request → ℕ → ℕ → List SelectEntry → List SelectEntry × List Output
unfolding handle_command
handle_single_command = handle_command

unfoldable pub handle_set_point_command :
    String → Request → ℕ → ℕ → List SelectEntry → List SelectEntry × List Output
unfolding handle_command
handle_set_point_command = handle_command

unfoldable pub handle_reset_process_command :
    Request → List DataTypeContext → List DataTypeContext × List Output
handle_reset_process_command r contexts = (
  if r.qualifier == 1 then reset_all_data contexts else contexts,
  confirm r ∷ reset_line r.ioa r.qualifier ∷ terminate r ∷ [],
)

pub record State : Type 0 where
  pub select_table : List SelectEntry
  pub contexts : List DataTypeContext

keep_contexts : State → List SelectEntry × List Output → State × List Output × Bool
keep_contexts s (table, out) = (record s { select_table = table }, out, true)

keep_table : State → List DataTypeContext × List Output → State × List Output × Bool
keep_table s (contexts, out) = (record s { contexts = contexts }, out, true)

-- The state, what was sent and printed, and the result.
unfoldable pub asdu_handler : String → Request → ℕ → ℕ → State → State × List Output × Bool
unfolding keep_contexts keep_table
asdu_handler command_mode r connection now s =
    if r.type_id == TypeId.c_sc_na_1
    then keep_contexts s (handle_single_command command_mode r connection now s.select_table)
    else if r.type_id == TypeId.c_se_nc_1
    then keep_contexts s (handle_set_point_command command_mode r connection now s.select_table)
    else if r.type_id == TypeId.c_rp_na_1
    then keep_table s (handle_reset_process_command r s.contexts)
    else (s, [], false)
