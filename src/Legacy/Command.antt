-- ===== src/Legacy/Command.antt =====
-- `asduHandler` of json-iec104-server/json-iec104-server.c, the command handler of the server in a
-- single file. Its select table has the functions of Command.Select. What it sends and prints is
-- returned as a list, in order.
pub mod Protocol
pub mod Same
use iec104_server_and_modbus.Base.{
  ℕ, Bool, true, false, String, Option, none, some, List, [], ◌∷◌, ◌==◌, if◌then◌else◌,
}
use iec104_server_and_modbus.Iec.TypeId
use iec104_server_and_modbus.Iec.{
  Cot, activation, activation_con, activation_termination, unknown_type_id, unknown_cot,
  unknown_ioa,
}
use iec104_server_and_modbus.Data.Manager.{DynamicIoaConfig, find_ioa_index}
use iec104_server_and_modbus.Command.Select.{
  SelectEntry, store_select_state, is_previously_selected, clear_select_state,
}
use iec104_server_and_modbus.Command.Handler.{Mode, direct, sbo, is_direct}

-- What the handler reads from the first object of an ASDU: `value` is the state of a command and the
-- float of a set point, `qualifier` is QU or QL. It reads only the address of an object of another
-- type, and no qualifier of a single command.
pub record CommandObject : Type 0 where
  pub ioa : ℕ
  pub is_select : Bool
  pub value : ℕ
  pub qualifier : ℕ

-- An ASDU that a client sent; `element` is its first object, if `CS101_ASDU_getElement` finds one.
pub record Request : Type 0 where
  pub type_id : ℕ
  pub cot : Cot
  pub is_negative : Bool
  pub element : Option CommandObject

-- `reply` is `IMasterConnection_sendASDU` of the request with that cause and that sign; the others
-- are lines on the standard output.
pub data Output : Type 0 where
  reply : Cot → Bool → Output
  execute_line : ℕ → Mode → CommandObject → Output
  select_line : ℕ → Mode → ℕ → Output
  not_selected_error : Output
  not_selected_warning : ℕ → Output
  not_in_range_error : ℕ → Output
  not_in_range_warning : ℕ → Output
  unknown_type_warning : ℕ → Output

abbrev pub confirm : Output
confirm = reply activation_con false

abbrev pub terminate : Output
terminate = reply activation_termination false

-- The configuration globals of the handler.
pub record Addresses : Type 0 where
  pub c_sc_na_1 : DynamicIoaConfig
  pub c_dc_na_1 : DynamicIoaConfig
  pub c_se_na_1 : DynamicIoaConfig
  pub c_se_nc_1 : DynamicIoaConfig

-- The loop over the configured addresses.
unfoldable pub is_found : DynamicIoaConfig → ℕ → Bool
is_found config object_address = elim (find_ioa_index config object_address) [
  | none ↦ false
  | some i ↦ true
]

abbrev pub Result : Type 0
Result = List SelectEntry × List Output

-- A single command in select-before-operate mode, after the search for its selection.
unfoldable pub execute_single : CommandObject → ℕ → Bool × List SelectEntry → Result
execute_single o connection (true, table) = (
  clear_select_state o.ioa connection table,
  execute_line TypeId.c_sc_na_1 sbo o ∷ confirm ∷ terminate ∷ [],
)
execute_single o connection (false, table) =
    (table, reply activation_con true ∷ not_selected_error ∷ [])

-- The same for the other types.
unfoldable pub execute_other : ℕ → CommandObject → ℕ → Bool × List SelectEntry → Result
execute_other type_id o connection (true, table) = (
  clear_select_state o.ioa connection table,
  confirm ∷ execute_line type_id sbo o ∷ terminate ∷ [],
)
execute_other type_id o connection (false, table) =
    (table, reply activation_termination true ∷ not_selected_warning o.ioa ∷ [])

module _ (command_mode : String) (connection now : ℕ) (table : List SelectEntry) where
  -- A configured command; `execute` is its execution in select-before-operate mode.
  pub perform : (CommandObject → ℕ → Bool × List SelectEntry → Result) → ℕ → CommandObject → Result
  perform execute type_id o =
      let store = store_select_state o.ioa connection now table in
      if is_direct command_mode
      then (if o.is_select
          then (store, confirm ∷ select_line type_id direct o.ioa ∷ [])
          else (table, execute_line type_id direct o ∷ confirm ∷ terminate ∷ []))
      else (if o.is_select
          then (store, confirm ∷ select_line type_id sbo o.ioa ∷ [])
          else execute o connection (is_previously_selected o.ioa connection now table))

  unfoldable pub single_command : DynamicIoaConfig → CommandObject → Result
  unfolding perform execute_single is_found
  single_command config o =
      if is_found config o.ioa
      then perform execute_single TypeId.c_sc_na_1 o
      else (table, reply unknown_ioa true ∷ not_in_range_error o.ioa ∷ [])

  pub other_command : ℕ → DynamicIoaConfig → CommandObject → Result
  unfolding perform execute_other is_found
  other_command type_id config o =
      if is_found config o.ioa
      then perform (execute_other type_id) type_id o
      else (table, reply unknown_ioa true ∷ not_in_range_warning o.ioa ∷ [])

  unfoldable pub double_command : DynamicIoaConfig → CommandObject → Result
  unfolding other_command
  double_command = other_command TypeId.c_dc_na_1

  unfoldable pub set_point_normalized : DynamicIoaConfig → CommandObject → Result
  unfolding other_command
  set_point_normalized = other_command TypeId.c_se_na_1

  unfoldable pub set_point_short : DynamicIoaConfig → CommandObject → Result
  unfolding other_command
  set_point_short = other_command TypeId.c_se_nc_1

  pub unknown_type : Request → Result
  unknown_type r =
      (table, reply unknown_type_id r.is_negative ∷ unknown_type_warning r.type_id ∷ [])

  -- An activation, by its first object.
  unfoldable pub activate : Addresses → Request → Option CommandObject → Result
  unfolding single_command double_command set_point_normalized set_point_short unknown_type
  activate a r none = unknown_type r
  activate a r (some o) =
      if r.type_id == TypeId.c_sc_na_1
      then single_command a.c_sc_na_1 o
      else if r.type_id == TypeId.c_dc_na_1
      then double_command a.c_dc_na_1 o
      else if r.type_id == TypeId.c_se_na_1
      then set_point_normalized a.c_se_na_1 o
      else if r.type_id == TypeId.c_se_nc_1
      then set_point_short a.c_se_nc_1 o
      else unknown_type r

  -- By the cause of transmission.
  unfoldable pub dispatch : Addresses → Request → Cot → Result
  unfolding activate
  dispatch a r activation = activate a r r.element
  dispatch a r cause = (table, reply unknown_cot r.is_negative ∷ [])

  -- The table, what was sent and printed, and the result.
  unfoldable pub legacy_asdu_handler : Addresses → Request → Result × Bool
  unfolding dispatch
  legacy_asdu_handler a r = (dispatch a r r.cot, true)
