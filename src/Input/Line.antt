-- ===== src/Input/Line.antt =====
-- `input_handler_process_line` of json-iec104-server/src/input/input_handler.c, and the module's
-- state. What the handler reads of its surroundings is a record: the clocks, the slave and the
-- memory of its local variable `val`. `CS101_ASDU_create` succeeds.
use iec104_server_and_modbus.Base.{
  ℕ, String, str_eq, Bool, true, false, not, ◌||◌, ◌&&◌, Option, none, some, List, [], ◌∷◌,
  get_elem?, set, ltb, if◌then◌else◌,
}
use iec104_server_and_modbus.Cfloat.{FloatUnit}
use iec104_server_and_modbus.Globals.{Globals}
use iec104_server_and_modbus.Cjson.{Cjson}
use iec104_server_and_modbus.Iec.{Asdu, InformationObject, create_asdu, spontaneous}
use iec104_server_and_modbus.Data.Types.{
  DataValue, get_data_type_info, get_data_type_info_by_name, parse_qualifier_from_string,
}
use iec104_server_and_modbus.Data.Manager.{DataTypeContext, get_data_context, update_data}
use iec104_server_and_modbus.Client.{ClientManager, client_manager_get_clients_json}
use iec104_server_and_modbus.Interrogation.Objects.{create_io_for_type, create_offline_io_for_type}
use iec104_server_and_modbus.Interrogation.Encoder.{Encoder}
use iec104_server_and_modbus.Input.Convert.{convert_input_to_value}
use iec104_server_and_modbus.Input.Tracking.{Tracking, initial_tracking, offline_enqueue}

-- What a line has the server do: an answer on standard output, or an ASDU for the queue.
pub data Output : Type 0 where
  clients : List (List ℕ × ℕ) × ℕ → Output
  queue_count : ℕ → Output
  enqueued : Asdu → Output

-- The number of open connections, whether the slave runs and the length of its queue; the time for
-- `update_data`, the time of the offline queue, and `val` before it is assigned.
pub record Surroundings : Type 0 where
  pub open_connections : ℕ
  pub is_running : Bool
  pub queue_entries : ℕ
  pub manager : ClientManager
  pub now : ℕ
  pub current : ℕ
  pub uninitialised : DataValue

-- The module's `slave`, as not NULL, and `initialized`; `g_data_contexts`, and `offline_tracking`.
pub record State : Type 0 where
  pub slave : Bool
  pub initialized : Bool
  pub contexts : List DataTypeContext
  pub tracking : List Tracking

abbrev pub initial : List DataTypeContext → State
initial cs = record {
  slave = false;
  initialized = false;
  contexts = cs;
  tracking = initial_tracking;
}

unfoldable pub input_handler_init : Bool → State → State
input_handler_init slave s = record s { slave = slave; initialized = true }

unfoldable pub input_handler_cleanup : State → State
input_handler_cleanup s = record s { slave = false; initialized = false }

module _ (f : FloatUnit) (g : Globals) (enc : Encoder) (env : Surroundings) where
  -- The ASDU with the object, if there is one.
  unfoldable pub spontaneous_asdu : Option InformationObject → List Output
  spontaneous_asdu none = []
  spontaneous_asdu (some io) = enqueued (enc.add (create_asdu false spontaneous 0 g.asdu) io) ∷ []

  unfoldable pub enqueue : Bool → Bool → ℕ → ℕ → DataValue → List Output
  unfolding spontaneous_asdu create_io_for_type create_offline_io_for_type
  enqueue should_send_immediately offline type_id ioa v =
      if should_send_immediately || offline
      then spontaneous_asdu (
          if offline
          then create_offline_io_for_type type_id ioa v
          else create_io_for_type type_id ioa v)
      else []

  -- The update of the context at `i`.
  unfoldable pub update_context :
      State → ℕ → DataTypeContext → ℕ → ℕ → DataValue → State × List Output
  unfolding offline_enqueue update_data enqueue
  update_context s i ctx type_id ioa v =
      let slave = some env.open_connections in
      let offline =
        offline_enqueue f g type_id (get_data_type_info type_id) ctx slave env.current ioa v
          s.tracking in
      let r = update_data f g ctx slave env.now ioa v in
      (
        record s { contexts = set s.contexts i r.0; tracking = offline.1 },
        enqueue r.1 offline.0 type_id ioa v,
      )

  -- `get_data_context` has found a context, whose type is in the table. The write of the time to the
  -- address `stray` is assumed to leave the state alone.
  unfoldable pub update_found :
      State → ℕ → Option DataTypeContext → ℕ → ℕ → Option (DataValue × ℕ) → State × List Output
  unfolding update_context
  update_found s i (some ctx) type_id ioa (some (v, stray)) = update_context s i ctx type_id ioa v
  update_found s i _ type_id ioa _ = (s, [])

  -- `qual` and `ioa` are patterns of an `int`.
  unfoldable pub apply_update : State → ℕ → ℕ → ℕ → ℕ → State × List Output
  unfolding get_data_context convert_input_to_value update_found
  apply_update s type_id ioa qual input_val = elim (get_data_context s.contexts type_id) [
    | none ↦ (s, [])
    | some i ↦
        update_found s i (get_elem? s.contexts i) type_id ioa
          (convert_input_to_value f type_id input_val qual env.uninitialised)
  ]

  module _ (j : Cjson) where
    -- The type, 0 if there is none. `TypeID` is an enumeration with the numbers of an `int`.
    unfoldable pub input_type : j.Item → ℕ
    unfolding get_data_type_info_by_name
    input_type item =
        if j.string item
        then elim (get_data_type_info_by_name (j.valuestring item)) [
          | none ↦ 0
          | some info ↦ info.type_id
        ]
        else if j.number item
        then j.valueint item
        else 0

    unfoldable pub input_qualifier : Option j.Item → ℕ
    unfolding parse_qualifier_from_string
    input_qualifier none = 0
    input_qualifier (some item) =
        if j.string item
        then parse_qualifier_from_string (j.valuestring item)
        else if j.number item
        then j.valueint item
        else 0

    -- `type_id > 0`, as `TypeID` is unsigned, and the address is a number.
    unfoldable pub process_update : State → j.Item → j.Item → j.Item → State × List Output
    unfolding input_type input_qualifier apply_update
    process_update s json type_item value_item = elim (j.get_object_item json "address") [
      | none ↦ (s, [])
      | some addr_item ↦
          if ltb 0 (input_type type_item) && j.number addr_item
          then apply_update s (input_type type_item) (j.valueint addr_item)
              (input_qualifier (j.get_object_item json "qualifier")) (j.valuedouble value_item)
          else (s, [])
    ]

    unfoldable pub process_data : State → j.Item → State × List Output
    unfolding process_update
    process_data s json = items (j.get_object_item json "type") (j.get_object_item json "value")
      where
        items : Option j.Item → Option j.Item → State × List Output
        items (some type_item) (some value_item) = process_update s json type_item value_item
        items _ _ = (s, [])

    -- The command, if the line has one; an item that is a string has a text.
    unfoldable pub command : j.Item → Option String
    command json = elim (j.get_object_item json "cmd") [
      | none ↦ none
      | some item ↦ if j.string item then j.valuestring item else none
    ]

    unfoldable pub go_on : State × List Output → Bool × State × List Output
    go_on (s, out) = (true, s, out)

    unfoldable pub run_line : State → j.Item → Option String → Bool × State × List Output
    unfolding process_data go_on
    run_line s json cmd = elim cmd [
      | none ↦ go_on (process_data s json)
      | some c ↦
          if str_eq c "stop"
          then (false, s, [])
          else if str_eq c "get_connected_clients"
          then (true, s, clients (client_manager_get_clients_json env.manager) ∷ [])
          else if str_eq c "get_queue_count"
          then (true, s, queue_count (if env.is_running then env.queue_entries else 0) ∷ [])
          else go_on (process_data s json)
    ]

    -- Whether to go on reading, the state, and what is done.
    unfoldable pub input_handler_process_line : State → String → Bool × State × List Output
    unfolding command run_line
    input_handler_process_line s line =
        if not s.initialized || not s.slave then (true, s, []) else elim (j.parse line) [
          | none ↦ (true, s, [])
          | some json ↦ run_line s json (command json)
        ]
