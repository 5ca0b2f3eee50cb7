-- ===== src/Tests/Input.antt =====
-- Lines of input: an update of a measured value with no client connected, and the stop command.
use iec104_server_and_modbus.Base.{
  ◌≡◌, ◌⊎◌, refl, Bool, true, false, some, none, List, [], ◌∷◌, All, arith,
}
use iec104_server_and_modbus.Iec.TypeId
use iec104_server_and_modbus.Data.Manager.{find_ioa_index, is_client_connected}
use iec104_server_and_modbus.Data.Manager.Configured.{IsConfigured}
use iec104_server_and_modbus.Client.{start}
use iec104_server_and_modbus.Interrogation.Encoder.{Encoder}
use iec104_server_and_modbus.Input.Tracking.{
  Tracking, initial_tracking, track, updated, stamp, stamp_changed, deadband_passed,
  float_deadband_passed, track_at, offline_enqueue,
}
use iec104_server_and_modbus.Input.Line.{Surroundings, State, initial, input_handler_process_line}
use iec104_server_and_modbus.Input.Queue.{IsAnswer, input_handler_process_line_lem}
use iec104_server_and_modbus.Input.Apart.{Enqueue, after_enqueues, offline_enqueue_twice}
use iec104_server_and_modbus.Input.Stop.{IsStop, input_handler_process_line-IsStop}
use iec104_server_and_modbus.Tests.Fixtures.{
  integers, settings, encoder_of, level, switches, switches-IsConfigured, meters,
  meters-IsConfigured, meter_info,
}
use iec104_server_and_modbus.Data.Manager.Update.{IsAt}
use iec104_server_and_modbus.Data.Manager.{DataTypeContext}
use iec104_server_and_modbus.Tests.Sequence.{lamp_info}
use iec104_server_and_modbus.Tests.Fixtures.{point}
use iec104_server_and_modbus.Tests.Documents.{documents}

-- Every object takes 12 bytes and an address.
abbrev wide_encoder : Encoder
wide_encoder = encoder_of (λ _. 12)

abbrev offline : Surroundings
offline = record {
  open_connections = 0;
  is_running = true;
  queue_entries = 3;
  manager = start;
  now = 9000;
  current = 9000;
  uninitialised = level 0;
}

abbrev ready : State
ready = record (initial (switches ∷ meters ∷ [])) { slave = true; initialized = true }

input_handler_process_line_lem_example :
    let r =
      input_handler_process_line integers settings wide_encoder offline documents ready "update" in
    All IsConfigured r.1.contexts × IsAnswer integers settings wide_encoder offline r.2
input_handler_process_line_lem_example =
    input_handler_process_line_lem integers settings wide_encoder offline (λ _. omega arith)
      documents ready "update" (switches-IsConfigured, (meters-IsConfigured, tt))

input_handler_process_line-IsStop_example :
    (IsStop integers settings wide_encoder offline documents "stop"
      × ((true ≡ true) × (true ≡ true))
      × (input_handler_process_line integers settings wide_encoder offline documents ready "stop"
          ≡ (false, ready, [])))
    ⊎ (¬ (
          IsStop integers settings wide_encoder offline documents "stop"
          × ((true ≡ true) × (true ≡ true)))
        × ((input_handler_process_line integers settings wide_encoder offline documents ready
              "stop").0
            ≡ true))
input_handler_process_line-IsStop_example =
    input_handler_process_line-IsStop integers settings wide_encoder offline documents ready "stop"

abbrev first : Bool × List Tracking
first =
    offline_enqueue integers settings TypeId.m_me_nc_1 (some meter_info) meters (some 0) 9000 200
      (level 0x4000_0000) initial_tracking

queued : first.0 ≡ true
unfolding offline_enqueue track_at track updated stamp_changed stamp deadband_passed
    float_deadband_passed find_ioa_index is_client_connected
queued = refl

-- Calls for another meter and for the same one.
abbrev in_between : List Enqueue
in_between =
    record {
      type_id = TypeId.m_me_nc_1;
      info = some meter_info;
      context = meters;
      slave = some 0;
      current = 9500;
      ioa = 100;
      value = level 0x4000_0000;
    }
    ∷ record {
      type_id = TypeId.m_me_nc_1;
      info = some meter_info;
      context = meters;
      slave = some 0;
      current = 9600;
      ioa = 200;
      value = level 0x4000_0000;
    }
    ∷ []

offline_enqueue_twice_example :
    (offline_enqueue integers settings TypeId.m_me_nc_1
      (some meter_info)
      meters
      (some 0)
      10000
      200
      (level 0)
      (after_enqueues integers settings in_between first.1)).0
    ≡ false
offline_enqueue_twice_example =
    offline_enqueue_twice integers settings TypeId.m_me_nc_1 (some meter_info) (some meter_info)
      meters meters (some 0) (some 0) 9000 10000 200 (level 0x4000_0000) (level 0) initial_tracking
      in_between (omega arith) refl queued (omega arith, (omega arith, tt)) (omega arith)

-- A lamp without a time tag at address 5, which is on.
abbrev lamp : DataTypeContext
lamp = record {
  type_id = TypeId.m_sp_na_1;
  type_info = lamp_info;
  config = record { ioa_list = some (5 ∷ []); count = 1 };
  data_array = some (point 1 ∷ []);
  last_offline_update = none;
}

lamp-IsAt : IsAt integers settings lamp 5 0 (point 1)
unfolding find_ioa_index
lamp-IsAt = record { found = refl; entry = refl }
