-- ===== src/Tests/Interrogation.antt =====
-- Interrogations and periodic transmission of the configured contexts.
use iec104_server_and_modbus.Base.{
  ℕ, ◌≡◌, ◌≢◌, ◌⊎◌, inl, refl, true, false, some, List, [], ◌∷◌, ◌++◌, map, All, arith,
}
use iec104_server_and_modbus.Iec.{Asdu, address, interrogated_by_station, periodic}
use iec104_server_and_modbus.Data.Types.{get_data_type_info}
use iec104_server_and_modbus.Data.Manager.{DataTypeContext}
use iec104_server_and_modbus.Interrogation.Complete.{sent_objects, HasHeader}
use iec104_server_and_modbus.Interrogation.Station.{
  act_con, act_term, asdu, interrogation_handler, IsServed, context_objects, station_objects,
  interrogation_handler_lem,
}
use iec104_server_and_modbus.Periodic.{PeriodicConfig, send_periodic_data_for_type}
use iec104_server_and_modbus.Periodic.Interval.{is_due, send_periodic_data_for_type_lem}
use iec104_server_and_modbus.Tests.Fixtures.{
  encoder, encoder_sizes, switches, switches-IsValid, meters, meters-IsValid,
}

switches-IsServed : IsServed switches
unfolding get_data_type_info
switches-IsServed = record {
  valid = switches-IsValid;
  known = refl;
  range = omega arith;
  few = inl (omega arith);
}

meters-IsServed : IsServed meters
unfolding get_data_type_info
meters-IsServed = record {
  valid = meters-IsValid;
  known = refl;
  range = omega arith;
  few = inl (omega arith);
}

abbrev contexts : List DataTypeContext
contexts = switches ∷ meters ∷ []

abbrev station : ℕ
station = 20

interrogation_handler_lem_example :
    ((station ≡ 20)
      × ((sent : List Asdu) × (interrogation_handler encoder 1 contexts station
            ≡ some (act_con false ∷ (map asdu sent ++ (act_term ∷ [])), true))
          × (sent_objects sent ≡ station_objects contexts)
          × (map address (sent_objects sent) ≡ 10 ∷ 11 ∷ 12 ∷ 100 ∷ 200 ∷ [])
          × All (HasHeader interrogated_by_station 1) sent))
    ⊎ ((station ≢ 20)
        × (interrogation_handler encoder 1 contexts station ≡ some (act_con true ∷ [], false)))
interrogation_handler_lem_example =
    interrogation_handler_lem encoder encoder_sizes (omega arith) (omega arith) 1 contexts station
      (switches-IsServed, (meters-IsServed, tt))

-- Every 5 seconds, last at time 1000.
abbrev each_5_s : PeriodicConfig
each_5_s = record { enabled = true; period_ms = 5000; last_sent = 1000 }

send_periodic_data_for_type_lem_example :
    ((is_due 7000 meters each_5_s ≡ true)
      × ((sent : List Asdu) × (send_periodic_data_for_type encoder 1 7000 meters each_5_s
            ≡ some (sent, record each_5_s { last_sent = 7000 }))
          × (sent_objects sent ≡ context_objects meters)
          × All (HasHeader periodic 1) sent))
    ⊎ ((is_due 7000 meters each_5_s ≡ false)
        × (send_periodic_data_for_type encoder 1 7000 meters each_5_s ≡ some ([], each_5_s)))
send_periodic_data_for_type_lem_example =
    send_periodic_data_for_type_lem encoder encoder_sizes (omega arith) (omega arith) 1 meters 7000
      each_5_s meters-IsServed
