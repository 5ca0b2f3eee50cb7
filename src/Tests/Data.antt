-- ===== src/Tests/Data.antt =====
-- The data manager on three switches.
use iec104_server_and_modbus.Base.{
  ℕ, ◌-◌, ◌≤◌, ◌<◌, ◌≡◌, ◌≢◌, ◌⊎◌, refl, true, false, some, List, [], ◌∷◌, get_elem?, arith,
}
use iec104_server_and_modbus.Globals.{Globals}
use iec104_server_and_modbus.Iec.TypeId
use iec104_server_and_modbus.Data.Types.{
  DataValue, get_data_type_info, get_data_type_info_by_name, parse_type_id_from_string,
  type_id_to_string,
}
use iec104_server_and_modbus.Data.Types.Lookup.{lookup_round_trip}
use iec104_server_and_modbus.Data.Manager.{
  DataTypeContext, entries, find_ioa_index, update_data, update_at, update_entry, values_equal,
  should_send, allow_offline_update, reset_all_data, is_client_connected,
}
use iec104_server_and_modbus.Data.Manager.Update.{IsAt, is_due, update_data_lem}
use iec104_server_and_modbus.Data.Manager.Offline.{
  offline_call, after_calls, allow_offline_update_lem, offline_updates_apart,
}
use iec104_server_and_modbus.Data.Manager.Reset.{IsReset, reset_all_data_lem}
use iec104_server_and_modbus.Tests.Fixtures.{
  integers, settings, point, switches, switch_info, meters, meters-IsValid,
}

found_11 : find_ioa_index switches.config 11 ≡ some 1
unfolding find_ioa_index
found_11 = refl

at_11 : IsAt integers settings switches 11 1 (point 0)
at_11 = record { found = found_11; entry = refl }

lookup_round_trip_example :
    (switch_info.type_id ≡ TypeId.m_sp_tb_1)
    × (get_data_type_info_by_name (some "M_SP_TB_1") ≡ some switch_info)
    × (parse_type_id_from_string (some (type_id_to_string TypeId.m_sp_tb_1)) ≡ TypeId.m_sp_tb_1)
unfolding get_data_type_info
lookup_round_trip_example = lookup_round_trip TypeId.m_sp_tb_1 switch_info refl

update_data_lem_example :
    let r = update_data integers settings switches (some 1) 9000 11 (point 1) in
    ((values_equal integers settings switch_info (point 0) (point 1) ≡ true)
      × (r ≡ (switches, false)))
    ⊎ ((values_equal integers settings switch_info (point 0) (point 1) ≡ false)
        × (get_elem? (entries r.0.data_array) 1 ≡ some (point 1))
        × ((j : ℕ)
            → j ≢ 1
            → get_elem? (entries r.0.data_array) j ≡ get_elem? (entries switches.data_array) j)
        × (r.0.config ≡ switches.config)
        × (r.1 ≡ is_due integers settings (some 1) 9000 switches.last_offline_update 1))
update_data_lem_example =
    update_data_lem integers settings switches (some 1) 9000 11 1 (point 0) (point 1) at_11

allow_offline_update_lem_example :
    ((2000 ≤ 9500 - 9000)
      × (allow_offline_update integers settings 9500 (some 9000) ≡ (true, some 9500)))
    ⊎ ((9500 - 9000 < 2000)
        × (allow_offline_update integers settings 9500 (some 9000) ≡ (false, some 9000)))
allow_offline_update_lem_example =
    allow_offline_update_lem integers settings 9500 9000 (omega arith) (omega arith) (omega arith)

abbrev slow_settings : Globals
slow_settings = record settings { offline_udt_time = 4294968 }

reported : (update_data integers settings switches (some 0) 9000 11 (point 1)).1 ≡ true
unfolding update_data update_at update_entry find_ioa_index values_equal should_send
    allow_offline_update is_client_connected
reported = refl

-- Updates of another switch and of the same one.
abbrev between : List (ℕ × ℕ × DataValue)
between = (9500, 12, point 1) ∷ (9600, 11, point 0) ∷ []

offline_updates_apart_example :
    (offline_call integers settings
      (after_calls integers settings
        (offline_call integers settings switches (9000, 11, point 1)).0
        between)
      (10000, 11, point 0)).1
    ≡ false
offline_updates_apart_example =
    offline_updates_apart integers settings switches 9000 10000 11 1 0 (0 ∷ 0 ∷ 0 ∷ []) (point 0)
      (point 1) (point 0) between at_11 refl refl reported (omega arith, (omega arith, tt))
      (omega arith)

reset_all_data_lem_example :
    (r : DataTypeContext) × (get_elem? (reset_all_data (switches ∷ meters ∷ [])) 1 ≡ some r)
    × IsReset meters r
reset_all_data_lem_example =
    reset_all_data_lem (switches ∷ meters ∷ []) 1 meters meters-IsValid refl
