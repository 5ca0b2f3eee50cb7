-- ===== src/Tests/LegacyState.antt =====
-- The start, the reset and the periodic sender of the server in a single file.
use iec104_server_and_modbus.Base.{
  ℕ, zero, suc, ◌+◌, ◌≡◌, ◌≢◌, ◌⊎◌, refl, true, false, String, Option, none, some, List, [], ◌∷◌,
  replicate, take, arith,
}
use iec104_server_and_modbus.Iec.{activation_con, create_asdu, periodic, short}
use iec104_server_and_modbus.Iec.TypeId
use iec104_server_and_modbus.Data.Types.{get_data_type_info}
use iec104_server_and_modbus.Periodic.{PeriodicConfig}
use iec104_server_and_modbus.Legacy.Points.{Points}
use iec104_server_and_modbus.Legacy.Server.{LegacySurroundings}
use iec104_server_and_modbus.Legacy.Loop.{run_server_loop}
use iec104_server_and_modbus.Legacy.Sound.{IsSound, IsInside}
use iec104_server_and_modbus.Legacy.Config.{Memory, legacy_init_config, legacy_initial}
use iec104_server_and_modbus.Legacy.Start.{legacy_server-IsInside}
use iec104_server_and_modbus.Legacy.Background.{
  act_con, reply, point_objects, send_type_periodic, legacy_reset_handler,
}
use iec104_server_and_modbus.Legacy.Periodic.{send_type_periodic-loses}
use iec104_server_and_modbus.Legacy.Reset.{answers, AllZero, legacy_reset_handler_lem}
use iec104_server_and_modbus.Tests.Documents.{documents}
use iec104_server_and_modbus.Tests.Fixtures.{integers, settings, encoder}
use iec104_server_and_modbus.Tests.LegacyServer.{conversions, online, station}

abbrev memory : Memory
memory = record {
  word = λ i. i;
  counter = λ i. record {
    value = 0;
    sequence_number = 0;
    has_carry = true;
    is_adjusted = true;
    is_invalid = true;
  };
}

-- A configuration of two measured values, and an update of the second.
abbrev updates : List (LegacySurroundings × Option String)
updates = (online, some "update") ∷ (online, some "noise") ∷ []

legacy_server-IsInside_example :
    let s = (legacy_init_config integers documents memory (some "config") legacy_initial).1 in
    IsInside (run_server_loop conversions documents integers s.globals encoder updates s.points).1
legacy_server-IsInside_example =
    legacy_server-IsInside integers documents memory encoder conversions (some "config") updates

abbrev addresses_from : ℕ → ℕ → List ℕ
addresses_from i zero = []
addresses_from i (suc n) = i ∷ addresses_from (i + 1) n

-- 46 measured values, as in the configuration file of the repository.
abbrev values : Points
values = record {
  config = record { ioa_list = some (addresses_from 1 46); count = 46 };
  entries = replicate 46 (record { value = 5; qualifier = 0 });
  last_offline_update = none;
  past_the_array = false;
}

abbrev every_five : PeriodicConfig
every_five = record { enabled = true; period_ms = 5000; last_sent = 1000 }

send_type_periodic-loses_example :
    let os =
      point_objects
        (λ ioa e. short ioa e.value e.qualifier)
        46
        (addresses_from 1 46)
        values.entries in
    send_type_periodic encoder settings 9000
      (λ ioa e. short ioa e.value e.qualifier)
      values
      every_five
    ≡ (
      record every_five { last_sent = 9000 },
      record (create_asdu false periodic 1 1) { elements = take 30 os } ∷ [],
    )
unfolding get_data_type_info
send_type_periodic-loses_example =
    send_type_periodic-loses TypeId.m_me_nc_1 (λ ioa e. short ioa e.value e.qualifier)
      (λ ioa e. refl) encoder settings 9000 30 true values every_five
      (record { addresses = refl; values = refl; times = tt }) refl (omega arith) (omega arith)
      (omega arith) (omega arith) (omega arith) (omega arith)

station-IsSound : IsSound station
station-IsSound = (
  record { addresses = refl; values = refl; times = refl },
  record { addresses = refl; values = refl; times = refl },
  record { addresses = refl; values = refl; times = tt },
  record { addresses = refl; values = refl },
  record { addresses = refl; values = refl; times = refl },
  record { addresses = refl; values = refl; times = tt },
  record { addresses = refl; values = refl; times = refl },
)

abbrev general : ℕ
general = 1

legacy_reset_handler_lem_example :
    let r = legacy_reset_handler conversions.set_value general station in
    IsSound r.0
    × (answers r.1 ≡ act_con ∷ reply activation_con ∷ [])
    × (((general ≡ 1)
          × AllZero r.0.m_sp_tb_1
          × AllZero r.0.m_dp_tb_1
          × AllZero r.0.m_me_td_1
          × AllZero r.0.m_sp_na_1
          × AllZero r.0.m_me_nc_1
          × (r.0.m_me_nd_1 ≡ station.m_me_nd_1))
        ⊎ ((general ≢ 1) × (r.0 ≡ station)))
legacy_reset_handler_lem_example =
    legacy_reset_handler_lem conversions.set_value general station station-IsSound
