-- ===== src/Tests/Modbus.antt =====
-- Runs of the Modbus server: four holding registers from address 40000, or from 0.
use iec104_server_and_modbus.Base.{
  inl, ℕ, ◌+◌, ◌-◌, ◌^◌, ◌<◌, replicate, ◌≡◌, ◌↔◌, ◌⊎◌, refl, true, false, none, some, List, [],
  ◌∷◌, ◌==◌, arith,
}
use iec104_server_and_modbus.Modbus.Text.{case_eq}
use iec104_server_and_modbus.Modbus.Registers.{Mapping, parse_byte_order}
use iec104_server_and_modbus.Modbus.Settings.{Settings, initial_settings, text_of, load_config}
use iec104_server_and_modbus.Modbus.Command.{
  State, state_running, updated, update_address, process_json, byte_order_text,
}
use iec104_server_and_modbus.Modbus.Values.{datatype_words, datatype_value, read_value, Holds}
use iec104_server_and_modbus.Modbus.Clamped.{update_address-clamped}
use iec104_server_and_modbus.Modbus.Update.{Serves, update_address_lem, update_address-none}
use iec104_server_and_modbus.Modbus.Clients.{nothing}
use iec104_server_and_modbus.Modbus.Sockets.{held, times, occupied}
use iec104_server_and_modbus.Modbus.Server.{selected, Round, Server, initial_server, main_loop}
use iec104_server_and_modbus.Modbus.Invariant.{IsSound, IsRound, initial_server-IsSound}
use iec104_server_and_modbus.Modbus.Invariant.Stop.{
  ProgressSound, EndsReleased, main_loop-Sound, main_loop-ends,
}
use iec104_server_and_modbus.Modbus.Refactored.JsonCommand.{json_command_process}
use iec104_server_and_modbus.Modbus.Refactored.Agrees.{as_effect, json_command_process-eq}
use iec104_server_and_modbus.Modbus.Refactored.ConfigLoader.{config_load}
use iec104_server_and_modbus.Modbus.Refactored.SameConfig.{as_config, config_load-eq}
use iec104_server_and_modbus.Tests.Fixtures.{integers}
use iec104_server_and_modbus.Tests.ModbusDocuments.{lines}

abbrev from_40000 : Settings
from_40000 = record initial_settings {
  enable_tcp = true;
  holding_regs = record { start = 40000; nb = 4 };
}

abbrev from_0 : Settings
from_0 = record initial_settings { holding_regs = record { start = 0; nb = 4 } }

abbrev four : Mapping
four = record { tab_registers = 1 ∷ 2 ∷ 3 ∷ 4 ∷ []; nb_registers = 4 }

abbrev session : State
session = record { server_state = state_running; running = true; mb_mapping = some four }

four-Serves : Serves from_40000 four
four-Serves = record { range = omega arith; count = refl; size = refl }

-- The bytes of 0x12345678 in swapped order, at 40001.
update_address_lem_example :
    (registers : List ℕ) × (update_address integers lines from_40000 "int32"
        (some 5)
        4
        40001
        session
      ≡ some (
        record session { mb_mapping = some (record four { tab_registers = registers }) },
        updated 40001 "int32" ∷ [],
      ))
    × Holds
        (parse_byte_order (byte_order_text integers lines (some 5)))
        (datatype_words "int32")
        (datatype_value integers lines "int32" 4)
        four.tab_registers
        (40001 - 40000)
        registers
unfolding datatype_words
update_address_lem_example =
    update_address_lem integers lines from_40000 "int32" (some 5) 4 40001 session four refl
      four-Serves (omega arith) refl (omega arith) (omega arith)

swapped_run :
    update_address integers lines from_40000 "int32" (some 5) 4 40001 session
    ≡ some (
      record session {
        mb_mapping = some (record four { tab_registers = 1 ∷ 0x7856 ∷ 0x3412 ∷ 4 ∷ [] });
      },
      updated 40001 "int32" ∷ [],
    )
unfolding update_address parse_byte_order case_eq
swapped_run = refl

-- The last register, with a value of two words.
-- 3000000000, as uint32 at 40001, is not read back.
update_address-clamped_example :
    (registers : List ℕ) × (update_address integers lines from_40000 "uint32"
        (some 5)
        6
        40001
        session
      ≡ some (
        record session { mb_mapping = some (record four { tab_registers = registers }) },
        updated 40001 "uint32" ∷ [],
      ))
    × ((read_value (parse_byte_order (byte_order_text integers lines (some 5))) 2 registers 1
          ≡ 3_000_000_000)
        ↔ (3_000_000_000 < 2 ^ 31))
update_address-clamped_example =
    update_address-clamped integers lines from_40000 "uint32" (some 5) 6 40001 3_000_000_000 session
      four refl four-Serves (omega arith, omega arith) (inl refl) (refl, refl) (omega arith)

update_address-none_example :
    (update_address integers lines from_40000 "int32" none 4 40003 session ≡ none) ↔ (
      (session.mb_mapping ≡ none)
      ⊎ ((lines.number 4 ≡ true) × (datatype_words "int32" ≡ 2) × (40003 + 1 ≡ 40000 + 4)))
update_address-none_example =
    update_address-none integers lines from_40000 "int32" none 4 40003 session (omega arith)
      four-Serves (omega arith)

json_command_process-eq_example :
    json_command_process integers lines "update" session
    ≡ as_effect (process_json integers lines from_0 "update" session)
json_command_process-eq_example =
    json_command_process-eq integers lines from_0 four refl refl (omega arith) small "update"
      session refl
  where
    small : (item : ℕ) → lines.valueint item < 2 ^ 32
    small item = ground arith

config_load-eq_example :
    (config_load lines "" (some "config")
      ≡ (true, as_config (load_config lines (some "config") initial_settings).1))
    × ((load_config lines (some "config") initial_settings).0 ≡ true)
unfolding text_of
config_load-eq_example = config_load-eq lines "" "config" "tcp_rtu" 20 refl refl refl (omega arith)

-- A round that starts the server, and one with a new client and the end of the input.
abbrev quiet : Round
quiet = record {
  select = selected false (λ _. false);
  line = none;
  new_tcp = true;
  listen = some 3;
  new_rtu = false;
  connect_rtu = false;
  new_mapping = some four;
  accepted = none;
  received = λ _. nothing;
  rtu_socket = none;
  received_rtu = nothing;
  again = false;
  reconnect_new = false;
  reconnect = false;
}

abbrev called : Round
called = record quiet { select = selected true (λ fd. fd == 3); accepted = some 4 }

abbrev last : Round
last = record quiet { select = selected true (λ fd. fd == 0) }

quiet-IsRound : IsRound from_40000 quiet
quiet-IsRound = record { mapping = four-Serves; replies = λ _. tt; reply_rtu = tt }

called-IsRound : IsRound from_40000 called
called-IsRound = record { mapping = four-Serves; replies = λ _. tt; reply_rtu = tt }

last-IsRound : IsRound from_40000 last
last-IsRound = record { mapping = four-Serves; replies = λ _. tt; reply_rtu = tt }

main_loop-Sound_example :
    ProgressSound from_40000
      (main_loop integers lines from_40000 (quiet ∷ called ∷ []) initial_server)
main_loop-Sound_example =
    main_loop-Sound integers lines from_40000 (quiet ∷ called ∷ []) initial_server
      (quiet-IsRound, (called-IsRound, tt)) (initial_server-IsSound from_40000)

-- A server with one client.
abbrev busy : Server
busy = record initial_server {
  session = session;
  ctx_tcp = true;
  tcp_listen_sock = some 3;
  clients = record {
    tcp_conn_socks = some 4 ∷ replicate 9 none;
    tcp_conn_count = 1;
    open_socks = 4 ∷ [];
  };
}

busy-IsSound : IsSound from_40000 busy
unfolding held times occupied
busy-IsSound = record {
  session = record { state = refl; serves = four-Serves; mapped = refl };
  table = λ _ _. record { size = refl; counted = refl; owned = λ fd. refl };
  unmapped = λ e. cc;
  no_tcp = λ e. cc;
}

main_loop-ends_example : EndsReleased (main_loop integers lines from_40000 (last ∷ quiet ∷ []) busy)
main_loop-ends_example =
    main_loop-ends integers lines from_40000 last (quiet ∷ []) busy last-IsRound busy-IsSound refl
      (refl, tt)
