-- ===== src/Periodic.antt =====
-- json-iec104-server/src/threads/periodic_sender.c: the thread that sends the points of two types
-- at intervals. Its loops over the points are those of Interrogation/Blocks.antt, line by line, with
-- the cause "periodic". `none` means that a loop ran out of fuel or that NULL is dereferenced.
pub mod Interval
use iec104_server_and_modbus.Base.{
  ℕ, ◌+◌, ◌-◌, ◌^◌, Bool, true, false, not, ◌||◌, Option, none, some, List, [], ◌++◌, get_elem?,
  ltb, ◌==◌, if◌then◌else◌, sub_u64,
}
use iec104_server_and_modbus.Iec.{Asdu, periodic}
use iec104_server_and_modbus.Iec.TypeId
use iec104_server_and_modbus.Data.Manager.{DataTypeContext, get_data_context, is_client_connected}
use iec104_server_and_modbus.Interrogation.Encoder.{Encoder}
use iec104_server_and_modbus.Interrogation.Blocks.{points, send_blocks}

-- `period_ms` is the pattern of an `int`.
pub record PeriodicConfig : Type 0 where
  pub enabled : Bool
  pub period_ms : ℕ
  pub last_sent : ℕ

-- The conversion of an `int` to `uint64_t`.
abbrev pub int_to_u64 : ℕ → ℕ
int_to_u64 n = if ltb n (2 ^ 31) then n else n + (2 ^ 64 - 2 ^ 32)

-- What is enqueued, if the loops end, and the configuration with the time of it.
sent_at : ℕ → PeriodicConfig → Option (List Asdu) → Option (List Asdu × PeriodicConfig)
sent_at now config none = none
sent_at now config (some sent) = some (sent, record config { last_sent = now })

unfoldable pub send_periodic_data_for_type :
    Encoder → ℕ → ℕ → DataTypeContext → PeriodicConfig → Option (List Asdu × PeriodicConfig)
unfolding send_blocks sent_at
send_periodic_data_for_type enc ca now ctx config =
    if not config.enabled || ctx.config.count == 0
    then some ([], config)
    else if ltb (sub_u64 now config.last_sent) (int_to_u64 config.period_ms)
    then some ([], config)
    else sent_at now config (
        send_blocks enc ctx.type_id ctx.config.count ctx.type_info.io_size periodic ca (points ctx))

-- The call with the context at an index of `g_data_contexts`, or with NULL.
send_for :
    Encoder → ℕ → ℕ → Option DataTypeContext → PeriodicConfig → Option (List Asdu × PeriodicConfig)
unfolding send_periodic_data_for_type
send_for enc ca now none config = if config.enabled then none else some ([], config)
send_for enc ca now (some ctx) config = send_periodic_data_for_type enc ca now ctx config

context_of : List DataTypeContext → Option ℕ → Option DataTypeContext
context_of contexts none = none
context_of contexts (some i) = get_elem? contexts i

-- `g_periodic_M_ME_NC_1`, `g_periodic_M_SP_TB_1`, and the module's `running`.
pub record State : Type 0 where
  pub me_nc_1 : PeriodicConfig
  pub sp_tb_1 : PeriodicConfig
  pub running : Bool

abbrev pub initial : State
initial = record {
  me_nc_1 = record { enabled = false; period_ms = 5000; last_sent = 0 };
  sp_tb_1 = record { enabled = false; period_ms = 5000; last_sent = 0 };
  running = false;
}

-- One round of the thread; the clock is read once for each type.
unfoldable pub periodic_sender_round :
    Encoder → ℕ → Option ℕ → List DataTypeContext → ℕ × ℕ → State → Option (List Asdu × State)
unfolding is_client_connected get_data_context send_for context_of
periodic_sender_round enc ca slave contexts (now_me, now_sp) s =
    if is_client_connected slave
    then (let me =
          send_for enc ca now_me (context_of contexts (get_data_context contexts TypeId.m_me_nc_1))
            s.me_nc_1 in
        let sp =
          send_for enc ca now_sp (context_of contexts (get_data_context contexts TypeId.m_sp_tb_1))
            s.sp_tb_1 in
        both me sp)
    else some ([], s)
  where
    both :
        Option (List Asdu × PeriodicConfig)
        → Option (List Asdu × PeriodicConfig)
        → Option (List Asdu × State)
    both (some (xs, me)) (some (ys, sp)) = some (xs ++ ys, record s { me_nc_1 = me; sp_tb_1 = sp })
    both _ _ = none

-- `pthread_create` succeeds or not.
unfoldable pub start_periodic_sender : Bool → State → State
start_periodic_sender created s =
    if s.running then s else if created then record s { running = true } else s

unfoldable pub stop_periodic_sender : State → State
stop_periodic_sender s = record s { running = false }
