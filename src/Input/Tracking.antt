-- ===== src/Input/Tracking.antt =====
-- The queue for points without a time tag while no client is connected: the table
-- `offline_tracking` and the deadband of `input_handler_process_line` in
-- json-iec104-server/src/input/input_handler.c.
use iec104_server_and_modbus.Base.{
  ℕ, Bool, true, false, not, ◌&&◌, Option, none, some, List, [], ◌∷◌, get_elem?, set, replicate,
  leb, ◌==◌, if◌then◌else◌, sub_u64,
}
use iec104_server_and_modbus.Cfloat.{FloatUnit, float_zero, float_epsilon, float_hundred}
use iec104_server_and_modbus.Globals.{Globals}
use iec104_server_and_modbus.Data.Types.{
  DataValueType, bool, double_point, int16, uint32, float, DataValue, float_val, DataTypeInfo,
}
use iec104_server_and_modbus.Data.Manager.{
  DataTypeContext, entries, find_ioa_index, is_client_connected, offline_window,
}

-- An entry of `offline_tracking`; `type_id` 0 marks a free one.
pub record Tracking : Type 0 where
  pub type_id : ℕ
  pub timestamps : List ℕ
  pub count : ℕ

abbrev pub free_tracking : Tracking
free_tracking = record { type_id = 0; timestamps = []; count = 0 }

abbrev pub initial_tracking : List Tracking
initial_tracking = replicate 10 free_tracking

-- The loop over the table: the entry of the type or, at the first free entry, a new one. `update`
-- is what the rest of the handler does with the time stamps of the entry.
module _ (type_id count : ℕ) (update : List ℕ → Bool × List ℕ) where
  unfoldable pub updated : Tracking → Bool × Tracking
  updated t = let r = update t.timestamps in (r.0, record t { timestamps = r.1 })

  unfoldable pub track : List Tracking → Bool × List Tracking
  unfolding updated
  track [] = (false, [])
  track (t ∷ ts) =
      let here = updated t in
      let created =
        updated (record { type_id = type_id; timestamps = replicate count 0; count = count }) in
      let later = track ts in
      if t.type_id == type_id
      then (here.0, here.1 ∷ ts)
      else if t.type_id == 0
      then (created.0, created.1 ∷ ts)
      else (later.0, t ∷ later.1)

module _ (f : FloatUnit) (g : Globals) where
  open f use {fabsf, sub, mul, div, lt, le}

  unfoldable pub float_deadband_passed : ℕ → ℕ → Bool
  float_deadband_passed old_val new_val =
      let diff = fabsf (sub old_val new_val) in
      let percent =
        if lt float_epsilon (fabsf old_val)
        then mul (div diff (fabsf old_val)) float_hundred
        else if lt float_epsilon diff
        then float_hundred
        else float_zero in
      le g.deadband_m_me_nc_1_percent percent && lt float_epsilon diff

  unfoldable pub deadband_passed : DataValueType → DataValue → DataValue → Bool
  unfolding float_deadband_passed
  deadband_passed float old v = float_deadband_passed (float_val old) (float_val v)
  deadband_passed bool old v = true
  deadband_passed double_point old v = true
  deadband_passed int16 old v = true
  deadband_passed uint32 old v = true

  -- The time stamp at `idx` of a type, once the deadband is passed. A read past the time stamps is
  -- a fault, which is not reached while the count of the type stays.
  unfoldable pub stamp : ℕ → ℕ → List ℕ → Bool × List ℕ
  stamp current idx stamps = elim (get_elem? stamps idx) [
    | none ↦ (false, stamps)
    | some last ↦
        if leb (offline_window f g) (sub_u64 current last)
        then (true, set stamps idx current)
        else (false, stamps)
  ]

  -- The mutex is held from here on.
  unfoldable pub stamp_changed :
      DataTypeInfo → ℕ → ℕ → Option DataValue → DataValue → List ℕ → Bool × List ℕ
  unfolding stamp deadband_passed
  stamp_changed info current idx none v stamps = (false, stamps)
  stamp_changed info current idx (some old) v stamps =
      if deadband_passed info.value_type old v then stamp current idx stamps else (false, stamps)

  unfoldable pub track_at :
      ℕ
      → DataTypeInfo
      → DataTypeContext
      → ℕ
      → Option ℕ
      → DataValue
      → List Tracking
      → Bool × List Tracking
  unfolding track stamp_changed
  track_at type_id info ctx current none v table = (false, table)
  track_at type_id info ctx current (some idx) v table =
      track type_id ctx.config.count
        (stamp_changed info current idx (get_elem? (entries ctx.data_array) idx) v) table

  -- `offline_enqueue`, and the table after that. `current` is the time in milliseconds.
  unfoldable pub offline_enqueue :
      ℕ
      → Option DataTypeInfo
      → DataTypeContext
      → Option ℕ
      → ℕ
      → ℕ
      → DataValue
      → List Tracking
      → Bool × List Tracking
  unfolding track_at
  offline_enqueue type_id none ctx slave current ioa v table = (false, table)
  offline_enqueue type_id (some info) ctx slave current ioa v table =
      if not info.has_time_tag
        && (not (is_client_connected slave) && not (info.offline_equivalent == 0))
      then track_at type_id info ctx current (find_ioa_index ctx.config ioa) v table
      else (false, table)
