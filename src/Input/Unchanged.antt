-- ===== src/Input/Unchanged.antt =====
-- An unchanged value in json-iec104-server/src/input/input_handler.c while no client is connected.
use iec104_server_and_modbus.Base.{
  ℕ, ◌≤◌, ◌≡◌, ◌≢◌, refl, true, false, not, ◌&&◌, some, List, ◌∷◌, get_elem?, leb, ◌==◌, sub_u64,
  arith,
}
use iec104_server_and_modbus.Cfloat.{FloatUnit}
use iec104_server_and_modbus.Globals.{Globals}
use iec104_server_and_modbus.Data.Types.{
  DataValueType, bool, double_point, int16, uint32, float, DataValue, DataTypeInfo,
}
use iec104_server_and_modbus.Data.Manager.{
  DataTypeContext, is_client_connected, offline_window, update_data,
}
use iec104_server_and_modbus.Data.Manager.Update.{IsAt}
use iec104_server_and_modbus.Data.Manager.Repeat.{quality_change_dropped}
use iec104_server_and_modbus.Input.Tracking.{
  Tracking, updated, track, stamp, stamp_changed, deadband_passed, track_at, offline_enqueue,
}

module _ (f : FloatUnit) (g : Globals) where
  deadband_passed_discrete :
      (t : DataValueType) (old v : DataValue) → t ≢ float → deadband_passed f g t old v ≡ true
  unfolding deadband_passed
  deadband_passed_discrete bool old v h = refl
  deadband_passed_discrete double_point old v h = refl
  deadband_passed_discrete int16 old v h = refl
  deadband_passed_discrete uint32 old v h = refl
  deadband_passed_discrete float old v h = absurd (h refl)

  -- With no client connected, a point whose type has no time tag, has an equivalent with one and is
  -- not a float is queued again as soon as its window is over, even with the value that is stored
  -- already and that `update_data` itself takes for no change.
  pub offline_enqueue_unchanged :
      (info : DataTypeInfo) (ctx : DataTypeContext) (current now ioa idx last : ℕ) (old : DataValue)
      (t : Tracking) (ts : List Tracking)
      → info.has_time_tag ≡ false
      → info.offline_equivalent ≢ 0
      → info.value_type ≢ float
      → old.type ≢ float
      → IsAt f g ctx ioa idx old
      → get_elem? t.timestamps idx ≡ some last
      → offline_window f g ≤ sub_u64 current last
      → ((offline_enqueue f g t.type_id (some info) ctx (some 0) current ioa old (t ∷ ts)).0 ≡ true)
        × (update_data f g ctx (some 0) now ioa old ≡ (ctx, false))
  unfolding offline_enqueue track_at track updated stamp_changed stamp is_client_connected
  offline_enqueue_unchanged info ctx current now ioa idx last old t ts untimed equivalent discrete
        discrete' at stamped over =
      let open_gate : (not info.has_time_tag
            && (not (is_client_connected (some 0)) && not (info.offline_equivalent == 0)))
          ≡ true =
        ground arith in
      let due : leb (offline_window f g) (sub_u64 current last) ≡ true = ground arith in
      let here : (t.type_id == t.type_id) ≡ true = ground arith in
      (
        rw
            (
              open_gate,
              at.found,
              track_at,
              track,
              here,
              at.entry,
              deadband_passed_discrete info.value_type old old discrete,
              stamp,
              stamped,
              due,
            )
            refl,
        quality_change_dropped f g ctx (some 0) now ioa idx old.quality old discrete' at,
      )
