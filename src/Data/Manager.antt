-- ===== src/Data/Manager.antt =====
-- json-iec104-server/src/data/data_manager.h and data_manager.c: the contexts of the data types,
-- and the operations on them. A pointer that may be NULL is an `Option`, and a call returns the
-- context that it leaves. The mutex makes each access of the arrays one step; the time that a call
-- reads from the clock, in milliseconds, and the slave's number of open connections are arguments.
pub mod Valid
pub mod Find
pub mod Update
pub mod Repeat
pub mod Offline
pub mod Configured
pub mod Reset
use iec104_server_and_modbus.Base.{
  ℕ, zero, suc, ◌+◌, ◌*◌, ◌%◌, ◌^◌, Bool, true, false, not, ◌&&◌, Option, none, some, List, [], ◌∷◌,
  map, get_elem?, set, ltb, leb, ◌==◌, if◌then◌else◌, bool_eq, sub_u64,
}
use iec104_server_and_modbus.Iec.TypeId
use iec104_server_and_modbus.Cfloat.{FloatUnit, float_zero, float_epsilon, float_hundred}
use iec104_server_and_modbus.Globals.{Globals}
use iec104_server_and_modbus.Data.Types.{
  DataValueType, bool, double_point, int16, uint32, float, tag, DataValue, bool_val, dp_val,
  int16_val, uint32_val, float_val, DataTypeInfo, data_type_table,
}

pub record DynamicIoaConfig : Type 0 where
  pub ioa_list : Option (List ℕ)
  pub count : ℕ

pub record DataTypeContext : Type 0 where
  pub type_id : ℕ
  pub type_info : DataTypeInfo
  pub config : DynamicIoaConfig
  pub data_array : Option (List DataValue)
  pub last_offline_update : Option (List ℕ)

-- The entries behind a pointer.
abbrev pub entries {ℓ} : {A : Type ℓ} → Option (List A) → List A
entries none = []
entries (some xs) = xs

unfoldable pub init_context : DataTypeInfo → DataTypeContext
init_context t = record {
  type_id = t.type_id;
  type_info = t;
  config = record { ioa_list = none; count = 0 };
  data_array = none;
  last_offline_update = none;
}

unfoldable pub init_data_contexts : List DataTypeContext
unfolding init_context
init_data_contexts = map init_context data_type_table

-- The counts keep their values.
cleanup_context : DataTypeContext → DataTypeContext
cleanup_context c = record c {
  config = record { ioa_list = none; count = c.config.count };
  data_array = none;
  last_offline_update = none;
}

unfoldable pub cleanup_data_contexts : List DataTypeContext → List DataTypeContext
unfolding cleanup_context
cleanup_data_contexts = map cleanup_context

-- `for (i = 0; i < count; i++)`: the entries from index i on, and the rounds left. A read past the
-- entries ends the loop; `IsValid` rules it out.
find_from : List ℕ → ℕ → ℕ → ℕ → Option ℕ
find_from [] n i ioa = none
find_from (x ∷ xs) zero i ioa = none
find_from (x ∷ xs) (suc n) i ioa = if x == ioa then some i else find_from xs n (i + 1) ioa

-- `none` is the result -1.
unfoldable pub find_ioa_index : DynamicIoaConfig → ℕ → Option ℕ
unfolding find_from
find_ioa_index config ioa = find_from (entries config.ioa_list) config.count 0 ioa

context_from : List DataTypeContext → ℕ → ℕ → Option ℕ
context_from [] i id = none
context_from (c ∷ cs) i id = if c.type_id == id then some i else context_from cs (i + 1) id

-- The index in `g_data_contexts` of the context that is pointed at.
unfoldable pub get_data_context : List DataTypeContext → ℕ → Option ℕ
unfolding context_from
get_data_context cs id = context_from cs 0 id

-- The slave, if it is not NULL, with what `CS104_Slave_getOpenConnections` returns.
unfoldable pub is_client_connected : Option ℕ → Bool
is_client_connected none = false
is_client_connected (some open_connections) = ltb 0 open_connections

module _ (f : FloatUnit) (g : Globals) where
  open f use {fabsf, sub, mul, div, lt, le}

  unfoldable pub floats_equal : DataTypeInfo → ℕ → ℕ → Bool
  floats_equal info a b =
      let diff = fabsf (sub a b) in
      if (info.type_id == TypeId.m_me_nc_1) && lt float_zero g.deadband_m_me_nc_1_percent
      then le diff (mul (fabsf a) (div g.deadband_m_me_nc_1_percent float_hundred))
      else lt diff float_epsilon

  members_equal : DataValueType → DataTypeInfo → DataValue → DataValue → Bool
  unfolding floats_equal
  members_equal bool info a b = bool_eq (bool_val a) (bool_val b)
  members_equal double_point info a b = dp_val a == dp_val b
  members_equal int16 info a b = int16_val a == int16_val b
  members_equal uint32 info a b = uint32_val a == uint32_val b
  members_equal float info a b = floats_equal info (float_val a) (float_val b)

  unfoldable pub values_equal : DataTypeInfo → DataValue → DataValue → Bool
  unfolding members_equal
  values_equal info a b =
      if not (tag a.type == tag b.type) then false else members_equal a.type info a b

  -- `offline_udt_time * 1000` is a product of 32-bit numbers.
  abbrev pub offline_window : ℕ
  offline_window = (g.offline_udt_time * 1000) % 2 ^ 32

  -- The result, and what the pointer leads to after the call.
  unfoldable pub allow_offline_update : ℕ → Option ℕ → Bool × Option ℕ
  allow_offline_update now none = (true, none)
  allow_offline_update now (some last) =
      if leb offline_window (sub_u64 now last) then (true, some now) else (false, some last)

  -- The value that is stored: a copy, then the time stamp and the quality once more.
  unfoldable pub stored : DataTypeInfo → DataValue → DataValue
  stored info v = record v {
    timestamp = if info.has_time_tag && v.has_timestamp then v.timestamp else v.timestamp;
    quality = if info.has_quality && v.has_quality then v.quality else v.quality;
  }

  -- `allow_offline_update(&ctx->last_offline_update[idx])`, the array not NULL.
  stamp_entry : List ℕ → ℕ → Bool × Option ℕ → Bool × Option (List ℕ)
  stamp_entry stamps idx (ok, none) = (ok, some stamps)
  stamp_entry stamps idx (ok, some t) = (ok, some (set stamps idx t))

  -- Whether a change is sent, and the time stamps after that.
  unfoldable pub should_send : Option ℕ → ℕ → Option (List ℕ) → ℕ → Bool × Option (List ℕ)
  unfolding is_client_connected allow_offline_update stamp_entry
  should_send slave now none idx = (is_client_connected slave, none)
  should_send slave now (some stamps) idx =
      if is_client_connected slave
      then (true, some stamps)
      else stamp_entry stamps idx (allow_offline_update now (get_elem? stamps idx))

  -- The update of the entry `old` at `idx`.
  unfoldable pub update_entry :
      DataTypeContext → Option ℕ → ℕ → ℕ → DataValue → DataValue → DataTypeContext × Bool
  unfolding values_equal stored should_send
  update_entry ctx slave now idx old v =
      if values_equal ctx.type_info old v
      then (ctx, false)
      else (let (rc, stamps) = should_send slave now ctx.last_offline_update idx in
          (
            record ctx {
              data_array = some (set (entries ctx.data_array) idx (stored ctx.type_info v));
              last_offline_update = stamps;
            },
            rc,
          ))

  -- A read past `data_array` is a fault, which `IsValid` rules out.
  unfoldable pub update_at :
      DataTypeContext → Option ℕ → ℕ → Option ℕ → DataValue → DataTypeContext × Bool
  unfolding update_entry
  update_at ctx slave now none v = (ctx, false)
  update_at ctx slave now (some idx) v = elim (get_elem? (entries ctx.data_array) idx) [
    | none ↦ (ctx, false)
    | some old ↦ update_entry ctx slave now idx old v
  ]

  -- `ctx` and `new_value` are not NULL.
  unfoldable pub update_data :
      DataTypeContext → Option ℕ → ℕ → ℕ → DataValue → DataTypeContext × Bool
  unfolding find_ioa_index update_at
  update_data ctx slave now ioa v = update_at ctx slave now (find_ioa_index ctx.config ioa) v

-- All bytes 0.
abbrev pub zero_value : DataValue
zero_value = record {
  type = bool;
  value = 0;
  quality = 0;
  has_quality = false;
  timestamp = 0;
  has_timestamp = false;
}

-- memset of the first `n` entries
zero_first : ℕ → List DataValue → List DataValue
zero_first zero vs = vs
zero_first (suc n) [] = []
zero_first (suc n) (v ∷ vs) = zero_value ∷ zero_first n vs

unfoldable pub reset_context : DataTypeContext → DataTypeContext
unfolding zero_first
reset_context c = elim c.data_array [
  | none ↦ c
  | some vs ↦
      if ltb 0 c.config.count
      then record c { data_array = some (zero_first c.config.count vs) }
      else c
]

unfoldable pub reset_all_data : List DataTypeContext → List DataTypeContext
unfolding reset_context
reset_all_data = map reset_context
