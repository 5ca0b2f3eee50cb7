-- ===== src/Tests/Fixtures.antt =====
-- The data that the runs share: an arithmetic of unsigned integers in the place of the floats, two
-- encoders, and configured contexts.
use iec104_server_and_modbus.Base.{
  ℕ, ◌+◌, ◌-◌, ◌*◌, ◌/◌, ◌%◌, ◌^◌, refl, true, false, not, none, some, [], ◌∷◌, ◌++◌, ltb, leb,
  ◌==◌, if◌then◌else◌, arith,
}
use iec104_server_and_modbus.Cfloat.{FloatUnit}
use iec104_server_and_modbus.Globals.{Globals, initial_globals}
use iec104_server_and_modbus.Iec.{Asdu, InformationObject, object_type}
use iec104_server_and_modbus.Iec.TypeId
use iec104_server_and_modbus.Iec.Quality
use iec104_server_and_modbus.Data.Types.{DataValue, DataTypeInfo, bool, float, get_data_type_info}
use iec104_server_and_modbus.Data.Manager.{DataTypeContext}
use iec104_server_and_modbus.Data.Manager.Valid.{IsValid}
use iec104_server_and_modbus.Data.Manager.Configured.{IsConfigured}
use iec104_server_and_modbus.Interrogation.Encoder.{Encoder, HasTableSizes, accepts_after}

abbrev pub integers : FloatUnit
integers = record {
  fabsf = λ x. x % 2 ^ 31;
  sub = λ a b. (a + 2 ^ 32 - b) % 2 ^ 32;
  mul = λ a b. (a * b) % 2 ^ 32;
  div = ◌/◌;
  lt = ltb;
  le = leb;
  to_bool = λ x. not (x == 0);
  to_enum = λ x. x % 4;
  to_int16 = λ x. x % 2 ^ 16;
  to_uint32 = λ x. x % 2 ^ 32;
  to_float = λ x. x % 2 ^ 32;
}

-- Updates are queued every 2 seconds while no client is connected.
abbrev pub settings : Globals
settings = record initial_globals { offline_udt_time = 2 }

-- An encoder that keeps to its laws, with these sizes.
abbrev append_accepted : (ℕ → ℕ) → Asdu → InformationObject → Asdu
append_accepted size a io =
    if accepts_after (size (object_type io)) 249 a.is_sequence a.elements io
    then record a { elements = a.elements ++ (io ∷ []) }
    else a

abbrev pub encoder_of : (ℕ → ℕ) → Encoder
encoder_of size = record {
  max_size = 249;
  data_size = size;
  add = append_accepted size;
  add_accepted = λ a io e. rw e refl;
  add_refused = λ a io e. rw e refl;
}

abbrev table_size : ℕ → ℕ
table_size id = elim (get_data_type_info id) [ none ↦ 0 | some info ↦ info.io_size - 3 ]

abbrev pub encoder : Encoder
encoder = encoder_of table_size

pub encoder_sizes : HasTableSizes encoder
unfolding get_data_type_info
encoder_sizes = omega arith

-- A value of a single point, on or off.
abbrev pub point : ℕ → DataValue
point v = record {
  type = bool;
  value = v;
  quality = Quality.good;
  has_quality = true;
  timestamp = 0;
  has_timestamp = true;
}

abbrev pub switch_info : DataTypeInfo
switch_info = record {
  type_id = TypeId.m_sp_tb_1;
  name = "M_SP_TB_1";
  value_type = bool;
  has_time_tag = true;
  has_quality = true;
  io_size = 11;
  offline_equivalent = TypeId.m_sp_tb_1;
}

-- Three single points with time tags, all off, that were last reported at time 0.
abbrev pub switches : DataTypeContext
switches = record {
  type_id = TypeId.m_sp_tb_1;
  type_info = switch_info;
  config = record { ioa_list = some (10 ∷ 11 ∷ 12 ∷ []); count = 3 };
  data_array = some (point 0 ∷ point 0 ∷ point 0 ∷ []);
  last_offline_update = some (0 ∷ 0 ∷ 0 ∷ []);
}

pub switches-IsValid : IsValid switches
switches-IsValid = record { addresses = refl; values = refl; stamps = refl; info = refl }

pub switches-IsConfigured : IsConfigured switches
unfolding get_data_type_info
switches-IsConfigured = record {
  valid = switches-IsValid;
  known = refl;
  untimed = λ e. absurd (ground arith);
}

-- A measured value without a time tag.
abbrev pub level : ℕ → DataValue
level v = record {
  type = float;
  value = v;
  quality = Quality.good;
  has_quality = true;
  timestamp = 0;
  has_timestamp = false;
}

abbrev pub meter_info : DataTypeInfo
meter_info = record {
  type_id = TypeId.m_me_nc_1;
  name = "M_ME_NC_1";
  value_type = float;
  has_time_tag = false;
  has_quality = true;
  io_size = 8;
  offline_equivalent = TypeId.m_me_tf_1;
}

-- Two measured values at addresses that do not follow each other.
abbrev pub meters : DataTypeContext
meters = record {
  type_id = TypeId.m_me_nc_1;
  type_info = meter_info;
  config = record { ioa_list = some (100 ∷ 200 ∷ []); count = 2 };
  data_array = some (level 0 ∷ level 0 ∷ []);
  last_offline_update = none;
}

pub meters-IsValid : IsValid meters
meters-IsValid = record { addresses = refl; values = refl; stamps = tt; info = refl }

pub meters-IsConfigured : IsConfigured meters
unfolding get_data_type_info
meters-IsConfigured = record { valid = meters-IsValid; known = refl; untimed = λ _. refl }
