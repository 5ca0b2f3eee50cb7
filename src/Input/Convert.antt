-- ===== src/Input/Convert.antt =====
-- `convert_input_to_value` of json-iec104-server/src/input/input_handler.c.
use iec104_server_and_modbus.Base.{ℕ, ◌+◌, ◌-◌, ◌%◌, Option, none, some, if◌then◌else◌}
use iec104_server_and_modbus.Cfloat.{FloatUnit}
use iec104_server_and_modbus.Data.Types.{
  DataValueType, bool, double_point, int16, uint32, float, DataValue, DataTypeInfo,
  get_data_type_info,
}

module _ (f : FloatUnit) where
  -- The union after the assignment to its member: bytes outside the member keep their value.
  unfoldable pub assigned : DataValueType → ℕ → ℕ → ℕ
  assigned bool old x = old - old % 0x100 + (if f.to_bool x then 1 else 0)
  assigned double_point old x = f.to_enum x
  assigned int16 old x = old - old % 0x1_0000 + f.to_int16 x % 0x1_0000
  assigned uint32 old x = f.to_uint32 x
  assigned float old x = f.to_float x

  -- The quality is a byte. The field `timestamp` is a pointer, which is not assigned here.
  unfoldable pub converted : DataTypeInfo → ℕ → ℕ → DataValue → DataValue
  unfolding assigned
  converted info input_val qualifier out = record out {
    type = info.value_type;
    has_quality = info.has_quality;
    has_timestamp = info.has_time_tag;
    quality = qualifier % 0x100;
    value = assigned info.value_type out.value input_val;
  }

  -- `out` is what `out_val` points to before the call; `none` is the read through NULL. The first
  -- result is the value. The second is the address that the seven bytes of the time are written to:
  -- the pointer `timestamp` of `out`, which the caller has not initialised. In C this write is
  -- undefined; where it hits memory that the server uses, or that is not there, is not modelled.
  unfoldable pub convert_input_to_value : ℕ → ℕ → ℕ → DataValue → Option (DataValue × ℕ)
  unfolding converted
  convert_input_to_value type_id input_val qualifier out = elim (get_data_type_info type_id) [
    | none ↦ none
    | some info ↦ some (converted info input_val qualifier out, out.timestamp)
  ]
