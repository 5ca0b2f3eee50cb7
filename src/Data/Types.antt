-- ===== src/Data/Types.antt =====
-- json-iec104-server/src/data/data_types.h and data_types.c: the table of the data types that the
-- server supports, the value of a data point, and the look-ups by number and by name.
pub mod Lookup
use iec104_server_and_modbus.Base.{
  ℕ, ◌+◌, ◌%◌, String, str_eq, Bool, true, false, not, Option, none, some, List, [], ◌∷◌, length,
  ◌==◌, if◌then◌else◌,
}
use iec104_server_and_modbus.Iec.TypeId
use iec104_server_and_modbus.Iec.Quality

pub data DataValueType : Type 0 where
  bool double_point int16 uint32 float : DataValueType

-- The number of an enumerator.
abbrev pub tag : DataValueType → ℕ
tag bool = 0
tag double_point = 1
tag int16 = 2
tag uint32 = 3
tag float = 4

-- `value` is the union: its four bytes as one word, of which each member below reads its part. A
-- float is its bit pattern. `timestamp` holds the bytes of that field.
pub record DataValue : Type 0 where
  pub type : DataValueType
  pub value : ℕ
  pub quality : ℕ
  pub has_quality : Bool
  pub timestamp : ℕ
  pub has_timestamp : Bool

abbrev pub bool_val : DataValue → Bool
bool_val v = not (v.value % 0x100 == 0)

abbrev pub dp_val : DataValue → ℕ
dp_val v = v.value

abbrev pub int16_val : DataValue → ℕ
int16_val v = v.value % 0x1_0000

abbrev pub uint32_val : DataValue → ℕ
uint32_val v = v.value

abbrev pub float_val : DataValue → ℕ
float_val v = v.value

pub record DataTypeInfo : Type 0 where
  pub type_id : ℕ
  pub name : String
  pub value_type : DataValueType
  pub has_time_tag : Bool
  pub has_quality : Bool
  pub io_size : ℕ
  pub offline_equivalent : ℕ

abbrev row : ℕ → String → DataValueType → Bool → Bool → ℕ → ℕ → DataTypeInfo
row id n v time q size off = record {
  type_id = id;
  name = n;
  value_type = v;
  has_time_tag = time;
  has_quality = q;
  io_size = size;
  offline_equivalent = off;
}

abbrev pub data_type_table : List DataTypeInfo
data_type_table =
    row TypeId.m_sp_tb_1 "M_SP_TB_1" bool true true 11 TypeId.m_sp_tb_1
    ∷ row TypeId.m_dp_tb_1 "M_DP_TB_1" double_point true true 11 TypeId.m_dp_tb_1
    ∷ row TypeId.m_me_td_1 "M_ME_TD_1" float true true 13 TypeId.m_me_td_1
    ∷ row TypeId.m_it_tb_1 "M_IT_TB_1" uint32 true false 15 TypeId.m_it_tb_1
    ∷ row TypeId.m_sp_na_1 "M_SP_NA_1" bool false true 4 TypeId.m_sp_tb_1
    ∷ row TypeId.m_dp_na_1 "M_DP_NA_1" double_point false true 4 TypeId.m_dp_tb_1
    ∷ row TypeId.m_me_na_1 "M_ME_NA_1" float false true 6 TypeId.m_me_td_1
    ∷ row TypeId.m_me_nb_1 "M_ME_NB_1" int16 false true 6 TypeId.m_me_tb_1
    ∷ row TypeId.m_me_nc_1 "M_ME_NC_1" float false true 8 TypeId.m_me_tf_1
    ∷ row TypeId.m_me_nd_1 "M_ME_ND_1" float false false 5 0
    ∷ []

abbrev pub data_type_count : ℕ
data_type_count = length data_type_table

find_by_id : ℕ → List DataTypeInfo → Option DataTypeInfo
find_by_id id [] = none
find_by_id id (t ∷ ts) = if t.type_id == id then some t else find_by_id id ts

unfoldable pub get_data_type_info : ℕ → Option DataTypeInfo
unfolding find_by_id
get_data_type_info id = find_by_id id data_type_table

find_by_name : String → List DataTypeInfo → Option DataTypeInfo
find_by_name n [] = none
find_by_name n (t ∷ ts) = if str_eq t.name n then some t else find_by_name n ts

-- A text that may be NULL is an `Option`.
unfoldable pub get_data_type_info_by_name : Option String → Option DataTypeInfo
unfolding find_by_name
get_data_type_info_by_name none = none
get_data_type_info_by_name (some n) = find_by_name n data_type_table

unfoldable pub parse_type_id_from_string : Option String → ℕ
unfolding get_data_type_info_by_name
parse_type_id_from_string s = elim (get_data_type_info_by_name s) [
  | none ↦ 0
  | some info ↦ info.type_id
]

unfoldable pub type_id_to_string : ℕ → String
unfolding get_data_type_info
type_id_to_string id = elim (get_data_type_info id) [ none ↦ "UNKNOWN" | some info ↦ info.name ]

unfoldable pub parse_qualifier_from_string : Option String → ℕ
parse_qualifier_from_string none = Quality.good
parse_qualifier_from_string (some s) =
    if str_eq s "IEC60870_QUALITY_GOOD"
    then Quality.good
    else if str_eq s "IEC60870_QUALITY_INVALID"
    then Quality.invalid
    else if str_eq s "IEC60870_QUALITY_OVERFLOW"
    then Quality.overflow
    else if str_eq s "IEC60870_QUALITY_RESERVED"
    then Quality.reserved
    else if str_eq s "IEC60870_QUALITY_ELAPSED_TIME_INVALID"
    then Quality.elapsed_time_invalid
    else if str_eq s "IEC60870_QUALITY_BLOCKED"
    then Quality.blocked
    else if str_eq s "IEC60870_QUALITY_SUBSTITUTED"
    then Quality.substituted
    else if str_eq s "IEC60870_QUALITY_NON_TOPICAL"
    then Quality.non_topical
    else Quality.good
