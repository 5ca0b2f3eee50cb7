-- ===== src/Iec.antt =====
-- The vocabulary of lib60870, the protocol library under json-iec104-server/lib60870: the numbers
-- of its enumerations, and the values that its constructors build. What its functions do is not
-- defined here; where the server relies on it, it is a parameter with named laws.
pub mod TypeId
pub mod Quality
use iec104_server_and_modbus.Base.{ℕ, Bool, List, []}
use TypeId

-- enum CS101_CauseOfTransmission
pub data Cot : Type 0 where
  periodic spontaneous activation activation_con activation_termination : Cot
  interrogated_by_station unknown_type_id unknown_cot unknown_ioa : Cot
  other : ℕ → Cot

-- IEC60870_DOUBLE_POINT_INDETERMINATE
abbrev pub double_point_indeterminate : ℕ
double_point_indeterminate = 3

-- struct sBinaryCounterReading
pub record BinaryCounterReading : Type 0 where
  pub value : ℕ
  pub sequence_number : ℕ
  pub has_carry : Bool
  pub is_adjusted : Bool
  pub is_invalid : Bool

-- What the `_create` functions of cs101_information_objects.h return, with their arguments: the
-- object's address, its value, its quality and its time tag, as far as the object has them.
pub data InformationObject : Type 0 where
  single_point_with_cp56 : ℕ → Bool → ℕ → ℕ → InformationObject
  double_point_with_cp56 : ℕ → ℕ → ℕ → ℕ → InformationObject
  normalized_with_cp56 : ℕ → ℕ → ℕ → ℕ → InformationObject
  integrated_totals_with_cp56 : ℕ → BinaryCounterReading → ℕ → InformationObject
  single_point : ℕ → Bool → ℕ → InformationObject
  double_point : ℕ → ℕ → ℕ → InformationObject
  normalized : ℕ → ℕ → ℕ → InformationObject
  scaled : ℕ → ℕ → ℕ → InformationObject
  short : ℕ → ℕ → ℕ → InformationObject
  normalized_without_quality : ℕ → ℕ → InformationObject
  short_with_cp56 : ℕ → ℕ → ℕ → ℕ → InformationObject
  scaled_with_cp56 : ℕ → ℕ → ℕ → ℕ → InformationObject

-- InformationObject_getObjectAddress
abbrev pub address : InformationObject → ℕ
address (single_point_with_cp56 ioa v q t) = ioa
address (double_point_with_cp56 ioa v q t) = ioa
address (normalized_with_cp56 ioa v q t) = ioa
address (integrated_totals_with_cp56 ioa v t) = ioa
address (single_point ioa v q) = ioa
address (double_point ioa v q) = ioa
address (normalized ioa v q) = ioa
address (scaled ioa v q) = ioa
address (short ioa v q) = ioa
address (normalized_without_quality ioa v) = ioa
address (short_with_cp56 ioa v q t) = ioa
address (scaled_with_cp56 ioa v q t) = ioa

-- InformationObject_getType
abbrev pub object_type : InformationObject → ℕ
object_type (single_point_with_cp56 ioa v q t) = TypeId.m_sp_tb_1
object_type (double_point_with_cp56 ioa v q t) = TypeId.m_dp_tb_1
object_type (normalized_with_cp56 ioa v q t) = TypeId.m_me_td_1
object_type (integrated_totals_with_cp56 ioa v t) = TypeId.m_it_tb_1
object_type (single_point ioa v q) = TypeId.m_sp_na_1
object_type (double_point ioa v q) = TypeId.m_dp_na_1
object_type (normalized ioa v q) = TypeId.m_me_na_1
object_type (scaled ioa v q) = TypeId.m_me_nb_1
object_type (short ioa v q) = TypeId.m_me_nc_1
object_type (normalized_without_quality ioa v) = TypeId.m_me_nd_1
object_type (short_with_cp56 ioa v q t) = TypeId.m_me_tf_1
object_type (scaled_with_cp56 ioa v q t) = TypeId.m_me_tb_1

-- An ASDU that the server builds: the arguments of `CS101_ASDU_create`, and the objects in it.
pub record Asdu : Type 0 where
  pub is_sequence : Bool
  pub cot : Cot
  pub oa : ℕ
  pub ca : ℕ
  pub elements : List InformationObject

-- `CS101_ASDU_create(parameters, is_sequence, cot, oa, ca, false, false)`
abbrev pub create_asdu : Bool → Cot → ℕ → ℕ → Asdu
create_asdu sequence c oa ca = record {
  is_sequence = sequence;
  cot = c;
  oa = oa;
  ca = ca;
  elements = [];
}
