-- ===== src/Interrogation/Objects.antt =====
-- The information objects of json-iec104-server/src/protocol/interrogation.c. NULL is `none`.
use iec104_server_and_modbus.Base.{
  ℕ, ◌≡◌, refl, Bool, true, false, ◌||◌, Option, none, some, All, ◌==◌, if◌then◌else◌, ◌⊎◌, inl,
  inr, subst,
}
use iec104_server_and_modbus.Iec.TypeId
use iec104_server_and_modbus.Iec.{
  InformationObject, BinaryCounterReading, single_point_with_cp56, double_point_with_cp56,
  normalized_with_cp56, integrated_totals_with_cp56, single_point, double_point, normalized, scaled,
  short, normalized_without_quality, short_with_cp56, scaled_with_cp56, address, object_type,
}
use iec104_server_and_modbus.Data.Types.{
  DataValue, bool_val, dp_val, int16_val, uint32_val, float_val, DataTypeInfo, data_type_table,
  get_data_type_info,
}
use iec104_server_and_modbus.Data.Types.Lookup.{get_data_type_info-All}

-- `BinaryCounterReading_create(NULL, value, 0, false, false, false)`
abbrev reading : ℕ → BinaryCounterReading
reading value = record {
  value = value;
  sequence_number = 0;
  has_carry = false;
  is_adjusted = false;
  is_invalid = false;
}

unfoldable pub create_io_for_type : ℕ → ℕ → DataValue → Option InformationObject
create_io_for_type type_id ioa v =
    if type_id == TypeId.m_sp_tb_1
    then some (single_point_with_cp56 ioa (bool_val v) v.quality v.timestamp)
    else if type_id == TypeId.m_dp_tb_1
    then some (double_point_with_cp56 ioa (dp_val v) v.quality v.timestamp)
    else if type_id == TypeId.m_me_td_1
    then some (normalized_with_cp56 ioa (float_val v) v.quality v.timestamp)
    else if type_id == TypeId.m_it_tb_1
    then some (integrated_totals_with_cp56 ioa (reading (uint32_val v)) v.timestamp)
    else if type_id == TypeId.m_sp_na_1
    then some (single_point ioa (bool_val v) v.quality)
    else if type_id == TypeId.m_dp_na_1
    then some (double_point ioa (dp_val v) v.quality)
    else if type_id == TypeId.m_me_na_1
    then some (normalized ioa (float_val v) v.quality)
    else if type_id == TypeId.m_me_nb_1
    then some (scaled ioa (int16_val v) v.quality)
    else if type_id == TypeId.m_me_nc_1
    then some (short ioa (float_val v) v.quality)
    else if type_id == TypeId.m_me_nd_1
    then some (normalized_without_quality ioa (float_val v))
    else if type_id == TypeId.m_me_tf_1
    then some (short_with_cp56 ioa (float_val v) v.quality v.timestamp)
    else if type_id == TypeId.m_me_tb_1
    then some (scaled_with_cp56 ioa (int16_val v) v.quality v.timestamp)
    else none

offline_io : Option DataTypeInfo → ℕ → DataValue → Option InformationObject
offline_io none ioa v = none
offline_io (some info) ioa v =
    if info.offline_equivalent == 0 then none else create_io_for_type info.offline_equivalent ioa v

unfoldable pub create_offline_io_for_type : ℕ → ℕ → DataValue → Option InformationObject
unfolding offline_io create_io_for_type
create_offline_io_for_type original_type ioa v = offline_io (get_data_type_info original_type) ioa v

-- An object of the type and the address, if there is one at all.
abbrev pub IsObject : ℕ → ℕ → Option InformationObject → Type 0
IsObject type_id ioa none = ⊥
IsObject type_id ioa (some io) = (address io ≡ ioa) × (object_type io ≡ type_id)

abbrev IsCreated : DataTypeInfo → Type 0
IsCreated t =
    (ioa : ℕ) (v : DataValue) → IsObject t.type_id ioa (create_io_for_type t.type_id ioa v)

table-IsCreated : All IsCreated data_type_table
unfolding create_io_for_type
table-IsCreated = (
  λ _ _. (refl, refl),
  (
    λ _ _. (refl, refl),
    (
      λ _ _. (refl, refl),
      (
        λ _ _. (refl, refl),
        (
          λ _ _. (refl, refl),
          (
            λ _ _. (refl, refl),
            (
              λ _ _. (refl, refl),
              (λ _ _. (refl, refl), (λ _ _. (refl, refl), (λ _ _. (refl, refl), tt))),
            ),
          ),
        ),
      ),
    ),
  ),
)

-- For each supported type an object is created, of that type and with the given address.
pub create_io_for_type_lem :
    (id ioa : ℕ) (t : DataTypeInfo) (v : DataValue)
    → get_data_type_info id ≡ some t
    → IsObject id ioa (create_io_for_type id ioa v)
create_io_for_type_lem id ioa t v h =
    let found = get_data_type_info-All IsCreated id {t = t} table-IsCreated h in
    subst (λ k. IsObject k ioa (create_io_for_type k ioa v)) found.1 (found.0 ioa v)

-- The types with a time tag.
abbrev pub has_cp56 : ℕ → Bool
has_cp56 id =
    id == TypeId.m_sp_tb_1
    || id == TypeId.m_dp_tb_1
    || id == TypeId.m_me_td_1
    || id == TypeId.m_it_tb_1
    || id == TypeId.m_me_tf_1
    || id == TypeId.m_me_tb_1

abbrev IsQueued : DataTypeInfo → Type 0
IsQueued t =
    (ioa : ℕ) (v : DataValue)
    → ((t.offline_equivalent ≡ 0) × (offline_io (some t) ioa v ≡ none))
      ⊎ (IsObject t.offline_equivalent ioa (offline_io (some t) ioa v)
          × (has_cp56 t.offline_equivalent ≡ true))

table-IsQueued : All IsQueued data_type_table
unfolding offline_io create_io_for_type
table-IsQueued = (
  λ _ _. inr ((refl, refl), refl),
  (
    λ _ _. inr ((refl, refl), refl),
    (
      λ _ _. inr ((refl, refl), refl),
      (
        λ _ _. inr ((refl, refl), refl),
        (
          λ _ _. inr ((refl, refl), refl),
          (
            λ _ _. inr ((refl, refl), refl),
            (
              λ _ _. inr ((refl, refl), refl),
              (
                λ _ _. inr ((refl, refl), refl),
                (λ _ _. inr ((refl, refl), refl), (λ _ _. inl (refl, refl), tt)),
              ),
            ),
          ),
        ),
      ),
    ),
  ),
)

-- For a supported type, the object for the offline queue is missing exactly if the type has no
-- offline equivalent. Otherwise it has the given address and is of the equivalent type, which has
-- a time tag.
pub create_offline_io_for_type_lem :
    (id ioa : ℕ) (t : DataTypeInfo) (v : DataValue)
    → get_data_type_info id ≡ some t
    → ((t.offline_equivalent ≡ 0) × (create_offline_io_for_type id ioa v ≡ none))
      ⊎ (IsObject t.offline_equivalent ioa (create_offline_io_for_type id ioa v)
          × (has_cp56 t.offline_equivalent ≡ true))
unfolding offline_io create_offline_io_for_type
create_offline_io_for_type_lem id ioa t v h =
    let found = get_data_type_info-All IsQueued id {t = t} table-IsQueued h in rw h (found.0 ioa v)
