-- ===== src/Data/Types/Lookup.antt =====
-- The look-ups of data_types.c, by number and by name, invert one another.
use iec104_server_and_modbus.Base.{
  ℕ, ◌≡◌, refl, ◌∙◌, some, List, [], ◌∷◌, All, arith, ◌==◌, Bool-cases, inl, inr, subst,
}
use iec104_server_and_modbus.Data.Types.{
  DataTypeInfo, data_type_table, find_by_id, get_data_type_info, get_data_type_info_by_name,
  parse_type_id_from_string, type_id_to_string,
}

-- What a search returns is a row of the table, with the number that was asked for.
find_by_id-All {κ} :
    (P : DataTypeInfo → Type κ) (id : ℕ) (ts : List DataTypeInfo) (t : DataTypeInfo)
    → All P ts
    → find_by_id id ts ≡ some t
    → P t × (t.type_id ≡ id)
unfolding find_by_id
find_by_id-All P id [] t a h = absurd (ground arith)
find_by_id-All P id (x ∷ ts) t a h = elim (Bool-cases (x.type_id == id)) [
  | inl hit ↦ let e : x ≡ t = ground arith in (subst P e a.0, ground arith)
  | inr miss ↦ find_by_id-All P id ts t a.1 (rw (miss, find_by_id) at h)
]

-- A fact about every row holds of what `get_data_type_info` finds.
pub get_data_type_info-All {κ} :
    (P : DataTypeInfo → Type κ) (id : ℕ) {t : DataTypeInfo}
    → All P data_type_table
    → get_data_type_info id ≡ some t
    → P t × (t.type_id ≡ id)
unfolding get_data_type_info
get_data_type_info-All P id {t} a h = find_by_id-All P id data_type_table t a h

-- Each row is found by its name, and its name is parsed to its number.
abbrev IsConsistent : DataTypeInfo → Type 0
IsConsistent t =
    (get_data_type_info_by_name (some t.name) ≡ some t)
    × (parse_type_id_from_string (some t.name) ≡ t.type_id)

table-IsConsistent : All IsConsistent data_type_table
unfolding parse_type_id_from_string get_data_type_info_by_name
table-IsConsistent = (
  (refl, refl),
  (
    (refl, refl),
    (
      (refl, refl),
      (
        (refl, refl),
        (
          (refl, refl),
          ((refl, refl), ((refl, refl), ((refl, refl), ((refl, refl), ((refl, refl), tt))))),
        ),
      ),
    ),
  ),
)

-- For a supported number the row that is found carries that number, the name of the row finds the
-- same row, and the printed name of the number is parsed back to the number.
pub lookup_round_trip :
    (id : ℕ) (t : DataTypeInfo)
    → get_data_type_info id ≡ some t
    → (t.type_id ≡ id)
      × (get_data_type_info_by_name (some t.name) ≡ some t)
      × (parse_type_id_from_string (some (type_id_to_string id)) ≡ id)
unfolding type_id_to_string
lookup_round_trip id t h =
    let found = get_data_type_info-All IsConsistent id {t = t} table-IsConsistent h in
    (found.1, found.0.0, rw (h, type_id_to_string) (found.0.1 ∙ found.1))
