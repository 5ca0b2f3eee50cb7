-- ===== src/Config/TypeConfig.antt =====
-- What `parse_data_type_config` makes of the configuration of a type.
use iec104_server_and_modbus.Base.{
  ℕ, suc, ◌==◌, ◌≡◌, ◌⊎◌, inl, inr, refl, sym, ap, ◌∙◌, String, Bool, true, false, Option, none,
  some, List, [], ◌∷◌, map, All, replicate, length, length-replicate, if◌then◌else◌, arith,
  Bool-cases, Option-cases,
}
use iec104_server_and_modbus.Cfloat.{FloatUnit}
use iec104_server_and_modbus.Cjson.{Cjson}
use iec104_server_and_modbus.Data.Manager.{DataTypeContext, entries}
use iec104_server_and_modbus.Data.Manager.Valid.{HasLength}
use iec104_server_and_modbus.Data.Manager.Configured.{IsConfigured}
use iec104_server_and_modbus.Config.Parser.{
  default_value, parse_addresses, with_points, configure_array, parse_data_type_config,
}

module _ (f : FloatUnit) (j : Cjson) where
  -- Every item is a number, or one is not.
  abbrev pub AreNumbers : List j.Item → Type 0
  AreNumbers items = All (λ item. j.number item ≡ true) items

  -- The addresses are the numbers of the items, in order; there are none if an item is no number.
  parse_addresses_lem :
      (items : List j.Item)
      → (AreNumbers items × (parse_addresses f j items ≡ some (map j.valueint items)))
        ⊎ ((AreNumbers items → ⊥) × (parse_addresses f j items ≡ none))
  unfolding parse_addresses
  parse_addresses_lem [] = inl (tt, refl)
  parse_addresses_lem (item ∷ items) = elim (Bool-cases (j.number item)) [
    | inl is ↦ elim (parse_addresses_lem items) [
      | inl (h, e) ↦ inl ((is, h), rw (is, e) refl)
      | inr (bad, e) ↦ inr ((λ h. bad h.1), rw (is, e) refl)
    ]
    | inr other ↦
        inr (
          (λ h. let never : true ≡ false = sym h.0 ∙ other in absurd (ground arith)),
          rw other refl,
        )
  ]

  length-map_native : (items : List j.Item) → length (map j.valueint items) ≡ length items
  length-map_native [] = refl
  length-map_native (i ∷ items) = ap suc (length-map_native items)

  -- What the key holds: the entries of an array, or nothing.
  abbrev pub listed : j.Item → String → List j.Item
  listed json key = elim (j.get_object_item_case_sensitive json key) [
    | none ↦ []
    | some item ↦ if j.array item then j.children item else []
  ]

  -- The points are the numbers of the items, in order, all with the default value.
  pub record HasPoints (items : List j.Item) (d : DataTypeContext) : Type 0 where
    pub addresses : entries d.config.ioa_list ≡ map j.valueint items
    pub count : d.config.count ≡ length items
    pub values : entries d.data_array ≡ replicate (length items) (default_value d.type_info)

  with_points-stamps :
      (b : Bool) (n : ℕ) (old : Option (List ℕ))
      → (b ≡ false → old ≡ none)
      → HasLength n (if b then some (replicate n 0) else old)
  with_points-stamps true n old h = length-replicate n 0
  with_points-stamps false n none h = tt
  with_points-stamps false n (some xs) h =
      let never : some xs ≡ none = h refl in absurd (ground arith)

  with_points-IsConfigured :
      (ioas : List ℕ) (n : ℕ) (c : DataTypeContext)
      → IsConfigured c
      → length ioas ≡ n
      → IsConfigured (with_points f j ioas n c)
  unfolding with_points
  with_points-IsConfigured ioas n c h e = record {
    valid = record {
      addresses = e;
      values = length-replicate n (default_value c.type_info);
      stamps = with_points-stamps c.type_info.has_time_tag n c.last_offline_update h.untimed;
      info = h.valid.info;
    };
    known = h.known;
    untimed = λ untimed. rw untimed (h.untimed untimed);
  }

  nonempty : (item : j.Item) (items : List j.Item) → (length (item ∷ items) == 0) ≡ false
  nonempty item items = ground arith

  configure_array-nil : (c : DataTypeContext) → configure_array f j [] c ≡ (true, c)
  unfolding configure_array
  configure_array-nil c = refl

  parse_data_type_config-listed :
      (json : j.Item) (key : String) (c : DataTypeContext)
      → parse_data_type_config f j json key c ≡ configure_array f j (listed json key) c
  unfolding parse_data_type_config
  parse_data_type_config-listed json key c =
      elim (Option-cases (j.get_object_item_case_sensitive json key)) [
        | inl none' ↦
            rw (parse_data_type_config, none') (sym (configure_array-nil c))
            ∙ by [] (rw (listed, none') refl)
        | inr (item, e) ↦ elim (Bool-cases (j.array item)) [
          | inl array ↦
              rw (parse_data_type_config, e, array) refl
              ∙ by (j.children item) (rw (listed, e, array) refl)
          | inr other ↦
              rw (parse_data_type_config, e, other) (sym (configure_array-nil c))
              ∙ by [] (rw (listed, e, other) refl)
        ]
      ]
    where
      by :
          (items : List j.Item)
          → listed json key ≡ items
          → configure_array f j items c ≡ configure_array f j (listed json key) c
      by items l = λ i. configure_array f j (sym l i) c

  -- The configuration of a type, from a configured context. A key that is missing, holds no array or
  -- an empty one succeeds and changes nothing. An array of numbers succeeds, and gives the type one
  -- point for each number, in order, with the default value, in a configured context. Any other
  -- array fails, and leaves the type without addresses.
  pub parse_data_type_config_lem :
      (json : j.Item) (key : String) (c : DataTypeContext)
      → IsConfigured c
      → let r = parse_data_type_config f j json key c in
        let items = listed json key in
        ((items ≡ []) × (r ≡ (true, c)))
        ⊎ (AreNumbers items × (r.0 ≡ true) × HasPoints items r.1 × IsConfigured r.1)
        ⊎ ((AreNumbers items → ⊥) × (r.0 ≡ false) × (entries r.1.config.ioa_list ≡ []))
  unfolding configure_array with_points
  parse_data_type_config_lem json key c h =
      rw (parse_data_type_config-listed json key c) (from (listed json key))
    where
      from :
          (items : List j.Item)
          → let r = configure_array f j items c in
            ((items ≡ []) × (r ≡ (true, c)))
            ⊎ (AreNumbers items × (r.0 ≡ true) × HasPoints items r.1 × IsConfigured r.1)
            ⊎ ((AreNumbers items → ⊥) × (r.0 ≡ false) × (entries r.1.config.ioa_list ≡ []))
      from [] = inl (refl, refl)
      from (item ∷ items) = elim (parse_addresses_lem (item ∷ items)) [
        | inl (all, e) ↦ inr (
            inl (
              all,
              rw (configure_array, nonempty item items, e) refl,
              rw (configure_array, nonempty item items, e)
                  record { addresses = refl; count = refl; values = refl },
              rw (configure_array, nonempty item items, e)
                  (with_points-IsConfigured (map j.valueint (item ∷ items)) (length (item ∷ items))
                    c h (length-map_native (item ∷ items))),
            ))
        | inr (bad, e) ↦ inr (
            inr (
              bad,
              rw (configure_array, nonempty item items, e) refl,
              rw (configure_array, nonempty item items, e) refl,
            ))
      ]
