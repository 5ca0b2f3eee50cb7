-- ===== src/Config/Addresses.antt =====
-- The points after `parse_config_from_json` are those of the text.
use iec104_server_and_modbus.Base.{
  ℕ, ◌≡◌, ◌==◌, refl, sym, ap, ◌∙◌, subst, String, Bool, true, false, not, ◌&&◌, some, List, [],
  ◌∷◌, ◌++◌, map, All, All-append, get_elem?, set, length, append_assoc, arith, inl, inr,
  Bool-cases, Option-cases,
}
use iec104_server_and_modbus.Cfloat.{FloatUnit}
use iec104_server_and_modbus.Cjson.{Cjson}
use iec104_server_and_modbus.Data.Manager.{
  DataTypeContext, entries, init_context, init_data_contexts,
}
use iec104_server_and_modbus.Data.Manager.Configured.{
  IsConfigured, init_data_contexts-IsConfigured, get_data_context-skip,
}
use iec104_server_and_modbus.Interrogation.Station.{station_addresses}
use iec104_server_and_modbus.Config.Parser.{
  State, config_keys, parse_data_type_config, parse_addresses, configure_array, with_points,
  configure_at, configure_type, configure_types, parse_global_settings, parse_config_from_json,
}
use iec104_server_and_modbus.Config.TypeConfig.{listed, HasPoints, parse_data_type_config_lem}
use iec104_server_and_modbus.Config.Start.{parse_periodic_config-contexts}

get_elem?-middle :
    {A : Type 0} (xs ys : List A) (x : A) → get_elem? (xs ++ (x ∷ ys)) (length xs) ≡ some x
get_elem?-middle [] ys x = refl
get_elem?-middle (y ∷ xs) ys x = get_elem?-middle xs ys x

set-middle :
    {A : Type 0} (xs ys : List A) (x v : A) → set (xs ++ (x ∷ ys)) (length xs) v ≡ xs ++ (v ∷ ys)
set-middle [] ys x v = refl
set-middle (y ∷ xs) ys x v = ap (◌∷◌ y) (set-middle xs ys x v)

-- No two keys are of the same type.
abbrev AreDistinct : List (String × ℕ) → Type 0
AreDistinct [] = Unit {0}
AreDistinct (k ∷ ks) = All (λ l. (k.1 == l.1) ≡ false) ks × AreDistinct ks

-- No key is of the type of a context.
abbrev AreOther : List DataTypeContext → List (String × ℕ) → Type 0
AreOther done = All (λ k. All (λ d. (d.type_id == k.1) ≡ false) done)

module _ (f : FloatUnit) (j : Cjson) (json : j.Item) where
  -- Each context is what its key makes of the context before, without an error.
  Parsed : List (String × ℕ) → List DataTypeContext → List DataTypeContext → Type 0
  Parsed [] [] [] = Unit {0}
  Parsed (k ∷ ks) (c ∷ cs) (d ∷ ds) =
      (parse_data_type_config f j json k.0 c ≡ (true, d)) × Parsed ks cs ds
  Parsed _ _ _ = ⊥

  -- The keys are those of the contexts, in order.
  HasTypes : List (String × ℕ) → List DataTypeContext → Type 0
  HasTypes [] [] = Unit {0}
  HasTypes (k ∷ ks) (c ∷ cs) = (c.type_id ≡ k.1) × HasTypes ks cs
  HasTypes _ _ = ⊥

  configure_type-middle :
      (done rest : List DataTypeContext) (c : DataTypeContext) (key : String) (id : ℕ)
      → All (λ d. (d.type_id == id) ≡ false) done
      → c.type_id ≡ id
      → let r = parse_data_type_config f j json key c in
        configure_type f j json key id (done ++ (c ∷ rest)) ≡ (r.0, done ++ (r.1 ∷ rest))
  unfolding configure_type configure_at
  configure_type-middle done rest c key id other same =
      rw
        (
          configure_type,
          get_data_context-skip done rest c id other same,
          configure_at,
          get_elem?-middle done rest c,
        )
        (λ i. (
          (parse_data_type_config f j json key c).0,
          set-middle done rest c (parse_data_type_config f j json key c).1 i,
        ))

  configure_array-type :
      (items : List j.Item) (c : DataTypeContext)
      → (configure_array f j items c).1.type_id ≡ c.type_id
  unfolding configure_array with_points
  configure_array-type items c = elim (Bool-cases (length items == 0)) [
    | inl empty ↦ rw empty refl
    | inr more ↦ elim (Option-cases (parse_addresses f j items)) [
      | inl bad ↦ rw (more, bad) refl
      | inr (ioas, e) ↦ rw (more, e) refl
    ]
  ]

  parse_data_type_config-type :
      (key : String) (c : DataTypeContext)
      → (parse_data_type_config f j json key c).1.type_id ≡ c.type_id
  unfolding parse_data_type_config
  parse_data_type_config-type key c =
      elim (Option-cases (j.get_object_item_case_sensitive json key)) [
        | inl none' ↦ rw (parse_data_type_config, none') refl
        | inr (item, e) ↦ elim (Bool-cases (j.array item)) [
          | inl array ↦
              rw (parse_data_type_config, e, array) (configure_array-type (j.children item) c)
          | inr other ↦ rw (parse_data_type_config, e, other) refl
        ]
      ]

  AreOther-next :
      (done : List DataTypeContext) (v : DataTypeContext) (id : ℕ) (ks : List (String × ℕ))
      → v.type_id ≡ id
      → AreOther done ks
      → All (λ l. (id == l.1) ≡ false) ks
      → AreOther (done ++ (v ∷ [])) ks
  AreOther-next done v id [] same h d = tt
  AreOther-next done v id (k ∷ ks) same h d = (
    All-append (λ c. (c.type_id == k.1) ≡ false) done (v ∷ []) h.0 (rw same d.0, tt),
    AreOther-next done v id ks same h.1 d.1,
  )

  configure_types-Parsed :
      (ks : List (String × ℕ)) (done rest : List DataTypeContext)
      → HasTypes ks rest
      → AreDistinct ks
      → AreOther done ks
      → (configure_types f j json ks (done ++ rest)).0 ≡ true
      → (ds : List DataTypeContext) × ((configure_types f j json ks (done ++ rest)).1 ≡ done ++ ds)
        × Parsed ks rest ds
  unfolding configure_types HasTypes Parsed
  configure_types-Parsed [] done [] t d o ok = ([], refl, tt)
  configure_types-Parsed [] done (c ∷ cs) t d o ok = elim t [ ]
  configure_types-Parsed ((key, id) ∷ ks) done [] t d o ok = elim t [ ]
  configure_types-Parsed ((key, id) ∷ ks) done (c ∷ cs) t d o ok =
      let v = (parse_data_type_config f j json key c).1 in
      let e = configure_type-middle done cs c key id o.0 t.0 in
      let moved : done ++ (v ∷ cs) ≡ (done ++ (v ∷ [])) ++ cs =
        sym (append_assoc done (v ∷ []) cs) in
      elim (Bool-cases (parse_data_type_config f j json key c).0) [
        | inl fine ↦
            let step : configure_types f j json ((key, id) ∷ ks) (done ++ (c ∷ cs))
                ≡ configure_types f j json ks ((done ++ (v ∷ [])) ++ cs) =
              rw (e, fine, moved) refl in
            let (ds, result, parsed) =
              configure_types-Parsed ks (done ++ (v ∷ [])) cs t.1 d.1
                (AreOther-next done v id ks (parse_data_type_config-type key c ∙ t.0) o.1 d.0)
                (ap (λ r. r.0) (sym step) ∙ ok) in
            (
              v ∷ ds,
              ap (λ r. r.1) step ∙ result ∙ append_assoc done (v ∷ []) ds,
              ((λ i. (fine i, v)), parsed),
            )
        | inr bad ↦ let never : false ≡ true = rw (e, bad) at ok in absurd (ground arith)
      ]

  -- The addresses that the text has for the keys, in order.
  pub file_addresses : List (String × ℕ) → List ℕ
  file_addresses [] = []
  file_addresses (k ∷ ks) = map j.valueint (listed f j json k.0) ++ file_addresses ks

  -- The addresses of a type that had none before.
  addresses_of_type :
      (key : String) (c d : DataTypeContext)
      → IsConfigured c
      → entries c.config.ioa_list ≡ []
      → parse_data_type_config f j json key c ≡ (true, d)
      → entries d.config.ioa_list ≡ map j.valueint (listed f j json key)
  addresses_of_type key c d h empty p = elim (parse_data_type_config_lem f j json key c h) [
    | inl (nothing, same) ↦
        let kept : d ≡ c = ap (λ r. r.1) (sym p ∙ same) in
        ap (λ x. entries x.config.ioa_list) kept ∙ empty ∙ ap (map j.valueint) (sym nothing)
    | inr (inl (_, _, points, _)) ↦
        (subst (λ r. HasPoints f j (listed f j json key) r.1) p points).addresses
    | inr (inr (_, bad, _)) ↦
        let never : true ≡ false = ap (λ r. r.0) (sym p) ∙ bad in absurd (ground arith)
  ]

  Parsed-addresses :
      (ks : List (String × ℕ)) (cs ds : List DataTypeContext)
      → All IsConfigured cs
      → All (λ (c : DataTypeContext). entries c.config.ioa_list ≡ []) cs
      → Parsed ks cs ds
      → station_addresses ds ≡ file_addresses ks
  unfolding Parsed file_addresses
  Parsed-addresses [] [] [] h empty p = refl
  Parsed-addresses (k ∷ ks) (c ∷ cs) (d ∷ ds) h empty p = λ i.
      addresses_of_type k.0 c d h.0 empty.0 p.0 i ++ Parsed-addresses ks cs ds h.1 empty.1 p.1 i
  Parsed-addresses [] [] (d ∷ ds) h empty p = elim p [ ]
  Parsed-addresses [] (c ∷ cs) ds h empty p = elim p [ ]
  Parsed-addresses (k ∷ ks) [] ds h empty p = elim p [ ]
  Parsed-addresses (k ∷ ks) (c ∷ cs) [] h empty p = elim p [ ]

  init_data_contexts-HasTypes : HasTypes config_keys init_data_contexts
  unfolding HasTypes init_data_contexts init_context
  init_data_contexts-HasTypes =
      (refl, (refl, (refl, (refl, (refl, (refl, (refl, (refl, (refl, (refl, tt))))))))))

  config_keys-AreDistinct : AreDistinct config_keys
  config_keys-AreDistinct = decided config_keys refl
    where
      differs : ℕ → List (String × ℕ) → Bool
      differs id [] = true
      differs id (k ∷ ks) = not (id == k.1) && differs id ks

      all_differ : List (String × ℕ) → Bool
      all_differ [] = true
      all_differ (k ∷ ks) = differs k.1 ks && all_differ ks

      each :
          (id : ℕ) (ks : List (String × ℕ))
          → differs id ks ≡ true
          → All (λ l. (id == l.1) ≡ false) ks
      each id [] h = tt
      each id (k ∷ ks) h = (ground arith, each id ks (ground arith))

      decided : (ks : List (String × ℕ)) → all_differ ks ≡ true → AreDistinct ks
      decided [] h = tt
      decided (k ∷ ks) h = (each k.1 ks (ground arith), decided ks (ground arith))

  none_before : (ks : List (String × ℕ)) → AreOther [] ks
  none_before [] = tt
  none_before (k ∷ ks) = (tt, none_before ks)

  init_data_contexts-empty :
      All (λ (c : DataTypeContext). entries c.config.ioa_list ≡ []) init_data_contexts
  unfolding init_data_contexts init_context
  init_data_contexts-empty =
      (refl, (refl, (refl, (refl, (refl, (refl, (refl, (refl, (refl, (refl, tt))))))))))

  -- What the loop over the keys makes of the contexts of a program that has just started.
  configured_addresses :
      (configure_types f j json config_keys init_data_contexts).0 ≡ true
      → station_addresses (configure_types f j json config_keys init_data_contexts).1
        ≡ file_addresses config_keys
  configured_addresses ok =
      let (ds, result, parsed) =
        configure_types-Parsed config_keys [] init_data_contexts init_data_contexts-HasTypes
          config_keys-AreDistinct (none_before config_keys) ok in
      ap station_addresses result
      ∙ Parsed-addresses config_keys init_data_contexts ds init_data_contexts-IsConfigured
          init_data_contexts-empty parsed

-- A program that has just started and reads a text with success has, for the types in order, exactly
-- the addresses of that text: the numbers in the arrays of the ten keys, in their order.
pub parse_config_from_json-addresses :
    (f : FloatUnit) (j : Cjson) (text : String) (s : State)
    → s.contexts ≡ init_data_contexts
    → (parse_config_from_json f j (some text) s).0 ≡ true
    → (json : j.Item) × (j.parse text ≡ some json)
      × (station_addresses (parse_config_from_json f j (some text) s).1.contexts
          ≡ file_addresses f j json config_keys)
unfolding parse_config_from_json
parse_config_from_json-addresses f j text s fresh ok = elim (Option-cases (j.parse text)) [
  | inl bad ↦
      let never : false ≡ true = rw (parse_config_from_json, bad) at ok in absurd (ground arith)
  | inr (json, e) ↦
      let before =
        parse_periodic_config-contexts f j json
          (record s { globals = parse_global_settings f j json s.globals })
        ∙ fresh in
      let fine : (configure_types f j json config_keys init_data_contexts).0 ≡ true =
        subst (λ cs. (configure_types f j json config_keys cs).0 ≡ true) before
          (rw (parse_config_from_json, e) at ok) in
      (
        json,
        e,
        rw (parse_config_from_json, e)
            (subst
              (λ cs.
                station_addresses (configure_types f j json config_keys cs).1
                ≡ file_addresses f j json config_keys)
              (sym before) (configured_addresses f j json fine)),
      )
]
