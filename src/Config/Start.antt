-- ===== src/Config/Start.antt =====
-- The contexts after `parse_config_from_json`.
use iec104_server_and_modbus.Base.{
  ℕ, ◌≡◌, inl, inr, refl, sym, ◌∙◌, String, true, false, Option, none, some, List, [], ◌∷◌, All,
  All-set, All-get_elem?, arith, Bool-cases, Option-cases, subst,
}
use iec104_server_and_modbus.Cfloat.{FloatUnit}
use iec104_server_and_modbus.Cjson.{Cjson}
use iec104_server_and_modbus.Data.Manager.{DataTypeContext, get_data_context}
use iec104_server_and_modbus.Data.Manager.Configured.{IsConfigured, get_data_context_lem}
use iec104_server_and_modbus.Config.Parser.{
  State, config_keys, parse_data_type_config, configure_at, configure_type, configure_types,
  parse_global_settings, parse_periodic_config, parse_config_from_json,
}
use iec104_server_and_modbus.Config.TypeConfig.{parse_data_type_config_lem}

module _ (f : FloatUnit) (j : Cjson) where
  configure_type-IsConfigured :
      (json : j.Item) (key : String) (id : ℕ) (cs : List DataTypeContext)
      → All IsConfigured cs
      → (configure_type f j json key id cs).0 ≡ true
      → All IsConfigured (configure_type f j json key id cs).1
  unfolding configure_type configure_at
  configure_type-IsConfigured json key id cs h ok = elim (Option-cases (get_data_context cs id)) [
    | inl unknown ↦ rw (configure_type, unknown) h
    | inr (i, found) ↦
        let (c, at, _) = get_data_context_lem cs id i found in
        let own = All-get_elem? IsConfigured cs i c h at in
        let fine : (parse_data_type_config f j json key c).0 ≡ true =
          rw (configure_type, found, configure_at, at) at ok in
        rw (configure_type, found, configure_at, at)
          (All-set IsConfigured cs i _ h (parsed c own fine))
  ]
    where
      parsed :
          (c : DataTypeContext)
          → IsConfigured c
          → (parse_data_type_config f j json key c).0 ≡ true
          → IsConfigured (parse_data_type_config f j json key c).1
      parsed c own fine = elim (parse_data_type_config_lem f j json key c own) [
        | inl (_, same) ↦ rw same own
        | inr (inl (_, _, _, configured)) ↦ configured
        | inr (inr (_, bad, _)) ↦ let never : true ≡ false = sym fine ∙ bad in absurd (ground arith)
      ]

  configure_types-IsConfigured :
      (json : j.Item) (keys : List (String × ℕ)) (cs : List DataTypeContext)
      → All IsConfigured cs
      → (configure_types f j json keys cs).0 ≡ true
      → All IsConfigured (configure_types f j json keys cs).1
  unfolding configure_types
  configure_types-IsConfigured json [] cs h ok = h
  configure_types-IsConfigured json ((key, id) ∷ keys) cs h ok =
      elim (Bool-cases (configure_type f j json key id cs).0) [
        | inl fine ↦ rw fine (
            configure_types-IsConfigured json keys (configure_type f j json key id cs).1
              (configure_type-IsConfigured json key id cs h fine) (rw fine at ok))
        | inr bad ↦ let never : false ≡ true = rw (bad, bad) at ok in absurd (ground arith)
      ]

  pub parse_periodic_config-contexts :
      (json : j.Item) (s : State) → (parse_periodic_config f j json s).contexts ≡ s.contexts
  unfolding parse_periodic_config
  parse_periodic_config-contexts json s =
      elim (Option-cases (j.get_object_item_case_sensitive json "periodic")) [
        | inl none' ↦ rw (parse_periodic_config, none') refl
        | inr (p, e) ↦ elim (Bool-cases (j.object p)) [
          | inl object ↦ rw (parse_periodic_config, e, object) refl
          | inr other ↦ rw (parse_periodic_config, e, other) refl
        ]
      ]

  -- If the configuration is read from configured contexts with success, all contexts are configured
  -- afterwards.
  pub parse_config_from_json-IsConfigured :
      (text : Option String) (s : State)
      → All IsConfigured s.contexts
      → (parse_config_from_json f j text s).0 ≡ true
      → All IsConfigured (parse_config_from_json f j text s).1.contexts
  unfolding parse_config_from_json
  parse_config_from_json-IsConfigured none s h ok = h
  parse_config_from_json-IsConfigured (some json_string) s h ok =
      elim (Option-cases (j.parse json_string)) [
        | inl bad ↦ rw (parse_config_from_json, bad) h
        | inr (json, e) ↦
            let s' =
              parse_periodic_config f j json
                (record s { globals = parse_global_settings f j json s.globals }) in
            let before : All IsConfigured s'.contexts =
              subst (All IsConfigured)
                (sym (
                  parse_periodic_config-contexts json
                    (record s { globals = parse_global_settings f j json s.globals })))
                h in
            rw (parse_config_from_json, e)
              (configure_types-IsConfigured json config_keys s'.contexts before
                (rw (parse_config_from_json, e) at ok))
      ]
