-- ===== src/Config/Parser.antt =====
-- The functions of json-iec104-server/src/config/config_parser.c. Memory is always allocated. A text
-- that is copied is one of ASCII characters.
use iec104_server_and_modbus.Base.{
  ℕ, ◌==◌, String, Bool, true, false, Option, none, some, List, [], ◌∷◌, get_elem?, set, replicate,
  length, if◌then◌else◌, slice, len,
}
use iec104_server_and_modbus.Cfloat.{FloatUnit}
use iec104_server_and_modbus.Globals.{Globals}
use iec104_server_and_modbus.Cjson.{Cjson}
use iec104_server_and_modbus.Iec.{double_point_indeterminate}
use iec104_server_and_modbus.Iec.TypeId
use iec104_server_and_modbus.Iec.Quality
use iec104_server_and_modbus.Data.Types.{
  DataValueType, bool, double_point, int16, uint32, float, DataValue, DataTypeInfo,
}
use iec104_server_and_modbus.Data.Manager.{DataTypeContext, get_data_context}
use iec104_server_and_modbus.Periodic.{PeriodicConfig}

-- `strncpy` into a buffer of 64 bytes, with a terminating 0.
abbrev pub copied : String → String
copied s = slice s 0 63

-- The initial value of a point: the bytes of `calloc`, and then its fields.
abbrev pub default_member : DataValueType → ℕ
default_member bool = 0
default_member double_point = double_point_indeterminate
default_member int16 = 0
default_member uint32 = 0
default_member float = 0

abbrev pub default_value : DataTypeInfo → DataValue
default_value info = record {
  type = info.value_type;
  value = default_member info.value_type;
  quality = if info.has_quality then Quality.invalid else 0;
  has_quality = info.has_quality;
  timestamp = 0;
  has_timestamp = info.has_time_tag;
}

-- `config_keys`
abbrev pub config_keys : List (String × ℕ)
config_keys =
    ("M_SP_TB_1_config", TypeId.m_sp_tb_1)
    ∷ ("M_DP_TB_1_config", TypeId.m_dp_tb_1)
    ∷ ("M_ME_TD_1_config", TypeId.m_me_td_1)
    ∷ ("M_IT_TB_1_config", TypeId.m_it_tb_1)
    ∷ ("M_SP_NA_1_config", TypeId.m_sp_na_1)
    ∷ ("M_DP_NA_1_config", TypeId.m_dp_na_1)
    ∷ ("M_ME_NA_1_config", TypeId.m_me_na_1)
    ∷ ("M_ME_NB_1_config", TypeId.m_me_nb_1)
    ∷ ("M_ME_NC_1_config", TypeId.m_me_nc_1)
    ∷ ("M_ME_ND_1_config", TypeId.m_me_nd_1)
    ∷ []

-- What the parser writes: the globals, the contexts, and the two periodic configurations.
pub record State : Type 0 where
  pub globals : Globals
  pub contexts : List DataTypeContext
  pub me_nc_1 : PeriodicConfig
  pub sp_tb_1 : PeriodicConfig

module _ (f : FloatUnit) (j : Cjson) where
  -- A number of the settings, or the old value.
  number_or {ℓ} : {A : Type ℓ} → (j.Item → A) → Option j.Item → A → A
  number_or get none old = old
  number_or get (some item) old = if j.number item then get item else old

  text : Option String → String → String
  text none old = old
  text (some s) old = copied s

  text_or : Option j.Item → String → String
  unfolding text
  text_or none old = old
  text_or (some item) old = if j.string item then text (j.valuestring item) old else old

  unfoldable pub parse_global_settings : j.Item → Globals → Globals
  unfolding number_or text_or
  parse_global_settings json g = record {
    offline_udt_time =
        number_or j.valueint (j.get_object_item_case_sensitive json "offline_udt_time")
          g.offline_udt_time;
    deadband_m_me_nc_1_percent =
        number_or (λ i. f.to_float (j.valuedouble i))
          (j.get_object_item_case_sensitive json "deadband_M_ME_NC_1_percent")
          g.deadband_m_me_nc_1_percent;
    asdu = number_or j.valueint (j.get_object_item_case_sensitive json "ASDU") g.asdu;
    command_mode = text_or (j.get_object_item_case_sensitive json "command_mode") g.command_mode;
    tcp_port = number_or j.valueint (j.get_object_item_case_sensitive json "port") g.tcp_port;
    local_ip = text_or (j.get_object_item_case_sensitive json "local_ip") g.local_ip;
  }

  -- The loop over the addresses: the list, if every item is a number.
  unfoldable pub parse_addresses : List j.Item → Option (List ℕ)
  parse_addresses [] = some []
  parse_addresses (item ∷ items) =
      let rest = parse_addresses items in
      if j.number item
      then elim rest [ none ↦ none | some xs ↦ some (j.valueint item ∷ xs) ]
      else none

  -- The context with its arrays allocated and filled.
  unfoldable pub with_points : List ℕ → ℕ → DataTypeContext → DataTypeContext
  with_points ioas count ctx = record ctx {
    config = record { ioa_list = some ioas; count = count };
    data_array = some (replicate count (default_value ctx.type_info));
    last_offline_update =
        if ctx.type_info.has_time_tag then some (replicate count 0) else ctx.last_offline_update;
  }

  -- An array of addresses.
  unfoldable pub configure_array : List j.Item → DataTypeContext → Bool × DataTypeContext
  unfolding parse_addresses with_points
  configure_array items ctx =
      if length items == 0 then (true, ctx) else elim (parse_addresses items) [
        | none ↦
            (false, record ctx { config = record { ioa_list = none; count = ctx.config.count } })
        | some ioas ↦ (true, with_points ioas (length items) ctx)
      ]

  -- The result, and the context. None of the arguments is NULL.
  unfoldable pub parse_data_type_config : j.Item → String → DataTypeContext → Bool × DataTypeContext
  unfolding configure_array
  parse_data_type_config json config_key ctx =
      elim (j.get_object_item_case_sensitive json config_key) [
        | none ↦ (true, ctx)
        | some item ↦ if j.array item then configure_array (j.children item) ctx else (true, ctx)
      ]

  enabled_or : Option j.Item → Bool → Bool
  enabled_or none old = old
  enabled_or (some item) old = if j.boolean item then j.true_item item else old

  -- The settings of a type in the object `periodic`.
  unfoldable pub parse_periodic_type : j.Item → String → PeriodicConfig → PeriodicConfig
  unfolding enabled_or number_or
  parse_periodic_type periodic key c = elim (j.get_object_item_case_sensitive periodic key) [
    | none ↦ c
    | some item ↦
        if j.object item
        then record c {
          enabled = enabled_or (j.get_object_item_case_sensitive item "enabled") c.enabled;
          period_ms =
              number_or j.valueint (j.get_object_item_case_sensitive item "period_ms") c.period_ms;
        }
        else c
  ]

  unfoldable pub parse_periodic_config : j.Item → State → State
  unfolding parse_periodic_type
  parse_periodic_config json s = elim (j.get_object_item_case_sensitive json "periodic") [
    | none ↦ s
    | some periodic ↦
        if j.object periodic
        then record s {
          me_nc_1 = parse_periodic_type periodic "M_ME_NC_1" s.me_nc_1;
          sp_tb_1 = parse_periodic_type periodic "M_SP_TB_1" s.sp_tb_1;
        }
        else s
  ]

  -- `parse_data_type_config` on the context at an index.
  unfoldable pub configure_at :
      j.Item → String → List DataTypeContext → ℕ → Bool × List DataTypeContext
  unfolding parse_data_type_config
  configure_at json key cs i = elim (get_elem? cs i) [
    | none ↦ (false, cs)
    | some ctx ↦ let r = parse_data_type_config json key ctx in (r.0, set cs i r.1)
  ]

  unfoldable pub configure_type :
      j.Item → String → ℕ → List DataTypeContext → Bool × List DataTypeContext
  unfolding configure_at get_data_context
  configure_type json key id cs = elim (get_data_context cs id) [
    | none ↦ (false, cs)
    | some i ↦ configure_at json key cs i
  ]

  -- The loop over the keys, which ends at a failure.
  unfoldable pub configure_types :
      j.Item → List (String × ℕ) → List DataTypeContext → Bool × List DataTypeContext
  unfolding configure_type
  configure_types json [] cs = (true, cs)
  configure_types json ((key, id) ∷ keys) cs =
      let r = configure_type json key id cs in
      let rest = configure_types json keys r.1 in if r.0 then rest else r

  unfoldable pub parse_config_from_json : Option String → State → Bool × State
  unfolding parse_global_settings parse_periodic_config configure_types
  parse_config_from_json none s = (false, s)
  parse_config_from_json (some json_string) s = elim (j.parse json_string) [
    | none ↦ (false, s)
    | some json ↦
        let s' =
          parse_periodic_config json
            (record s { globals = parse_global_settings json s.globals }) in
        let r = configure_types json config_keys s'.contexts in (r.0, record s' { contexts = r.1 })
  ]

  -- `file` is the text of the file, if it can be opened; it has no character 0 and is read whole.
  unfoldable pub init_config_from_file : Option String → Option String → State → Bool × State
  unfolding parse_config_from_json
  init_config_from_file none file s = (false, s)
  init_config_from_file (some filename) none s = (false, s)
  init_config_from_file (some filename) (some content) s =
      if len content == 0 then (false, s) else parse_config_from_json (some content) s
