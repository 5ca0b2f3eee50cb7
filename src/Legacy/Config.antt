-- ===== src/Legacy/Config.antt =====
-- `parse_config_from_json` and `init_config_from_file` of json-iec104-server/json-iec104-server.c.
-- Memory is always allocated. The parser goes on after each type.
use iec104_server_and_modbus.Base.{
  ℕ, zero, suc, String, str_eq, Bool, true, false, ◌||◌, Option, none, some, List, [], ◌∷◌,
  replicate, length, if◌then◌else◌, len, ltb, ◌==◌,
}
use iec104_server_and_modbus.Cfloat.{FloatUnit}
use iec104_server_and_modbus.Cjson.{Cjson}
use iec104_server_and_modbus.Globals.{Globals}
use iec104_server_and_modbus.Iec.{BinaryCounterReading}
use iec104_server_and_modbus.Iec.Quality
use iec104_server_and_modbus.Data.Manager.{DynamicIoaConfig}
use iec104_server_and_modbus.Periodic.{PeriodicConfig}
use iec104_server_and_modbus.Legacy.Command.{Addresses}
use iec104_server_and_modbus.Legacy.Points.{Points, Counters}
use iec104_server_and_modbus.Legacy.Server.{LegacyData}

-- The globals that the parser sets. Of Globals the server has the first four.
pub record LegacyState : Type 0 where
  pub globals : Globals
  pub points : LegacyData
  pub m_dp_na_1 : Points
  pub m_me_na_1 : Points
  pub m_me_nb_1 : Points
  pub commands : Addresses
  pub periodic_m_me_nc_1 : PeriodicConfig
  pub periodic_m_sp_tb_1 : PeriodicConfig

-- What fresh memory holds: an address, and a counter after `BinaryCounterReading_setValue` to 0 and
-- `BinaryCounterReading_setInvalid`.
pub record Memory : Type 0 where
  pub word : ℕ → ℕ
  pub counter : ℕ → BinaryCounterReading

-- IEC60870_DOUBLE_POINT_INTERMEDIATE
abbrev pub double_point_intermediate : ℕ
double_point_intermediate = 0

module _ (f : FloatUnit) (j : Cjson) (m : Memory) where
  -- The loop over the addresses; where an item is no number, the fresh memory stays.
  unfoldable pub fill_ioas : ℕ → List j.Item → List ℕ
  fill_ioas i [] = []
  fill_ioas i (item ∷ items) =
      (if j.number item then j.valueint item else m.word i) ∷ fill_ioas (suc i) items

  unfoldable pub ioas_of : List j.Item → DynamicIoaConfig
  unfolding fill_ioas
  ioas_of items = record { ioa_list = some (fill_ioas 0 items); count = length items }

  -- The array of a type, if there is one.
  array_items : Option j.Item → Option (List j.Item)
  array_items none = none
  array_items (some item) = if j.array item then some (j.children item) else none

  -- A type with an array of times, or without.
  unfoldable pub points_with : Bool → ℕ → ℕ → Points → Option (List j.Item) → Points
  unfolding ioas_of
  points_with timed v q p none = p
  points_with timed v q p (some items) = record {
    config = ioas_of items;
    entries = replicate (length items) (record { value = v; qualifier = q });
    last_offline_update =
        if timed then some (replicate (length items) 0) else p.last_offline_update;
    past_the_array = p.past_the_array;
  }

  unfoldable pub counters_from : ℕ → ℕ → List BinaryCounterReading
  counters_from i zero = []
  counters_from i (suc n) = m.counter i ∷ counters_from (suc i) n

  unfoldable pub counters_with : Counters → Option (List j.Item) → Counters
  unfolding ioas_of counters_from
  counters_with c none = c
  counters_with c (some items) = record {
    config = ioas_of items;
    entries = counters_from 0 (length items);
    past_the_array = c.past_the_array;
  }

  commands_with : DynamicIoaConfig → Option (List j.Item) → DynamicIoaConfig
  unfolding ioas_of
  commands_with config none = config
  commands_with config (some items) = ioas_of items

  module _ (json : j.Item) where
    items_of : String → Option (List j.Item)
    unfolding array_items
    items_of key = array_items (j.get_object_item_case_sensitive json key)

    -- A number of the settings, or the old value.
    setting : (j.Item → ℕ) → Option j.Item → ℕ → ℕ
    setting get none old = old
    setting get (some item) old = if j.number item then get item else old

    mode_of : Option String → String → String
    mode_of none old = old
    mode_of (some s) old = if str_eq s "sbo" || str_eq s "direct" then s else "direct"

    mode_setting : Option j.Item → String → String
    unfolding mode_of
    mode_setting none old = old
    mode_setting (some item) old = if j.string item then mode_of (j.valuestring item) old else old

    unfoldable pub legacy_settings : Globals → Globals
    unfolding setting mode_setting
    legacy_settings g = record g {
      offline_udt_time =
          setting j.valueint (j.get_object_item_case_sensitive json "offline_udt_time")
            g.offline_udt_time;
      asdu = setting j.valueint (j.get_object_item_case_sensitive json "ASDU") g.asdu;
      deadband_m_me_nc_1_percent =
          setting (λ i. f.to_float (j.valuedouble i))
            (j.get_object_item_case_sensitive json "M_ME_NC_1_deadband_percent")
            g.deadband_m_me_nc_1_percent;
      command_mode =
          mode_setting (j.get_object_item_case_sensitive json "mode_command") g.command_mode;
    }

    unfoldable pub legacy_points : LegacyData → LegacyData
    unfolding points_with counters_with items_of
    legacy_points s = record {
      m_sp_tb_1 = points_with true 0 Quality.invalid s.m_sp_tb_1 (items_of "M_SP_TB_1_config");
      m_dp_tb_1 =
          points_with true double_point_intermediate Quality.invalid s.m_dp_tb_1
            (items_of "M_DP_TB_1_config");
      m_me_td_1 = points_with false 0 Quality.invalid s.m_me_td_1 (items_of "M_ME_TD_1_config");
      m_it_tb_1 = counters_with s.m_it_tb_1 (items_of "M_IT_TB_1_config");
      m_sp_na_1 = points_with true 0 Quality.invalid s.m_sp_na_1 (items_of "M_SP_NA_1_config");
      m_me_nd_1 = points_with false 0 0 s.m_me_nd_1 (items_of "M_ME_ND_1_config");
      m_me_nc_1 = points_with true 0 Quality.invalid s.m_me_nc_1 (items_of "M_ME_NC_1_config");
    }

    unfoldable pub legacy_commands : Addresses → Addresses
    unfolding commands_with items_of
    legacy_commands a = record {
      c_sc_na_1 = commands_with a.c_sc_na_1 (items_of "C_SC_NA_1_config");
      c_dc_na_1 = commands_with a.c_dc_na_1 (items_of "C_DC_NA_1_config");
      c_se_na_1 = commands_with a.c_se_na_1 (items_of "C_SE_NA_1_config");
      c_se_nc_1 = commands_with a.c_se_nc_1 (items_of "C_SE_NC_1_config");
    }

    -- The settings of a type in the object `periodic`.
    enabled_setting : Option j.Item → Bool → Bool
    enabled_setting none old = old
    enabled_setting (some item) old = j.true_item item

    periodic_with : PeriodicConfig → Option j.Item → PeriodicConfig
    unfolding enabled_setting setting
    periodic_with c none = c
    periodic_with c (some item) =
        if j.object item
        then record c {
          enabled = enabled_setting (j.get_object_item_case_sensitive item "enabled") c.enabled;
          period_ms =
              setting j.valueint (j.get_object_item_case_sensitive item "period_ms") c.period_ms;
        }
        else c

    periodic_member : String → Option j.Item → Option j.Item
    periodic_member key none = none
    periodic_member key (some item) =
        if j.object item then j.get_object_item_case_sensitive item key else none

    unfoldable pub legacy_configure : LegacyState → LegacyState
    unfolding legacy_settings legacy_points legacy_commands points_with items_of periodic_with
        periodic_member
    legacy_configure s =
        let member = λ (key : String).
          periodic_member key (j.get_object_item_case_sensitive json "periodic") in
        record {
          globals = legacy_settings s.globals;
          points = legacy_points s.points;
          m_dp_na_1 = points_with false 0 Quality.invalid s.m_dp_na_1 (items_of "M_DP_NA_1_config");
          m_me_na_1 = points_with true 0 Quality.invalid s.m_me_na_1 (items_of "M_ME_NA_1_config");
          m_me_nb_1 = points_with false 0 Quality.invalid s.m_me_nb_1 (items_of "M_ME_NB_1_config");
          commands = legacy_commands s.commands;
          periodic_m_me_nc_1 = periodic_with s.periodic_m_me_nc_1 (member "M_ME_NC_1");
          periodic_m_sp_tb_1 = periodic_with s.periodic_m_sp_tb_1 (member "M_SP_TB_1");
        }

  unfoldable pub legacy_parse_config : String → LegacyState → Bool × LegacyState
  unfolding legacy_configure
  legacy_parse_config input s = elim (j.parse input) [
    | none ↦ (false, s)
    | some json ↦ (true, legacy_configure json s)
  ]

  -- `file` is the text of the file, if it can be opened; it has no character 0 and is read whole.
  unfoldable pub legacy_init_config : Option String → LegacyState → Bool × LegacyState
  unfolding legacy_parse_config
  legacy_init_config none s = (false, s)
  legacy_init_config (some content) s =
      if len content == 0 || ltb 65536 (len content)
      then (false, s)
      else legacy_parse_config content s

abbrev no_addresses : DynamicIoaConfig
no_addresses = record { ioa_list = none; count = 0 }

abbrev no_points : Points
no_points = record {
  config = no_addresses;
  entries = [];
  last_offline_update = none;
  past_the_array = false;
}

-- Static storage, and the initial values of the settings; the port and the address are not used.
abbrev pub legacy_initial : LegacyState
legacy_initial = record {
  globals = record {
    offline_udt_time = 300;
    deadband_m_me_nc_1_percent = 0;
    asdu = 1;
    command_mode = "direct";
    tcp_port = 0;
    local_ip = "";
  };
  points = record {
    m_sp_tb_1 = no_points;
    m_dp_tb_1 = no_points;
    m_me_td_1 = no_points;
    m_it_tb_1 = record { config = no_addresses; entries = []; past_the_array = false };
    m_sp_na_1 = no_points;
    m_me_nd_1 = no_points;
    m_me_nc_1 = no_points;
  };
  m_dp_na_1 = no_points;
  m_me_na_1 = no_points;
  m_me_nb_1 = no_points;
  commands = record {
    c_sc_na_1 = no_addresses;
    c_dc_na_1 = no_addresses;
    c_se_na_1 = no_addresses;
    c_se_nc_1 = no_addresses;
  };
  periodic_m_me_nc_1 = record { enabled = false; period_ms = 1000; last_sent = 0 };
  periodic_m_sp_tb_1 = record { enabled = false; period_ms = 1000; last_sent = 0 };
}
