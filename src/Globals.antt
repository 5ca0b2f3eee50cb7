-- ===== src/Globals.antt =====
-- The configuration globals of json-iec104-server/src/main.c.
use iec104_server_and_modbus.Base.{ℕ, String}

-- `tcp_port` and `asdu` are patterns of an `int`, `deadband_m_me_nc_1_percent` of a `float`.
pub record Globals : Type 0 where
  pub offline_udt_time : ℕ
  pub deadband_m_me_nc_1_percent : ℕ
  pub asdu : ℕ
  pub command_mode : String
  pub tcp_port : ℕ
  pub local_ip : String

abbrev pub initial_globals : Globals
initial_globals = record {
  offline_udt_time = 0;
  deadband_m_me_nc_1_percent = 0;
  asdu = 1;
  command_mode = "direct";
  tcp_port = 2404;
  local_ip = "0.0.0.0";
}
