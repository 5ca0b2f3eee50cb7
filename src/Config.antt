-- ===== src/Config.antt =====
-- json-iec104-server/src/config/config_parser.c: the configuration.
pub mod Parser
pub mod TypeConfig
pub mod Start
pub mod Addresses
