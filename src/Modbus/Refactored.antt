-- ===== src/Modbus/Refactored.antt =====
-- The parts of modbus-server/src that a configuration and a line of input go through:
-- utils/byte_order.c, json/json_command.c and config/config_loader.c.
pub mod ByteOrder
pub mod JsonCommand
pub mod ConfigLoader
pub mod Agrees
pub mod SameConfig
