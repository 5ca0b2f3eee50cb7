-- ===== src/Modbus.antt =====
-- The Modbus server: modbus-server/json-modbus-server.c, the server in a single file, and
-- modbus-server/src, its successor in parts.
pub mod Text
pub mod Registers
pub mod Settings
pub mod Command
pub mod Values
pub mod Update
pub mod Clamped
pub mod Clients
pub mod Sockets
pub mod Server
pub mod Session
pub mod Invariant
pub mod Refactored
