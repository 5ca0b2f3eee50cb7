-- ===== src/Tests.antt =====
-- Concrete runs of the development: the theorems applied to small configurations.
mod Fixtures
mod Documents
mod Data
mod Command
mod Client
mod Interrogation
mod Sequence
mod Input
mod Config
mod Legacy
mod LegacyServer
mod LegacyState
mod Server
mod ModbusDocuments
mod Modbus
