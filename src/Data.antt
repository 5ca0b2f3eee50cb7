-- ===== src/Data.antt =====
-- The data points: json-iec104-server/src/data.
pub mod Types
pub mod Manager
