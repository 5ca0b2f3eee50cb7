-- ===== src/Interrogation.antt =====
-- json-iec104-server/src/protocol/interrogation.c: the answer to an interrogation of the station.
pub mod Objects
pub mod Encoder
pub mod Blocks
pub mod Chunks
pub mod Fits
pub mod Complete
pub mod Station
pub mod Limit
