-- ===== src/Input.antt =====
-- json-iec104-server/src/input/input_handler.c: the lines of standard input.
pub mod Convert
pub mod Tracking
pub mod Line
pub mod Cases
pub mod Queue
pub mod Stamps
pub mod Apart
pub mod Stop
pub mod Unchanged
