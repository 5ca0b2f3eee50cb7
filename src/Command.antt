-- ===== src/Command.antt =====
-- json-iec104-server/src/protocol/command_handler.c: single commands, set points and the reset of
-- the process, with the table of selected addresses in `Command.Select`.
pub mod Select
pub mod Handler
pub mod Sbo
pub mod History
