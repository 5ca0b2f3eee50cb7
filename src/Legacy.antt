-- ===== src/Legacy.antt =====
-- json-iec104-server/json-iec104-server.c, the server in a single file that the Makefile builds.
pub mod Interrogation
pub mod Loss
pub mod Complete
pub mod Station
pub mod Command
pub mod Points
pub mod Server
pub mod Loop
pub mod Reports
pub mod Ends
pub mod Config
pub mod Sound
pub mod Start
pub mod Background
pub mod Periodic
pub mod Reset
