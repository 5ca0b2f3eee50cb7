-- ===== src/Iec/Quality.antt =====
-- The quality bits of cs101_information_objects.h.
use iec104_server_and_modbus.Base.{ℕ}

abbrev pub good : ℕ
good = 0x00

abbrev pub overflow : ℕ
overflow = 0x01

abbrev pub reserved : ℕ
reserved = 0x04

abbrev pub elapsed_time_invalid : ℕ
elapsed_time_invalid = 0x08

abbrev pub blocked : ℕ
blocked = 0x10

abbrev pub substituted : ℕ
substituted = 0x20

abbrev pub non_topical : ℕ
non_topical = 0x40

abbrev pub invalid : ℕ
invalid = 0x80
