-- ===== src/Command/Select.antt =====
-- The select table of json-iec104-server/src/protocol/command_handler.c (the same functions stand
-- in json-iec104-server/json-iec104-server.c). A connection is the number of its pointer; the time
-- that `Hal_getTimeInMs` returns is an argument, and a call returns the table that it leaves. The
-- mutex makes each call one step.
pub mod Store
use iec104_server_and_modbus.Base.{
  ℕ, ◌-◌, Bool, true, false, not, ◌&&◌, List, [], ◌∷◌, replicate, ltb, ◌==◌, if◌then◌else◌, sub_u64,
}

abbrev pub max_select_entries : ℕ
max_select_entries = 100

abbrev pub select_timeout_ms : ℕ
select_timeout_ms = 5000

pub record SelectEntry : Type 0 where
  pub ioa : ℕ
  pub connection : ℕ
  pub timestamp : ℕ
  pub is_selected : Bool

-- Static storage starts as zero bytes.
abbrev pub empty_entry : SelectEntry
empty_entry = record { ioa = 0; connection = 0; timestamp = 0; is_selected = false }

abbrev pub empty_table : List SelectEntry
empty_table = replicate max_select_entries empty_entry

abbrev pub selected : ℕ → ℕ → ℕ → SelectEntry
selected ioa connection now = record {
  ioa = ioa;
  connection = connection;
  timestamp = now;
  is_selected = true;
}

-- The first entry that is free or has the address is overwritten; with none, nothing is.
unfoldable pub store_select_state : ℕ → ℕ → ℕ → List SelectEntry → List SelectEntry
store_select_state ioa connection now [] = []
store_select_state ioa connection now (e ∷ es) =
    let rest = e ∷ store_select_state ioa connection now es in
    if not e.is_selected
    then selected ioa connection now ∷ es
    else if e.ioa == ioa
    then selected ioa connection now ∷ es
    else rest

-- The test of the two loops below.
abbrev pub holds : ℕ → ℕ → SelectEntry → Bool
holds ioa connection e = e.is_selected && (e.ioa == ioa && e.connection == connection)

abbrev pub is_live : ℕ → SelectEntry → Bool
is_live now e = ltb (sub_u64 now e.timestamp) select_timeout_ms

-- The first entry that holds the selection decides; if it is too old, it is freed.
unfoldable pub is_previously_selected : ℕ → ℕ → ℕ → List SelectEntry → Bool × List SelectEntry
is_previously_selected ioa connection now [] = (false, [])
is_previously_selected ioa connection now (e ∷ es) =
    let (found, rest) = is_previously_selected ioa connection now es in
    if holds ioa connection e
    then (if is_live now e then (true, e ∷ es) else (false, record e { is_selected = false } ∷ es))
    else (found, e ∷ rest)

unfoldable pub clear_select_state : ℕ → ℕ → List SelectEntry → List SelectEntry
clear_select_state ioa connection [] = []
clear_select_state ioa connection (e ∷ es) =
    let rest = e ∷ clear_select_state ioa connection es in
    if holds ioa connection e then record e { is_selected = false } ∷ es else rest
