-- ===== src/Legacy/Points.antt =====
-- The points of json-iec104-server/json-iec104-server.c and their `update_..._data` functions. A
-- point is the struct of its type: the value as a pattern of its bytes, and the qualifier. The clock
-- and `IsClientConnected` are read by a call, so their results are arguments.
use iec104_server_and_modbus.Base.{
  ℕ, ◌+◌, ◌-◌, ◌*◌, ◌%◌, ◌^◌, Bool, true, false, not, ◌&&◌, ◌||◌, Option, none, some, List, [], ◌∷◌,
  get_elem?, set, ltb, leb, ◌==◌, if◌then◌else◌, sub_u64,
}
use iec104_server_and_modbus.Cfloat.{FloatUnit, float_zero, float_hundred}
use iec104_server_and_modbus.Globals.{Globals}
use iec104_server_and_modbus.Iec.TypeId
use iec104_server_and_modbus.Iec.{Asdu, BinaryCounterReading}
use iec104_server_and_modbus.Data.Manager.{DynamicIoaConfig}

pub record Entry : Type 0 where
  pub value : ℕ
  pub qualifier : ℕ

-- The globals of a type: its addresses, its points, and the times of their last offline updates.
-- `past_the_array` is none of the program's: it is set by the first access of an update past the
-- end of an array, and stays set.
pub record Points : Type 0 where
  pub config : DynamicIoaConfig
  pub entries : List Entry
  pub last_offline_update : Option (List ℕ)
  pub past_the_array : Bool

pub record Counters : Type 0 where
  pub config : DynamicIoaConfig
  pub entries : List BinaryCounterReading
  pub past_the_array : Bool

-- What the server prints, and the ASDUs that it puts into the queue.
pub data Output : Type 0 where
  out_of_range not_configured : ℕ → ℕ → Output
  unknown_type client_not_connected : Output
  invalid_json invalid_type invalid_value invalid_address invalid_qualifier : Output
  no_input shutdown : Output
  enqueued : Asdu → Output

-- FLOAT_EPSILON: 1e-6f
abbrev pub legacy_epsilon : ℕ
legacy_epsilon = 0x3586_37bd

-- `(uint64_t)offline_udt_time * 1000`, of the pattern of an `int`.
abbrev pub legacy_window : ℕ → ℕ
legacy_window t = ((if ltb t (2 ^ 31) then t else t + (2 ^ 64 - 2 ^ 32)) * 1000) % 2 ^ 64

-- The result, the times after the call, and whether it read past them.
unfoldable pub legacy_allow_offline_update :
    Globals → ℕ → Option (List ℕ) → ℕ → Bool × Option (List ℕ) × Bool
legacy_allow_offline_update g now none idx = (true, none, false)
legacy_allow_offline_update g now (some times) idx = elim (get_elem? times idx) [
  | none ↦ (false, some times, true)
  | some last ↦
      if leb (legacy_window g.offline_udt_time) (sub_u64 now last)
      then (true, some (set times idx now), false)
      else (false, some times, false)
]

-- An assignment of the value under a test, and of a qualifier that differs; `true` is `changed`.
unfoldable pub take_value : Bool → ℕ → Entry → Entry × Bool
take_value differs v e = if differs then (record e { value = v }, true) else (e, false)

unfoldable pub assign_qualifier : ℕ → Entry × Bool → Entry × Bool
assign_qualifier q (e, changed) =
    if e.qualifier == q then (e, changed) else (record e { qualifier = q % 256 }, true)

-- The change of a point for each type. The numbers that are compared are patterns of one type, but
-- for M_SP_NA_1, whose `bool` is compared to a `uint32_t`, and the `int16_t` of M_ME_NA_1 and
-- M_ME_NB_1, which is converted to a `uint32_t`.
unfoldable pub change_number : ℕ → ℕ → Entry → Entry × Bool
unfolding take_value assign_qualifier
change_number v q e = assign_qualifier q (take_value (not (e.value == v)) v e)

unfoldable pub change_bool : ℕ → ℕ → Entry → Entry × Bool
unfolding take_value assign_qualifier
change_bool v q e = assign_qualifier q (take_value (not (e.value == v)) (if v == 0 then 0 else 1) e)

unfoldable pub change_int16 : ℕ → ℕ → Entry → Entry × Bool
unfolding take_value assign_qualifier
change_int16 v q e =
    let old = if ltb e.value (2 ^ 15) then e.value else e.value + (2 ^ 32 - 2 ^ 16) in
    assign_qualifier q (take_value (not (old == v)) (v % 2 ^ 16) e)

module _ (f : FloatUnit) where
  open f use {fabsf, sub, mul, div, lt, le}

  -- `!=` of floats.
  abbrev pub float_ne : ℕ → ℕ → Bool
  float_ne a b = not (le a b && le b a)

  unfoldable pub change_float : ℕ → ℕ → Entry → Entry × Bool
  unfolding take_value assign_qualifier
  change_float v q e = assign_qualifier q (take_value (float_ne e.value v) v e)

  -- M_ME_NC_1, with its deadband.
  unfoldable pub exceeds_deadband : Globals → ℕ → ℕ → Bool
  exceeds_deadband g old v =
      let diff = fabsf (sub old v) in
      let percent =
        if lt legacy_epsilon (fabsf old)
        then mul (div diff (fabsf old)) float_hundred
        else if lt legacy_epsilon diff
        then float_hundred
        else float_zero in
      le g.deadband_m_me_nc_1_percent percent && lt legacy_epsilon diff

  unfoldable pub change_short : Globals → ℕ → ℕ → Entry → Entry × Bool
  unfolding take_value assign_qualifier exceeds_deadband
  change_short g v q e = assign_qualifier q (take_value (exceeds_deadband g e.value v) v e)

-- After the change: whether it is reported, and the points with the new times.
module _ (g : Globals) (connected : Bool) (now : ℕ) where
  unfoldable pub report : Points → ℕ → Bool → Points × Bool
  unfolding legacy_allow_offline_update
  report p idx changed =
      if changed
      then (if connected
          then (p, true)
          else (let r = legacy_allow_offline_update g now p.last_offline_update idx in
              (
                record p { last_offline_update = r.1; past_the_array = p.past_the_array || r.2 },
                r.0,
              )))
      else (p, false)

  -- The update of the point at an index.
  unfoldable pub update_point : (Entry → Entry × Bool) → Points → ℕ → Points × Bool
  unfolding report
  update_point change p idx = elim (get_elem? p.entries idx) [
    | none ↦ (record p { past_the_array = true }, false)
    | some e ↦ report (record p { entries = set p.entries idx (change e).0 }) idx (change e).1
  ]

  -- The functions that test the index first.
  unfoldable pub update_checked :
      ℕ → (Entry → Entry × Bool) → Points → ℕ → (Points × Bool) × List Output
  unfolding update_point
  update_checked type_id change p idx =
      if ltb idx p.config.count
      then (update_point change p idx, [])
      else ((p, false), out_of_range type_id idx ∷ [])

  unfoldable pub update_m_sp_tb_1_data : Points → ℕ → ℕ → ℕ → (Points × Bool) × List Output
  unfolding update_checked change_number
  update_m_sp_tb_1_data p idx v q = update_checked TypeId.m_sp_tb_1 (change_number v q) p idx

  unfoldable pub update_m_dp_tb_1_data : Points → ℕ → ℕ → ℕ → (Points × Bool) × List Output
  unfolding update_checked change_number
  update_m_dp_tb_1_data p idx v q = update_checked TypeId.m_dp_tb_1 (change_number v q) p idx

  unfoldable pub update_m_me_td_1_data :
      FloatUnit → Points → ℕ → ℕ → ℕ → (Points × Bool) × List Output
  unfolding update_checked change_float
  update_m_me_td_1_data f p idx v q = update_checked TypeId.m_me_td_1 (change_float f v q) p idx

  unfoldable pub update_m_sp_na_1_data : Points → ℕ → ℕ → ℕ → (Points × Bool) × List Output
  unfolding update_point change_bool
  update_m_sp_na_1_data p idx v q = (update_point (change_bool v q) p idx, [])

  update_m_dp_na_1_data : Points → ℕ → ℕ → ℕ → (Points × Bool) × List Output
  unfolding update_point change_number
  update_m_dp_na_1_data p idx v q = (update_point (change_number v q) p idx, [])

  update_m_me_na_1_data : Points → ℕ → ℕ → ℕ → (Points × Bool) × List Output
  unfolding update_checked change_int16
  update_m_me_na_1_data p idx v q = update_checked TypeId.m_me_na_1 (change_int16 v q) p idx

  update_m_me_nb_1_data : Points → ℕ → ℕ → ℕ → (Points × Bool) × List Output
  unfolding update_checked change_int16
  update_m_me_nb_1_data p idx v q = update_checked TypeId.m_me_nb_1 (change_int16 v q) p idx

  unfoldable pub update_m_me_nc_1_data :
      FloatUnit → Points → ℕ → ℕ → ℕ → (Points × Bool) × List Output
  unfolding update_checked change_short
  update_m_me_nc_1_data f p idx v q = update_checked TypeId.m_me_nc_1 (change_short f g v q) p idx

  unfoldable pub update_m_me_nd_1_data : Points → ℕ → ℕ → (Points × Bool) × List Output
  unfolding update_checked take_value
  update_m_me_nd_1_data p idx v =
      update_checked TypeId.m_me_nd_1 (λ e. take_value (not (e.value == v)) v e) p idx

-- `set_value` is `BinaryCounterReading_setValue`.
unfoldable pub update_m_it_tb_1_data :
    (BinaryCounterReading → ℕ → BinaryCounterReading) → Counters → ℕ → ℕ → Counters × List Output
update_m_it_tb_1_data set_value c idx v =
    if ltb idx c.config.count
    then elim (get_elem? c.entries idx) [
      | none ↦ (record c { past_the_array = true }, [])
      | some b ↦ (record c { entries = set c.entries idx (set_value b v) }, [])
    ]
    else (c, out_of_range TypeId.m_it_tb_1 idx ∷ [])
