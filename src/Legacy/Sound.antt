-- ===== src/Legacy/Sound.antt =====
-- The arrays of a type in json-iec104-server/json-iec104-server.c have as many entries as it counts,
-- and updates stay inside them.
pub mod Updates
use iec104_server_and_modbus.Base.{
  ℕ, ◌<◌, ◌||◌, ◌≡◌, refl, arith, get_elem?-some, Bool-cases, inl, inr, ◌∙◌, String, Bool, true,
  false, Option, none, some, List, [], ◌∷◌, length, set, length-set, get_elem?, ltb, leb, sub_u64,
  if_intro, ◌==◌, ◌&&◌,
}
use iec104_server_and_modbus.Cfloat.{FloatUnit}
use iec104_server_and_modbus.Cjson.{Cjson}
use iec104_server_and_modbus.Globals.{Globals}
use iec104_server_and_modbus.Data.Manager
use iec104_server_and_modbus.Iec.{BinaryCounterReading}
use iec104_server_and_modbus.Iec.TypeId
use iec104_server_and_modbus.Data.Manager.{DynamicIoaConfig, find_ioa_index}
use iec104_server_and_modbus.Interrogation.Encoder.{Encoder}
use iec104_server_and_modbus.Legacy.Points.{
  Entry, Points, Counters, Output, legacy_window, legacy_allow_offline_update, report, update_point,
  update_checked, update_m_it_tb_1_data,
}
use iec104_server_and_modbus.Legacy.Server.{
  LegacyData, LegacySurroundings, Conversions, at_index, counter_at, process_m_sp_tb_1,
  process_m_dp_tb_1, process_m_me_td_1, process_m_it_tb_1, process_m_sp_na_1, process_m_me_nd_1,
  process_m_me_nc_1, process_data_update,
}
use iec104_server_and_modbus.Legacy.Loop.{
  LegacyInput, is_zero, take_input, process_json_input, read_round, run_server_loop,
}

-- An array of times belongs to the types with one, and has an entry for each point.
abbrev pub TimesFit : Bool → ℕ → Option (List ℕ) → Type 0
TimesFit timed n none = Unit {0}
TimesFit true n (some times) = length times ≡ n
TimesFit false n (some times) = ⊥

pub record HasPoints (timed : Bool) (p : Points) : Type 0 where
  pub addresses : length (Manager.entries p.config.ioa_list) ≡ p.config.count
  pub values : length p.entries ≡ p.config.count
  pub times : TimesFit timed p.config.count p.last_offline_update

pub record HasCounters (c : Counters) : Type 0 where
  pub addresses : length (Manager.entries c.config.ioa_list) ≡ c.config.count
  pub values : length c.entries ≡ c.config.count

abbrev pub IsSound : LegacyData → Type 0
IsSound s =
    HasPoints true s.m_sp_tb_1
    × HasPoints true s.m_dp_tb_1
    × HasPoints false s.m_me_td_1
    × HasCounters s.m_it_tb_1
    × HasPoints true s.m_sp_na_1
    × HasPoints false s.m_me_nd_1
    × HasPoints true s.m_me_nc_1

-- The arrays of a type fit, and no access of it went past them.
pub record PointsInside (timed : Bool) (p : Points) : Type 0 where
  pub fit : HasPoints timed p
  pub inside : p.past_the_array ≡ false

pub record CountersInside (c : Counters) : Type 0 where
  pub fit : HasCounters c
  pub inside : c.past_the_array ≡ false

abbrev pub IsInside : LegacyData → Type 0
IsInside s =
    PointsInside true s.m_sp_tb_1
    × PointsInside true s.m_dp_tb_1
    × PointsInside false s.m_me_td_1
    × CountersInside s.m_it_tb_1
    × PointsInside true s.m_sp_na_1
    × PointsInside false s.m_me_nd_1
    × PointsInside true s.m_me_nc_1

legacy_allow_offline_update-fits :
    (g : Globals) (now idx n : ℕ) (timed : Bool) (times : Option (List ℕ))
    → idx < n
    → TimesFit timed n times
    → TimesFit timed n (legacy_allow_offline_update g now times idx).1
      × ((legacy_allow_offline_update g now times idx).2 ≡ false)
unfolding legacy_allow_offline_update
legacy_allow_offline_update-fits g now idx n timed none small h = (h, refl)
legacy_allow_offline_update-fits g now idx n false (some times) small h = absurd h
legacy_allow_offline_update-fits g now idx n true (some times) small h =
    let (last, e) = get_elem?-some times idx (omega (arith, h)) in
    rw (e, legacy_allow_offline_update)
      (if_intro (λ (r : Bool × Option (List ℕ) × Bool). TimesFit true n r.1 × (r.2 ≡ false))
        (leb (legacy_window g.offline_udt_time) (sub_u64 now last)) _ _
        (length-set times idx now ∙ h, refl) (h, refl))

or_false : {a b : Bool} → a ≡ false → b ≡ false → a || b ≡ false
or_false p q = ground arith

module _ (g : Globals) (connected : Bool) (now : ℕ) (timed : Bool) where
  report-PointsInside :
      (p : Points) (idx : ℕ) (changed : Bool)
      → idx < p.config.count
      → PointsInside timed p
      → PointsInside timed (report g connected now p idx changed).0
  unfolding report
  report-PointsInside p idx changed small h =
      if_intro (λ (r : Points × Bool). PointsInside timed r.0) changed _ _
        (if_intro (λ (r : Points × Bool). PointsInside timed r.0) connected _ _ h
          (record {
            fit = record { addresses = h.fit.addresses; values = h.fit.values; times = fits.0 };
            inside = or_false h.inside fits.1;
          }))
        h
    where
      fits :
          TimesFit timed p.config.count
            (legacy_allow_offline_update g now p.last_offline_update idx).1
          × ((legacy_allow_offline_update g now p.last_offline_update idx).2 ≡ false)
      fits =
          legacy_allow_offline_update-fits g now idx p.config.count timed p.last_offline_update
            small h.fit.times

  pub update_point-PointsInside :
      (change : Entry → Entry × Bool) (p : Points) (idx : ℕ)
      → idx < p.config.count
      → PointsInside timed p
      → PointsInside timed (update_point g connected now change p idx).0
  unfolding update_point
  update_point-PointsInside change p idx small h =
      let (old, e) = get_elem?-some p.entries idx (omega (arith, h.fit.values)) in
      rw (e, update_point)
        (report-PointsInside (record p { entries = set p.entries idx (change old).0 }) idx
          (change old).1 small
          (record {
            fit = record {
              addresses = h.fit.addresses;
              values = length-set p.entries idx (change old).0 ∙ h.fit.values;
              times = h.fit.times;
            };
            inside = h.inside;
          }))

  pub update_checked-PointsInside :
      (t : ℕ) (change : Entry → Entry × Bool) (p : Points) (idx : ℕ)
      → PointsInside timed p
      → PointsInside timed (update_checked g connected now t change p idx).0.0
  unfolding update_checked
  update_checked-PointsInside t change p idx h = elim (Bool-cases (ltb idx p.config.count)) [
    | inl small ↦ rw small (update_point-PointsInside change p idx (ground arith) h)
    | inr large ↦ rw large h
  ]
