-- ===== src/Legacy/Start.antt =====
-- The arrays that `parse_config_from_json` of json-iec104-server/json-iec104-server.c allocates.
use iec104_server_and_modbus.Base.{
  ℕ, zero, suc, ◌≡◌, refl, ap, String, Bool, true, false, Option, none, some, List, [], ◌∷◌, length,
  length-replicate, if_intro, ◌||◌, ◌==◌, ltb, len,
}
use iec104_server_and_modbus.Cfloat.{FloatUnit}
use iec104_server_and_modbus.Cjson.{Cjson}
use iec104_server_and_modbus.Interrogation.Encoder.{Encoder}
use iec104_server_and_modbus.Legacy.Points.{Points, Counters}
use iec104_server_and_modbus.Legacy.Server.{LegacyData, LegacySurroundings, Conversions}
use iec104_server_and_modbus.Legacy.Loop.{run_server_loop}
use iec104_server_and_modbus.Legacy.Sound.{PointsInside, CountersInside, IsInside, TimesFit}
use iec104_server_and_modbus.Legacy.Sound.Updates.{run_server_loop-IsInside}
use iec104_server_and_modbus.Legacy.Config.{
  LegacyState, Memory, fill_ioas, points_with, counters_from, counters_with, legacy_points,
  legacy_parse_config, legacy_init_config, legacy_initial,
}

no_times : (n k : ℕ) (times : Option (List ℕ)) → TimesFit false n times → TimesFit false k times
no_times n k none h = tt
no_times n k (some times) h = absurd h

module _ (f : FloatUnit) (j : Cjson) (m : Memory) where
  length-fill_ioas : (i : ℕ) (items : List j.Item) → length (fill_ioas f j m i items) ≡ length items
  unfolding fill_ioas
  length-fill_ioas i [] = refl
  length-fill_ioas i (item ∷ items) = ap suc (length-fill_ioas (suc i) items)

  length-counters_from : (i n : ℕ) → length (counters_from f j m i n) ≡ n
  unfolding counters_from
  length-counters_from i zero = refl
  length-counters_from i (suc n) = ap suc (length-counters_from (suc i) n)

  points_with-PointsInside :
      (timed : Bool) (v q : ℕ) (p : Points) (items : Option (List j.Item))
      → PointsInside timed p
      → PointsInside timed (points_with f j m timed v q p items)
  unfolding points_with
  points_with-PointsInside timed v q p none h = h
  points_with-PointsInside true v q p (some items) h = record {
    fit = record {
      addresses = length-fill_ioas 0 items;
      values = length-replicate (length items) _;
      times = length-replicate (length items) 0;
    };
    inside = h.inside;
  }
  points_with-PointsInside false v q p (some items) h = record {
    fit = record {
      addresses = length-fill_ioas 0 items;
      values = length-replicate (length items) _;
      times = no_times p.config.count (length items) p.last_offline_update h.fit.times;
    };
    inside = h.inside;
  }

  counters_with-CountersInside :
      (c : Counters) (items : Option (List j.Item))
      → CountersInside c
      → CountersInside (counters_with f j m c items)
  unfolding counters_with
  counters_with-CountersInside c none h = h
  counters_with-CountersInside c (some items) h = record {
    fit = record {
      addresses = length-fill_ioas 0 items;
      values = length-counters_from 0 (length items);
    };
    inside = h.inside;
  }

  legacy_points-IsInside :
      (json : j.Item) (s : LegacyData) → IsInside s → IsInside (legacy_points f j m json s)
  unfolding legacy_points
  legacy_points-IsInside json s h = (
    points_with-PointsInside true _ _ s.m_sp_tb_1 _ h.0,
    points_with-PointsInside true _ _ s.m_dp_tb_1 _ h.1,
    points_with-PointsInside false _ _ s.m_me_td_1 _ h.2,
    counters_with-CountersInside s.m_it_tb_1 _ h.3,
    points_with-PointsInside true _ _ s.m_sp_na_1 _ h.4,
    points_with-PointsInside false _ _ s.m_me_nd_1 _ h.5,
    points_with-PointsInside true _ _ s.m_me_nc_1 _ h.6,
  )

  legacy_parse_config-IsInside :
      (input : String) (s : LegacyState)
      → IsInside s.points
      → IsInside (legacy_parse_config f j m input s).1.points
  unfolding legacy_parse_config
  legacy_parse_config-IsInside input s h = go (j.parse input) refl
    where
      go :
          (parsed : Option j.Item)
          → j.parse input ≡ parsed
          → IsInside (legacy_parse_config f j m input s).1.points
      go none e = rw (e, legacy_parse_config) h
      go (some json) e = rw (e, legacy_parse_config) (legacy_points-IsInside json s.points h)

  legacy_init_config-IsInside :
      (file : Option String) (s : LegacyState)
      → IsInside s.points
      → IsInside (legacy_init_config f j m file s).1.points
  unfolding legacy_init_config
  legacy_init_config-IsInside none s h = h
  legacy_init_config-IsInside (some content) s h =
      if_intro (λ (r : Bool × LegacyState). IsInside r.1.points)
        (len content == 0 || ltb 65536 (len content)) _ _ h
        (legacy_parse_config-IsInside content s h)

  -- Whatever file the server starts from, and whatever lines it reads then, every type that lines
  -- can update has as many addresses and values as it counts; if it has an array of times, it is one
  -- of the types with such an array, which has an entry for each point; and no update on the way
  -- accessed a value, a counter or a time past the end of its array, also in the functions that do
  -- not test the index.
  pub legacy_server-IsInside :
      (enc : Encoder) (k : Conversions) (file : Option String)
      (rounds : List (LegacySurroundings × Option String))
      → let s = (legacy_init_config f j m file legacy_initial).1 in
        IsInside (run_server_loop k j f s.globals enc rounds s.points).1
  legacy_server-IsInside enc k file rounds =
      let s = (legacy_init_config f j m file legacy_initial).1 in
      run_server_loop-IsInside k j f s.globals enc rounds s.points
        (legacy_init_config-IsInside file legacy_initial initial_sound)
    where
      empty : (timed : Bool) → PointsInside timed legacy_initial.points.m_sp_tb_1
      empty timed = record {
        fit = record { addresses = refl; values = refl; times = tt };
        inside = refl;
      }

      no_counters : CountersInside legacy_initial.points.m_it_tb_1
      no_counters = record { fit = record { addresses = refl; values = refl }; inside = refl }

      initial_sound : IsInside legacy_initial.points
      initial_sound =
          (empty true, empty true, empty false, no_counters, empty true, empty false, empty true)
