-- ===== src/Legacy/Sound/Updates.antt =====
-- The updates and the loop of json-iec104-server/json-iec104-server.c keep the lengths of the arrays
-- and stay inside them.
use iec104_server_and_modbus.Base.{
  ℕ, ◌≡◌, refl, arith, get_elem?-some, Bool-cases, inl, inr, ◌∙◌, String, Bool, true, false, Option,
  none, some, List, [], ◌∷◌, length-set, ltb, if_intro, ◌==◌, ◌&&◌,
}
use iec104_server_and_modbus.Cfloat.{FloatUnit}
use iec104_server_and_modbus.Cjson.{Cjson}
use iec104_server_and_modbus.Globals.{Globals}
use iec104_server_and_modbus.Iec.{BinaryCounterReading}
use iec104_server_and_modbus.Iec.TypeId
use iec104_server_and_modbus.Data.Manager.{find_ioa_index}
use iec104_server_and_modbus.Data.Manager.Find.{find_ioa_index-lt}
use iec104_server_and_modbus.Interrogation.Encoder.{Encoder}
use iec104_server_and_modbus.Legacy.Points.{Points, Counters, Output, update_m_it_tb_1_data}
use iec104_server_and_modbus.Legacy.Server.{
  LegacyData, LegacySurroundings, Conversions, at_index, counter_at, process_m_sp_tb_1,
  process_m_dp_tb_1, process_m_me_td_1, process_m_it_tb_1, process_m_sp_na_1, process_m_me_nd_1,
  process_m_me_nc_1, process_data_update,
}
use iec104_server_and_modbus.Legacy.Loop.{
  LegacyInput, is_zero, take_input, process_json_input, read_round, run_server_loop,
}
use iec104_server_and_modbus.Legacy.Sound.{
  PointsInside, CountersInside, IsInside, update_point-PointsInside, update_checked-PointsInside,
}

at_index-PointsInside :
    (timed : Bool) (t a : ℕ) (p : Points) (update : ℕ → Points × List Output) (found : Option ℕ)
    → PointsInside timed p
    → ((i : ℕ) → found ≡ some i → PointsInside timed (update i).0)
    → PointsInside timed (at_index t a p update found).0
unfolding at_index
at_index-PointsInside timed t a p update none h k = h
at_index-PointsInside timed t a p update (some i) h k = k i refl

counter_at-CountersInside :
    (t a : ℕ) (c : Counters) (update : ℕ → Counters × List Output) (found : Option ℕ)
    → CountersInside c
    → ((i : ℕ) → found ≡ some i → CountersInside (update i).0)
    → CountersInside (counter_at t a c update found).0
unfolding counter_at
counter_at-CountersInside t a c update none h k = h
counter_at-CountersInside t a c update (some i) h k = k i refl

update_m_it_tb_1_data-CountersInside :
    (set_value : BinaryCounterReading → ℕ → BinaryCounterReading) (c : Counters) (i v : ℕ)
    → CountersInside c
    → CountersInside (update_m_it_tb_1_data set_value c i v).0
unfolding update_m_it_tb_1_data
update_m_it_tb_1_data-CountersInside set_value c i v h = elim (Bool-cases (ltb i c.config.count)) [
  | inr large ↦ rw large h
  | inl small ↦
      let (b, e) = get_elem?-some c.entries i (ground (arith, h.fit.values)) in
      rw (small, e)
        (record {
          fit = record {
            addresses = h.fit.addresses;
            values = length-set c.entries i (set_value b v) ∙ h.fit.values;
          };
          inside = h.inside;
        })
]

module _ (f : FloatUnit) (g : Globals) (enc : Encoder) (k : Conversions) (env : LegacySurroundings)
    (v ioa q : ℕ) where
  process_m_sp_tb_1-PointsInside :
      (p : Points)
      → PointsInside true p
      → PointsInside true (process_m_sp_tb_1 f g enc k env v ioa q p).0
  unfolding process_m_sp_tb_1
  process_m_sp_tb_1-PointsInside p h =
      at_index-PointsInside true TypeId.m_sp_tb_1 ioa p _ (find_ioa_index p.config ioa) h
        (λ i found.
          update_checked-PointsInside g env.connected env.now true TypeId.m_sp_tb_1 _ p i h)

  process_m_dp_tb_1-PointsInside :
      (p : Points)
      → PointsInside true p
      → PointsInside true (process_m_dp_tb_1 f g enc k env v ioa q p).0
  unfolding process_m_dp_tb_1
  process_m_dp_tb_1-PointsInside p h =
      at_index-PointsInside true TypeId.m_dp_tb_1 ioa p _ (find_ioa_index p.config ioa) h
        (λ i found.
          update_checked-PointsInside g env.connected env.now true TypeId.m_dp_tb_1 _ p i h)

  process_m_me_td_1-PointsInside :
      (p : Points)
      → PointsInside false p
      → PointsInside false (process_m_me_td_1 f g enc k env v ioa q p).0
  unfolding process_m_me_td_1
  process_m_me_td_1-PointsInside p h =
      at_index-PointsInside false TypeId.m_me_td_1 ioa p _ (find_ioa_index p.config ioa) h
        (λ i found.
          update_checked-PointsInside g env.connected env.now false TypeId.m_me_td_1 _ p i h)

  process_m_sp_na_1-PointsInside :
      (p : Points)
      → PointsInside true p
      → PointsInside true (process_m_sp_na_1 f g enc k env v ioa q p).0
  unfolding process_m_sp_na_1
  process_m_sp_na_1-PointsInside p h =
      at_index-PointsInside true TypeId.m_sp_na_1 ioa p _ (find_ioa_index p.config ioa) h
        (λ i found.
          update_point-PointsInside g env.connected env.now true _ p i
            (find_ioa_index-lt p.config ioa i found) h)

  process_m_me_nd_1-PointsInside :
      (p : Points)
      → PointsInside false p
      → PointsInside false (process_m_me_nd_1 f g enc k env v ioa q p).0
  unfolding process_m_me_nd_1
  process_m_me_nd_1-PointsInside p h =
      at_index-PointsInside false TypeId.m_me_nd_1 ioa p _ (find_ioa_index p.config ioa) h
        (λ i found.
          update_checked-PointsInside g env.connected env.now false TypeId.m_me_nd_1 _ p i h)

  process_m_me_nc_1-PointsInside :
      (p : Points)
      → PointsInside true p
      → PointsInside true (process_m_me_nc_1 f g enc k env v ioa q p).0
  unfolding process_m_me_nc_1
  process_m_me_nc_1-PointsInside p h =
      at_index-PointsInside true TypeId.m_me_nc_1 ioa p _ (find_ioa_index p.config ioa) h
        (λ i found.
          update_checked-PointsInside g env.connected env.now true TypeId.m_me_nc_1 _ p i h)

  process_m_it_tb_1-CountersInside :
      (c : Counters)
      → CountersInside c
      → CountersInside (process_m_it_tb_1 f g enc k env v ioa q c).0
  unfolding process_m_it_tb_1
  process_m_it_tb_1-CountersInside c h =
      counter_at-CountersInside TypeId.m_it_tb_1 ioa c _ (find_ioa_index c.config ioa) h
        (λ i found. update_m_it_tb_1_data-CountersInside k.set_value c i _ h)

  abbrev Sound : LegacyData × List Output → Type 0
  Sound r = IsInside r.0

  process_data_update-IsInside :
      (t : ℕ) (s : LegacyData)
      → IsInside s
      → IsInside (process_data_update f g enc k env v ioa q t s).0
  unfolding process_data_update
  process_data_update-IsInside t s h =
      if_intro Sound (t == TypeId.m_sp_tb_1) _ _
        (process_m_sp_tb_1-PointsInside s.m_sp_tb_1 h.0, h.1, h.2, h.3, h.4, h.5, h.6)
        (if_intro Sound (t == TypeId.m_dp_tb_1) _ _
          (h.0, process_m_dp_tb_1-PointsInside s.m_dp_tb_1 h.1, h.2, h.3, h.4, h.5, h.6)
          (if_intro Sound (t == TypeId.m_me_td_1) _ _
            (h.0, h.1, process_m_me_td_1-PointsInside s.m_me_td_1 h.2, h.3, h.4, h.5, h.6)
            (if_intro Sound (t == TypeId.m_it_tb_1) _ _
              (h.0, h.1, h.2, process_m_it_tb_1-CountersInside s.m_it_tb_1 h.3, h.4, h.5, h.6)
              (if_intro Sound (t == TypeId.m_sp_na_1) _ _
                (h.0, h.1, h.2, h.3, process_m_sp_na_1-PointsInside s.m_sp_na_1 h.4, h.5, h.6)
                (if_intro Sound (t == TypeId.m_me_nd_1) _ _
                  (h.0, h.1, h.2, h.3, h.4, process_m_me_nd_1-PointsInside s.m_me_nd_1 h.5, h.6)
                  (if_intro Sound (t == TypeId.m_me_nc_1) _ _
                    (h.0, h.1, h.2, h.3, h.4, h.5, process_m_me_nc_1-PointsInside s.m_me_nc_1 h.6)
                    h))))))

module _ (k : Conversions) (j : Cjson) (f : FloatUnit) (g : Globals) (enc : Encoder) where
  take_input-IsInside :
      (env : LegacySurroundings) (input : Option LegacyInput) (s : LegacyData)
      → IsInside s
      → IsInside (take_input k j f g enc env input s).1
  unfolding take_input
  take_input-IsInside env none s h = h
  take_input-IsInside env (some input) s h =
      if_intro (λ (r : Bool × LegacyData × List Output). IsInside r.1)
        (input.type_id == 0 && is_zero input.value) _ _ h
        (process_data_update-IsInside f g enc k env input.value input.address input.qualifier
          input.type_id s h)

  read_round-IsInside :
      (env : LegacySurroundings) (line : Option String) (s : LegacyData)
      → IsInside s
      → IsInside (read_round k j f g enc env line s).1
  unfolding read_round
  read_round-IsInside env none s h = h
  read_round-IsInside env (some line) s h =
      take_input-IsInside env (process_json_input k j line).0 s h

  pub run_server_loop-IsInside :
      (rounds : List (LegacySurroundings × Option String)) (s : LegacyData)
      → IsInside s
      → IsInside (run_server_loop k j f g enc rounds s).1
  unfolding run_server_loop
  run_server_loop-IsInside [] s h = h
  run_server_loop-IsInside ((env, line) ∷ rounds) s h =
      let r = read_round k j f g enc env line s in
      let next = read_round-IsInside env line s h in
      if_intro (λ (q : Bool × LegacyData × List Output). IsInside q.1) r.0 _ _
        (run_server_loop-IsInside rounds r.1 next) next
