-- ===== src/Legacy/Reset.antt =====
-- The reset of json-iec104-server/json-iec104-server.c: what it leaves, and how it answers.
use iec104_server_and_modbus.Base.{
  ℕ, zero, suc, ◌<◌, ◌≤◌, ◌≡◌, ◌≢◌, ◌⊎◌, inl, inr, refl, ap, ◌∙◌, some, List, [], ◌∷◌, length,
  get_elem?, ◌==◌, arith, Bool, Bool-cases,
}
use iec104_server_and_modbus.Iec.{BinaryCounterReading, activation_con}
use iec104_server_and_modbus.Legacy.Points.{Entry, Points, Counters}
use iec104_server_and_modbus.Legacy.Server.{LegacyData}
use iec104_server_and_modbus.Legacy.Sound.{HasPoints, HasCounters, IsSound}
use iec104_server_and_modbus.Legacy.Background.{
  ResetOutput, act_con, reply, zero_entries, reset_points, zero_counters, reset_counters,
  reset_data, legacy_reset_handler,
}

-- What is sent.
abbrev pub answers : List ResetOutput → List ResetOutput
answers [] = []
answers (act_con ∷ out) = act_con ∷ answers out
answers (reply c ∷ out) = reply c ∷ answers out
answers (o ∷ out) = answers out

-- Every point has the value 0 and a good quality.
abbrev pub AllZero : Points → Type 0
AllZero p =
    (i : ℕ)
    → i < p.config.count
    → get_elem? p.entries i ≡ some (record { value = 0; qualifier = 0 })

length-zero_entries : (n : ℕ) (es : List Entry) → length (zero_entries n es) ≡ length es
unfolding zero_entries
length-zero_entries zero es = refl
length-zero_entries (suc n) [] = refl
length-zero_entries (suc n) (e ∷ es) = ap suc (length-zero_entries n es)

get_elem?-zero_entries :
    (n : ℕ) (es : List Entry) (i : ℕ)
    → n ≤ length es
    → i < n
    → get_elem? (zero_entries n es) i ≡ some (record { value = 0; qualifier = 0 })
unfolding zero_entries
get_elem?-zero_entries zero es i h k = absurd (omega arith)
get_elem?-zero_entries (suc n) [] i h k = absurd (omega arith)
get_elem?-zero_entries (suc n) (e ∷ es) zero h k = refl
get_elem?-zero_entries (suc n) (e ∷ es) (suc i) h k =
    get_elem?-zero_entries n es i (omega arith) (omega arith)

module _ {timed : Bool} where
  reset_points-HasPoints : (p : Points) → HasPoints timed p → HasPoints timed (reset_points p)
  unfolding reset_points
  reset_points-HasPoints p h = record {
    addresses = h.addresses;
    values = length-zero_entries p.config.count p.entries ∙ h.values;
    times = h.times;
  }

  reset_points-AllZero : (p : Points) → HasPoints timed p → AllZero (reset_points p)
  unfolding reset_points
  reset_points-AllZero p h i lt =
      get_elem?-zero_entries p.config.count p.entries i (omega (arith, h.values)) lt

module _ (set_value : BinaryCounterReading → ℕ → BinaryCounterReading) where
  length-zero_counters :
      (n : ℕ) (cs : List BinaryCounterReading) → length (zero_counters set_value n cs) ≡ length cs
  unfolding zero_counters
  length-zero_counters zero cs = refl
  length-zero_counters (suc n) [] = refl
  length-zero_counters (suc n) (c ∷ cs) = ap suc (length-zero_counters n cs)

  reset_counters-HasCounters :
      (c : Counters) → HasCounters c → HasCounters (reset_counters set_value c)
  unfolding reset_counters
  reset_counters-HasCounters c h = record {
    addresses = h.addresses;
    values = length-zero_counters c.config.count c.entries ∙ h.values;
  }

  reset_data-IsSound : (s : LegacyData) → IsSound s → IsSound (reset_data set_value s)
  unfolding reset_data
  reset_data-IsSound s h = (
    reset_points-HasPoints s.m_sp_tb_1 h.0,
    reset_points-HasPoints s.m_dp_tb_1 h.1,
    reset_points-HasPoints s.m_me_td_1 h.2,
    reset_counters-HasCounters s.m_it_tb_1 h.3,
    reset_points-HasPoints s.m_sp_na_1 h.4,
    h.5,
    reset_points-HasPoints s.m_me_nc_1 h.6,
  )

  -- The reset of a server whose arrays are as long as it counts keeps them so. It answers with two
  -- confirmations and never with a termination. The qualifier 1 gives every point of M_SP_TB_1,
  -- M_DP_TB_1, M_ME_TD_1, M_SP_NA_1 and M_ME_NC_1 the value 0 with a good quality, and leaves M_ME_ND_1
  -- as it is; any other qualifier changes nothing.
  pub legacy_reset_handler_lem :
      (qrp : ℕ) (s : LegacyData)
      → IsSound s
      → let r = legacy_reset_handler set_value qrp s in
        IsSound r.0
        × (answers r.1 ≡ act_con ∷ reply activation_con ∷ [])
        × (((qrp ≡ 1)
              × AllZero r.0.m_sp_tb_1
              × AllZero r.0.m_dp_tb_1
              × AllZero r.0.m_me_td_1
              × AllZero r.0.m_sp_na_1
              × AllZero r.0.m_me_nc_1
              × (r.0.m_me_nd_1 ≡ s.m_me_nd_1))
            ⊎ ((qrp ≢ 1) × (r.0 ≡ s)))
  unfolding legacy_reset_handler
  legacy_reset_handler_lem qrp s h = elim (Bool-cases (qrp == 1)) [
    | inr other ↦ rw other (h, refl, inr (ground arith, refl))
    | inl general ↦ rw general (
      reset_data-IsSound s h,
      refl,
      inl (
        ground arith,
        reset_points-AllZero s.m_sp_tb_1 h.0,
        reset_points-AllZero s.m_dp_tb_1 h.1,
        reset_points-AllZero s.m_me_td_1 h.2,
        reset_points-AllZero s.m_sp_na_1 h.4,
        reset_points-AllZero s.m_me_nc_1 h.6,
        refl,
      ),
    )
  ]
