-- ===== src/Legacy/Reports.antt =====
-- What `process_data_update` of json-iec104-server/json-iec104-server.c stores and sends.
use iec104_server_and_modbus.Base.{
  ℕ, ◌<◌, ◌≡◌, ◌≢◌, ◌⊎◌, inl, inr, refl, sym, ap, ◌∙◌, Bool, true, false, ◌&&◌, some, List, [], ◌∷◌,
  zero, suc, get_elem?, set, ltb, ◌==◌, if◌then◌else◌, arith, Bool-cases,
}
use iec104_server_and_modbus.Cfloat.{FloatUnit}
use iec104_server_and_modbus.Globals.{Globals}
use iec104_server_and_modbus.Iec.TypeId
use iec104_server_and_modbus.Iec.{
  InformationObject, single_point_with_cp56, double_point_with_cp56, short, short_with_cp56,
}
use iec104_server_and_modbus.Data.Manager.{find_ioa_index}
use iec104_server_and_modbus.Data.Manager.Find.{find_ioa_index-lt}
use iec104_server_and_modbus.Interrogation.Encoder.{Encoder}
use iec104_server_and_modbus.Legacy.Points.{
  Entry, Points, Output, client_not_connected, change_number, change_short, exceeds_deadband,
  report, update_point, update_checked,
}
use iec104_server_and_modbus.Legacy.Server.{
  LegacySurroundings, Conversions, spontaneous_report, send_update, send_short, at_index,
  process_m_sp_tb_1, process_m_dp_tb_1, process_m_me_nc_1,
}

-- The change of a point to a value and a qualifier: nothing if it has both, and both else.
abbrev Changes : ℕ → ℕ → Entry → Entry × Bool → Type 0
Changes v q e r =
    ((e.value ≡ v) × (e.qualifier ≡ q) × (r ≡ (e, false)))
    ⊎ (¬ ((e.value ≡ v) × (e.qualifier ≡ q)) × (r ≡ (record { value = v; qualifier = q }, true)))

change_number-Changes : (v q : ℕ) (e : Entry) → q < 256 → Changes v q e (change_number v q e)
unfolding change_number
change_number-Changes v q e small = elim (Bool-cases (e.value == v)) [
  | inl same ↦ elim (Bool-cases (e.qualifier == q)) [
    | inl kept ↦ inl (ground arith, ground arith, ground arith)
    | inr new ↦ inr (λ h. ground arith, ground arith)
  ]
  | inr differs ↦ inr (λ h. ground arith, ground arith)
]

set-get_elem? : (xs : List Entry) (i : ℕ) (e : Entry) → get_elem? xs i ≡ some e → set xs i e ≡ xs
set-get_elem? [] i e h = refl
set-get_elem? (x ∷ xs) zero e h = let same : x ≡ e = cc in ap (λ y. y ∷ xs) (sym same)
set-get_elem? (x ∷ xs) (suc i) e h = ap (◌∷◌ x) (set-get_elem? xs i e h)

-- The result of an update of the point at an index: either it has the value and the qualifier
-- already, and nothing happens; or it takes them, and `sent` is what is sent.
abbrev pub Reports : ℕ → ℕ → List Output → Points → ℕ → Entry → Points × List Output → Type 0
Reports v q sent p i e r =
    ((e.value ≡ v) × (e.qualifier ≡ q) × (r ≡ (p, [])))
    ⊎ (¬ ((e.value ≡ v) × (e.qualifier ≡ q))
        × (r.0.entries ≡ set p.entries i (record { value = v; qualifier = q }))
        × (r.0.config ≡ p.config)
        × (r.1 ≡ sent))

-- The points after a report are those before it but for the times.
report-entries :
    (g : Globals) (connected : Bool) (now : ℕ) (p : Points) (i : ℕ) (changed : Bool)
    → ((report g connected now p i changed).0.entries ≡ p.entries)
      × ((report g connected now p i changed).0.config ≡ p.config)
unfolding report
report-entries g true now p i true = (refl, refl)
report-entries g false now p i true = (refl, refl)
report-entries g connected now p i false = (refl, refl)

report-online :
    (g : Globals) (now : ℕ) (p : Points) (i : ℕ) → report g true now p i true ≡ (p, true)
unfolding report
report-online g now p i = refl

update_checked_lem :
    (g : Globals) (connected : Bool) (now t : ℕ) (change : Entry → Entry × Bool) (p : Points)
    (i : ℕ) (e e' : Entry) (changed : Bool)
    → i < p.config.count
    → get_elem? p.entries i ≡ some e
    → change e ≡ (e', changed)
    → update_checked g connected now t change p i
      ≡ (report g connected now (record p { entries = set p.entries i e' }) i changed, [])
unfolding update_checked
update_checked_lem g connected now t change p i e e' changed small at made =
    let lt : ltb i p.config.count ≡ true = ground arith in
    rw lt (
      rw (at, update_point)
        (ap (λ r. (report g connected now (record p { entries = set p.entries i r.0 }) i r.1, []))
          made))

&&-false : (b : Bool) → (b && false) ≡ false
&&-false true = refl
&&-false false = refl

module _ (f : FloatUnit) (g : Globals) (enc : Encoder) (k : Conversions) (env : LegacySurroundings)
    (steady : env.connected ≡ env.still_connected) where
  -- The ASDU with the object, if a client is connected.
  abbrev pub sent_now : InformationObject → List Output
  sent_now io = if env.still_connected then spontaneous_report f g enc k env io else []

  abbrev sent_if : Bool → InformationObject → List Output
  sent_if b io = if b then spontaneous_report f g enc k env io else []

  -- A report that a connected or an absent client gets.
  send_report :
      (io : InformationObject) (on : Bool) (p : Points) (i : ℕ)
      → env.still_connected ≡ on
      → (send_update f g enc k env io (report g on env.now p i true, [])).1
        ≡ sent_if env.still_connected io
  unfolding send_update report
  send_report io true p i same = refl
  send_report io false p i same =
      let rc = (report g false env.now p i true).1 in
      ap (λ b. sent_if (rc && b) io) same
      ∙ ap (λ b. sent_if b io) (&&-false rc)
      ∙ ap (λ b. sent_if b io) (sym same)

  send_update-Reports :
      (io : InformationObject) (t v q : ℕ) (change : Entry → Entry × Bool) (p : Points) (i : ℕ)
      (e : Entry)
      → i < p.config.count
      → get_elem? p.entries i ≡ some e
      → Changes v q e (change e)
      → Reports v q
          (sent_now io)
          p
          i
          e
          (send_update f g enc k env io (update_checked g env.connected env.now t change p i))
  unfolding send_update report
  send_update-Reports io t v q change p i e small at (inl (same, kept, quiet)) =
      rw
        (
          update_checked_lem g env.connected env.now t change p i e e false small at quiet,
          set-get_elem? p.entries i e at,
        )
        (inl (same, kept, refl))
  send_update-Reports io t v q change p i e small at (inr (differs, changed)) =
      rw (update_checked_lem g env.connected env.now t change p i e _ true small at changed) (
        inr (
          differs,
          (report-entries g env.connected env.now
              (record p { entries = set p.entries i (record { value = v; qualifier = q }) }) i
              true).0,
          (report-entries g env.connected env.now
              (record p { entries = set p.entries i (record { value = v; qualifier = q }) }) i
              true).1,
          send_report io env.connected _ i (sym steady),
        ))

  -- A single or a double point with a time that is configured takes the value and the qualifier of an
  -- update, for a qualifier below 256. If it has both already, nothing changes and nothing is sent.
  -- Else it has them then, no other point and no address changes, and exactly one ASDU is sent, with
  -- the object of the update, if a client is connected, and none if not, provided that it is
  -- connected, or not, during the whole update.
  pub process_points-Reports :
      (v ioa q i : ℕ) (p : Points) (e : Entry)
      → q < 256
      → find_ioa_index p.config ioa ≡ some i
      → get_elem? p.entries i ≡ some e
      → let b : ℕ = if f.to_bool v then 1 else 0 in
        Reports b q
          (sent_now (single_point_with_cp56 ioa (f.to_bool v) q env.cp56))
          p
          i
          e
          (process_m_sp_tb_1 f g enc k env v ioa q p)
        × Reports
            (f.to_enum v)
            q
            (sent_now (double_point_with_cp56 ioa (f.to_enum v) q env.cp56))
            p
            i
            e
            (process_m_dp_tb_1 f g enc k env v ioa q p)
  unfolding process_m_sp_tb_1 process_m_dp_tb_1
  process_points-Reports v ioa q i p e small found at =
      let lt = find_ioa_index-lt p.config ioa i found in
      (
        rw (found, at_index)
            (send_update-Reports (single_point_with_cp56 ioa (f.to_bool v) q env.cp56)
              TypeId.m_sp_tb_1 _ q (change_number (if f.to_bool v then 1 else 0) q) p i e lt at
              (change_number-Changes _ q e small)),
        rw (found, at_index)
            (send_update-Reports (double_point_with_cp56 ioa (f.to_enum v) q env.cp56)
              TypeId.m_dp_tb_1 (f.to_enum v) q (change_number (f.to_enum v) q) p i e lt at
              (change_number-Changes (f.to_enum v) q e small)),
      )

change_short-kept :
    (f : FloatUnit) (g : Globals) (v q : ℕ) (e : Entry)
    → q < 256
    → exceeds_deadband f g e.value v ≡ false
    → e.qualifier ≢ q
    → change_short f g v q e ≡ (record { value = e.value; qualifier = q }, true)
unfolding change_short
change_short-kept f g v q e small within new = ground arith

-- A short measured value that stays inside the deadband but comes with another qualifier, below
-- 256, is sent to a connected client with the new value, while the point keeps the old value and
-- takes only the qualifier.
pub process_m_me_nc_1-stale :
    (f : FloatUnit) (g : Globals) (enc : Encoder) (k : Conversions) (env : LegacySurroundings)
    (v ioa q i : ℕ) (p : Points) (e : Entry)
    → q < 256
    → find_ioa_index p.config ioa ≡ some i
    → get_elem? p.entries i ≡ some e
    → exceeds_deadband f g e.value (f.to_float v) ≡ false
    → e.qualifier ≢ q
    → env.connected ≡ true
    → env.still_connected ≡ true
    → let r = process_m_me_nc_1 f g enc k env v ioa q p in
      (r.0.entries ≡ set p.entries i (record { value = e.value; qualifier = q }))
      × (r.1 ≡ spontaneous_report f g enc k env (short ioa (f.to_float v) q))
unfolding process_m_me_nc_1
process_m_me_nc_1-stale f g enc k env v ioa q i p e small found at within new on still =
    let lt = find_ioa_index-lt p.config ioa i found in
    let changed = change_short-kept f g (f.to_float v) q e small within new in
    let p' : Points = record p {
      entries = set p.entries i (record { value = e.value; qualifier = q });
    } in
    let made =
      update_checked_lem g env.connected env.now TypeId.m_me_nc_1
        (change_short f g (f.to_float v) q) p i e (record { value = e.value; qualifier = q }) true
        lt at changed in
    let reported : report g env.connected env.now p' i true ≡ (p', true) =
      ap (λ b. report g b env.now p' i true) on ∙ report-online g env.now p' i in
    rw (found, at_index)
      (rw (made, reported)
        (unfold send_short in
          (
            refl,
            ap
                (λ (b : Bool).
                  if b
                  then spontaneous_report f g enc k env (short ioa (f.to_float v) q)
                  else client_not_connected
                    ∷ spontaneous_report f g enc k env
                        (short_with_cp56 ioa (f.to_float v) q env.cp56))
                still,
          )))
