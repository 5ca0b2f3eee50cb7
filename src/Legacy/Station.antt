-- ===== src/Legacy/Station.antt =====
-- When the legacy interrogation of the station is complete.
use iec104_server_and_modbus.Base.{
  ℕ, ◌+◌, ◌≤◌, ◌<◌, ◌≡◌, ◌≢◌, ◌⊎◌, inl, inr, refl, ◌∙◌, true, false, Option, none, some, List, [],
  ◌∷◌, ◌++◌, map, All, All-append, ◌==◌, arith, Bool-cases,
}
use iec104_server_and_modbus.Iec.{Asdu, InformationObject, object_type}
use iec104_server_and_modbus.Interrogation.Encoder.{Encoder, ioa_size, header_size}
use iec104_server_and_modbus.Interrogation.Blocks.{append_sent}
use iec104_server_and_modbus.Interrogation.Complete.{sent_objects, sent_objects-append}
use iec104_server_and_modbus.Interrogation.Station.{act_con, act_term, asdu}
use iec104_server_and_modbus.Legacy.Interrogation.{
  LegacyPoint, Section, calc_max_ioas, send_section, send_sections, legacy_interrogation_handler,
}
use iec104_server_and_modbus.Legacy.Complete.{
  HasLegacyHeader, LegacyDelivers, send_section-LegacyDelivers,
}

-- The block counts enough bytes for its objects, and plans from 1 to 127 of them for an ASDU.
pub record HasRoom (enc : Encoder) (s : Section) : Type 0 where
  pub type_id : ℕ
  pub made : (p : LegacyPoint) → object_type (s.create p) ≡ type_id
  pub small : ioa_size + enc.data_size type_id ≤ s.ioa_size
  pub some_planned : 0 < calc_max_ioas enc.max_size s.ioa_size
  pub few_planned : calc_max_ioas enc.max_size s.ioa_size ≤ 127

-- Every block either has no points or has room for its objects.
abbrev pub AllServed : Encoder → List Section → List (List LegacyPoint) → Type 0
AllServed enc [] points = Unit {0}
AllServed enc (s ∷ ss) [] = Unit {0}
AllServed enc (s ∷ ss) (ps ∷ pss) = ((ps ≡ []) ⊎ HasRoom enc s) × AllServed enc ss pss

-- The objects of all points, block by block.
abbrev pub section_objects : List Section → List (List LegacyPoint) → List InformationObject
section_objects [] points = []
section_objects (s ∷ ss) [] = []
section_objects (s ∷ ss) (ps ∷ pss) = map s.create ps ++ section_objects ss pss

append_sent-LegacyDelivers :
    (ca : ℕ) (os ps : List InformationObject) (xs ys : Option (List Asdu))
    → LegacyDelivers ca os xs
    → LegacyDelivers ca ps ys
    → LegacyDelivers ca (os ++ ps) (append_sent xs ys)
unfolding append_sent
append_sent-LegacyDelivers ca os ps none ys h k = h
append_sent-LegacyDelivers ca os ps (some xs) none h k = k
append_sent-LegacyDelivers ca os ps (some xs) (some ys) h k = (
  sent_objects-append xs ys ∙ (λ i. h.0 i ++ k.0 i),
  All-append (HasLegacyHeader ca) xs ys h.1 k.1,
)

no_points_sent :
    (enc : Encoder) (ca : ℕ) (s : Section) (ps : List LegacyPoint)
    → ps ≡ []
    → LegacyDelivers ca (map s.create ps) (send_section enc ca s ps)
unfolding send_section sent_objects
no_points_sent enc ca s ps e = rw e (refl, tt)

module _ (enc : Encoder) (header : header_size ≤ enc.max_size) (ca : ℕ) where
  served_block :
      (s : Section) (ps : List LegacyPoint)
      → (ps ≡ []) ⊎ HasRoom enc s
      → LegacyDelivers ca (map s.create ps) (send_section enc ca s ps)
  served_block s ps (inl e) = no_points_sent enc ca s ps e
  served_block s ps (inr r) =
      send_section-LegacyDelivers enc ca r.type_id s ps r.made r.small header r.some_planned
        r.few_planned

  send_sections-LegacyDelivers :
      (ss : List Section) (pss : List (List LegacyPoint))
      → AllServed enc ss pss
      → LegacyDelivers ca (section_objects ss pss) (send_sections enc ca ss pss)
  unfolding send_sections sent_objects
  send_sections-LegacyDelivers [] pss h = (refl, tt)
  send_sections-LegacyDelivers (s ∷ ss) [] h = (refl, tt)
  send_sections-LegacyDelivers (s ∷ ss) (ps ∷ pss) h =
      append_sent-LegacyDelivers ca (map s.create ps) (section_objects ss pss)
        (send_section enc ca s ps) (send_sections enc ca ss pss) (served_block s ps h.0)
        (send_sections-LegacyDelivers ss pss h.1)

  legacy_delivered :
      (os : List InformationObject) (r : Option (List Asdu))
      → LegacyDelivers ca os r
      → (sent : List Asdu) × (r ≡ some sent)
        × (sent_objects sent ≡ os)
        × All (HasLegacyHeader ca) sent
  legacy_delivered os none h = absurd h
  legacy_delivered os (some sent) h = (sent, refl, h.0, h.1)

  -- Where every block with points counts enough bytes for its objects and plans from 1 to 127 of
  -- them for an ASDU, which has room for a header, the interrogation of the station ends: it is
  -- confirmed, then ASDUs that are no sequences, with the cause "interrogated by station" and the
  -- common address in both address fields, bring each point of each block once and in order, and then
  -- it is terminated. Any other qualifier is refused, nothing else is sent, and the handler still
  -- returns true.
  pub legacy_interrogation_handler_lem :
      (ss : List Section) (pss : List (List LegacyPoint)) (qoi : ℕ)
      → AllServed enc ss pss
      → ((qoi ≡ 20)
          × ((sent : List Asdu) × (legacy_interrogation_handler enc ca ss pss qoi
                ≡ some (act_con false ∷ (map asdu sent ++ (act_term ∷ [])), true))
              × (sent_objects sent ≡ section_objects ss pss)
              × All (HasLegacyHeader ca) sent))
        ⊎ ((qoi ≢ 20)
            × (legacy_interrogation_handler enc ca ss pss qoi ≡ some (act_con true ∷ [], true)))
  unfolding legacy_interrogation_handler
  legacy_interrogation_handler_lem ss pss qoi h = elim (Bool-cases (qoi == 20)) [
    | inl station ↦
        let (sent, e, objs, heads) =
          legacy_delivered (section_objects ss pss) (send_sections enc ca ss pss)
            (send_sections-LegacyDelivers ss pss h) in
        let known : qoi ≡ 20 = ground arith in
        inl (known, (sent, rw (station, e) refl, objs, heads))
    | inr other ↦ let unknown : qoi ≢ 20 = ground arith in inr (unknown, rw other refl)
  ]
