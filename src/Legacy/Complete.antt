-- ===== src/Legacy/Complete.antt =====
-- Which types the legacy interrogation sends completely.
use native.Mathlib.Nat.{div-mul-le_self, mul-le-mul_left}
use iec104_server_and_modbus.Base.{
  ℕ, zero, suc, ◌+◌, ◌-◌, ◌*◌, ◌/◌, ◌≤◌, ◌<◌, ◌≡◌, refl, ap, subst, false, Option, none, some, List,
  [], ◌∷◌, ◌++◌, map, All, length, take, drop, length-take, length-drop, length-map,
  take-append-drop, arith,
}
use iec104_server_and_modbus.Iec.{
  Asdu, InformationObject, object_type, create_asdu, interrogated_by_station,
}
use iec104_server_and_modbus.Interrogation.Encoder.{Encoder, ioa_size, header_size, payload}
use iec104_server_and_modbus.Interrogation.Blocks.{cons_sent}
use iec104_server_and_modbus.Interrogation.Complete.{sent_objects}
use iec104_server_and_modbus.Legacy.Interrogation.{
  LegacyPoint, Section, calc_max_ioas, add_all, send_plain, send_section,
}
use iec104_server_and_modbus.Legacy.Loss.{
  OfType, OfType-take, OfType-drop, OfType-map, add_all-fits,
}

-- The header of an ASDU of the legacy interrogation: the originator is the common address.
abbrev pub HasLegacyHeader : ℕ → Asdu → Type 0
HasLegacyHeader ca a =
    (a.is_sequence ≡ false) × (a.cot ≡ interrogated_by_station) × (a.oa ≡ ca) × (a.ca ≡ ca)

abbrev pub LegacyDelivers : ℕ → List InformationObject → Option (List Asdu) → Type 0
LegacyDelivers ca os none = ⊥
LegacyDelivers ca os (some sent) = (sent_objects sent ≡ os) × All (HasLegacyHeader ca) sent

cons_sent-LegacyDelivers :
    (ca : ℕ) (os qs : List InformationObject) (a : Asdu) (r : Option (List Asdu))
    → a ≡ record (create_asdu false interrogated_by_station ca ca) { elements = os }
    → LegacyDelivers ca qs r
    → LegacyDelivers ca (os ++ qs) (cons_sent a r)
unfolding cons_sent sent_objects
cons_sent-LegacyDelivers ca os qs a none e h = h
cons_sent-LegacyDelivers ca os qs a (some sent) e h = (
  (λ i. (e i).elements ++ h.0 i),
  ((ap (λ b. b.is_sequence) e, ap (λ b. b.cot) e, ap (λ b. b.oa) e, ap (λ b. b.ca) e), h.1),
)

module _ (enc : Encoder) (ca id m : ℕ) (pos : 0 < m) (few : m ≤ 127)
    (fits : header_size + payload false m (enc.data_size id) ≤ enc.max_size) where
  chunk_taken :
      (os : List InformationObject)
      → OfType id os
      → add_all enc (create_asdu false interrogated_by_station ca ca) (take m os)
        ≡ record (create_asdu false interrogated_by_station ca ca) { elements = take m os }
  chunk_taken os t =
      let less : length (take m os) ≤ m = omega (arith, length-take m os) in
      let smaller : length (take m os) * (ioa_size + enc.data_size id)
          ≤ m * (ioa_size + enc.data_size id) =
        grind arith in
      add_all-fits enc id (take m os) (create_asdu false interrogated_by_station ca ca) refl tt
        (OfType-take id m os t) (omega arith) (omega (arith, fits, smaller))

  send_plain-LegacyDelivers :
      (fuel : ℕ) (os : List InformationObject)
      → OfType id os
      → length os ≤ fuel
      → LegacyDelivers ca os
          (send_plain enc fuel (create_asdu false interrogated_by_station ca ca) m os)
  unfolding send_plain sent_objects
  send_plain-LegacyDelivers fuel [] t enough = (refl, tt)
  send_plain-LegacyDelivers zero (io ∷ os) t enough = absurd (omega arith)
  send_plain-LegacyDelivers (suc fuel) (io ∷ os) t enough =
      let later =
        send_plain-LegacyDelivers fuel (drop m (io ∷ os)) (OfType-drop id m (io ∷ os) t)
          (omega (arith, length-drop m (io ∷ os))) in
      subst
        (λ all.
          LegacyDelivers ca all (
            send_plain enc (suc fuel) (create_asdu false interrogated_by_station ca ca) m
              (io ∷ os)))
        (take-append-drop m (io ∷ os))
        (cons_sent-LegacyDelivers ca (take m (io ∷ os)) (drop m (io ∷ os)) _ _
          (chunk_taken (io ∷ os) t) later)

-- The block of a type whose objects have the type identification `id` and are no longer than the
-- handler counts for them ends, and sends each point once, in order, in ASDUs that are no sequences,
-- with the cause "interrogated by station" and with the common address as the originator address,
-- too; if the header fits into an ASDU and the handler plans from 1 to 127 objects for one.
pub send_section-LegacyDelivers :
    (enc : Encoder) (ca id : ℕ) (s : Section) (ps : List LegacyPoint)
    → ((p : LegacyPoint) → object_type (s.create p) ≡ id)
    → ioa_size + enc.data_size id ≤ s.ioa_size
    → header_size ≤ enc.max_size
    → 0 < calc_max_ioas enc.max_size s.ioa_size
    → calc_max_ioas enc.max_size s.ioa_size ≤ 127
    → LegacyDelivers ca (map s.create ps) (send_section enc ca s ps)
unfolding send_section calc_max_ioas
send_section-LegacyDelivers enc ca id s ps made small header pos few =
    let m = (enc.max_size - 6) / s.ioa_size in
    let whole : m * s.ioa_size ≤ enc.max_size - 6 = div-mul-le_self (enc.max_size - 6) s.ioa_size in
    let scaled : m * (ioa_size + enc.data_size id) ≤ m * s.ioa_size = mul-le-mul_left m small in
    send_plain-LegacyDelivers enc ca id m pos few (omega (arith, whole, scaled)) (length ps)
      (map s.create ps) (OfType-map id s.create made ps) (omega (arith, length-map ps s.create))
