-- ===== src/Interrogation/Limit.antt =====
-- A sequence of more than 127 points: lib60870 takes at most 127 objects into an ASDU, and
-- json-iec104-server/src/protocol/interrogation.c only counts bytes.
use iec104_server_and_modbus.Base.{
  ℕ, zero, suc, ◌+◌, ◌^◌, ◌≤◌, ◌<◌, ◌≡◌, refl, sym, ap, ◌∙◌, subst, Bool, true, false, Option, none,
  some, List, [], ◌∷◌, ◌++◌, length, take, drop, length-take, take-append-drop, leb, ltb, ◌==◌,
  add_int, arith,
}
use iec104_server_and_modbus.Iec.{
  Asdu, InformationObject, Cot, create_asdu, object_type, interrogated_by_station,
}
use iec104_server_and_modbus.Data.Types.{DataValue, get_data_type_info}
use iec104_server_and_modbus.Data.Manager.{DataTypeContext}
use iec104_server_and_modbus.Interrogation.Objects.{
  create_io_for_type, create_io_for_type_lem, IsObject,
}
use iec104_server_and_modbus.Interrogation.Encoder.{Encoder, accepts_after}
use iec104_server_and_modbus.Interrogation.Blocks.{
  Point, points, run_length, add_created, add_points, send_chunks, send_run, send_blocks,
  append_sent, cons_sent, calc_max_ioas_sq1, get_io_size_no_ioa, send_interrogation_for_type,
}
use iec104_server_and_modbus.Interrogation.Chunks.{
  Consecutive, Consecutive-take, objects, length-objects, add_points_lem,
}
use iec104_server_and_modbus.Interrogation.Fits.{InRange}

module _ (enc : Encoder) (type_id : ℕ) where
  add_points-append :
      (ps qs : List Point) (a : Asdu)
      → add_points enc type_id a (ps ++ qs)
        ≡ add_points enc type_id (add_points enc type_id a ps) qs
  unfolding add_points
  add_points-append [] qs a = refl
  add_points-append ((ioa, v) ∷ ps) qs a =
      add_points-append ps qs (add_created enc type_id a (create_io_for_type type_id ioa v))

  refuses_128 :
      (s : Bool) (els : List InformationObject) (io : InformationObject)
      → length els ≡ 127
      → accepts_after (enc.data_size (object_type io)) enc.max_size s els io ≡ false
  refuses_128 s [] io n = absurd (omega arith)
  refuses_128 s (first ∷ rest) io n =
      let full : ltb (length (first ∷ rest)) 127 ≡ false = ground arith in rw full refl

  -- An ASDU with 127 objects takes no more.
  add_points-full :
      (a : Asdu) (ps : List Point) → length a.elements ≡ 127 → add_points enc type_id a ps ≡ a
  unfolding add_points add_created
  add_points-full a [] n = refl
  add_points-full a ((ioa, v) ∷ ps) n =
      rw (same (create_io_for_type type_id ioa v)) (add_points-full a ps n)
    where
      same : (o : Option InformationObject) → add_created enc type_id a o ≡ a
      same none = refl
      same (some io) = enc.add_refused a io (refuses_128 a.is_sequence a.elements io n)

  run_length-all :
      (a : ℕ) (ps : List Point)
      → Consecutive (a + 1) ps
      → a < 2 ^ 24
      → InRange ps
      → run_length a ps ≡ length ps
  unfolding run_length
  run_length-all a [] up small h = refl
  run_length-all a ((b, v) ∷ ps) up small h =
      let next : (b == add_int a 1) ≡ true = ground arith in
      let later : Consecutive (b + 1) ps = subst (λ k. Consecutive (k + 1) ps) (sym up.0) up.1 in
      rw next (ap suc (run_length-all b ps later h.0 h.1))

  take_all : (n : ℕ) (ps : List Point) → length ps ≤ n → (take n ps ≡ ps) × (drop n ps ≡ [])
  take_all zero [] h = (refl, refl)
  take_all zero (p ∷ ps) h = absurd (omega arith)
  take_all (suc n) [] h = (refl, refl)
  take_all (suc n) (p ∷ ps) h =
      let rest = take_all n ps (omega arith) in (ap (◌∷◌ p) rest.0, rest.1)

  module _
      (made : (ioa : ℕ) (v : DataValue) → IsObject type_id ioa (create_io_for_type type_id ioa v))
      (size : enc.data_size type_id ≡ 1) (max : enc.max_size ≡ 249) (cot : Cot) (ca : ℕ) where
    -- The ASDU with the first 127 points.
    abbrev full_asdu : List Point → Asdu
    full_asdu ps = record (create_asdu true cot 0 ca) { elements = objects type_id (take 127 ps) }

    add_points-long :
        (ioa : ℕ) (ps : List Point)
        → Consecutive ioa ps
        → 127 < length ps
        → add_points enc type_id (create_asdu true cot 0 ca) ps ≡ full_asdu ps
    add_points-long ioa ps up long =
        let n : length (take 127 ps) ≡ 127 = omega (arith, length-take 127 ps) in
        let first =
          add_points_lem enc type_id made true (take 127 ps) (create_asdu true cot 0 ca) ioa 127
            refl (λ _. Consecutive-take 127 ioa ps up) tt (omega (arith, n)) (omega arith)
            (rw (size, max) (omega arith)) in
        let full =
          add_points-full (full_asdu ps) (drop 127 ps)
            (length-objects enc type_id made (take 127 ps) ∙ n) in
        ap (add_points enc type_id (create_asdu true cot 0 ca)) (sym (take-append-drop 127 ps))
        ∙ add_points-append (take 127 ps) (drop 127 ps) (create_asdu true cot 0 ca)
        ∙ ap (λ a. add_points enc type_id a (drop 127 ps)) first
        ∙ full

    send_run-long :
        (ioa : ℕ) (v : DataValue) (ps : List Point)
        → Consecutive ioa ((ioa, v) ∷ ps)
        → 127 < length ((ioa, v) ∷ ps)
        → length ((ioa, v) ∷ ps) ≤ 240
        → send_run enc type_id 4 cot ca ((ioa, v) ∷ ps) ≡ some (full_asdu ((ioa, v) ∷ ps) ∷ [])
    unfolding send_run send_chunks cons_sent calc_max_ioas_sq1 get_io_size_no_ioa
    send_run-long ioa v ps up long short =
        let three : leb 3 (length ((ioa, v) ∷ ps)) ≡ true = ground arith in
        let one : ltb 240 (length ((ioa, v) ∷ ps)) ≡ false = ground arith in
        let all = take_all (length ((ioa, v) ∷ ps)) ((ioa, v) ∷ ps) (omega arith) in
        let rest = take_all 240 ((ioa, v) ∷ ps) short in
        rw (three, max, one, all.0, rest.1, add_points-long ioa ((ioa, v) ∷ ps) up long) refl

    send_blocks-long :
        (fuel ioa : ℕ) (ps : List Point)
        → Consecutive ioa ps
        → InRange ps
        → 127 < length ps
        → length ps ≤ 240
        → 0 < fuel
        → send_blocks enc type_id fuel 4 cot ca ps ≡ some (full_asdu ps ∷ [])
    unfolding send_blocks append_sent
    send_blocks-long fuel ioa [] up range long short some_fuel = absurd (omega arith)
    send_blocks-long zero ioa (p ∷ ps) up range long short some_fuel = absurd (omega arith)
    send_blocks-long (suc fuel) ioa ((a, v) ∷ ps) up range long short some_fuel =
        let counts : Consecutive a ((a, v) ∷ ps) =
          (refl, subst (λ k. Consecutive (k + 1) ps) (sym up.0) up.1) in
        let run = run_length-all a ps counts.1 range.0 range.1 in
        let all = take_all (length ((a, v) ∷ ps)) ((a, v) ∷ ps) (omega arith) in
        ap
          (λ n.
            append_sent (send_run enc type_id 4 cot ca (take (suc n) ((a, v) ∷ ps)))
              (send_blocks enc type_id fuel 4 cot ca (drop (suc n) ((a, v) ∷ ps))))
          run
        ∙ (λ i.
            append_sent (send_run enc type_id 4 cot ca (all.0 i))
              (send_blocks enc type_id fuel 4 cot ca (all.1 i)))
        ∙ (λ i. append_sent (send_run-long a v ps counts long short i) (nothing fuel i))
      where
        nothing : (n : ℕ) → send_blocks enc type_id n 4 cot ca [] ≡ some []
        nothing zero = refl
        nothing (suc n) = refl

-- An interrogation of single points without time tags, of which 128 to 240 have addresses that count
-- up, with ASDUs of 249 bytes and one byte of data for each point: all points are put into a single
-- ASDU, which takes the first 127, and the others are not sent.
pub send_interrogation_for_type-long :
    (enc : Encoder) (c : DataTypeContext) (ioa ca : ℕ)
    → enc.data_size c.type_id ≡ 1
    → enc.max_size ≡ 249
    → c.type_info.io_size ≡ 4
    → get_data_type_info c.type_id ≡ some c.type_info
    → length (points c) ≡ c.config.count
    → Consecutive ioa (points c)
    → InRange (points c)
    → 127 < c.config.count
    → c.config.count ≤ 240
    → let sent = objects c.type_id (take 127 (points c)) in
      (send_interrogation_for_type enc ca c
        ≡ some (record (create_asdu true interrogated_by_station 0 ca) { elements = sent } ∷ []))
      × (length sent < c.config.count)
unfolding send_interrogation_for_type
send_interrogation_for_type-long enc c ioa ca size max io_size known n up range long short =
    let made = λ (a : ℕ) (v : DataValue). create_io_for_type_lem c.type_id a c.type_info v known in
    let some_points : ltb 0 c.config.count ≡ true = ground arith in
    (
      rw (some_points, io_size)
          (send_blocks-long enc c.type_id made size max interrogated_by_station ca c.config.count
            ioa (points c) up range (omega (arith, n)) (omega (arith, n)) (omega arith)),
      omega (
        arith,
        length-objects enc c.type_id made (take 127 (points c)),
        length-take 127 (points c),
      ),
    )
