-- ===== src/Legacy/Periodic.antt =====
-- What `SendPeriodicData` of json-iec104-server/json-iec104-server.c sends of a type.
use iec104_server_and_modbus.Base.{
  ℕ, zero, suc, ◌+◌, ◌<◌, ◌≤◌, ◌≡◌, refl, ap, ◌∙◌, Bool, true, false, ◌&&◌, List, [], ◌∷◌, length,
  take, ltb, leb, sub_u64, if◌then◌else◌, arith,
}
use iec104_server_and_modbus.Globals.{Globals}
use iec104_server_and_modbus.Iec.{Asdu, InformationObject, object_type, create_asdu, periodic}
use iec104_server_and_modbus.Data.Manager
use iec104_server_and_modbus.Interrogation.Encoder.{Encoder, header_size, payload}
use iec104_server_and_modbus.Periodic.{PeriodicConfig}
use iec104_server_and_modbus.Legacy.Interrogation.{add_all}
use iec104_server_and_modbus.Legacy.Loss.{OfType, add_all-takes}
use iec104_server_and_modbus.Legacy.Points.{Entry, Points}
use iec104_server_and_modbus.Legacy.Sound.{HasPoints}
use iec104_server_and_modbus.Legacy.Background.{point_objects, send_type_periodic}

module _ (id : ℕ) (create : ℕ → Entry → InformationObject)
    (made : (ioa : ℕ) (e : Entry) → object_type (create ioa e) ≡ id) where
  OfType-point_objects :
      (n : ℕ) (ioas : List ℕ) (es : List Entry) → OfType id (point_objects create n ioas es)
  unfolding point_objects
  OfType-point_objects zero ioas es = tt
  OfType-point_objects (suc n) [] es = tt
  OfType-point_objects (suc n) (ioa ∷ ioas) [] = tt
  OfType-point_objects (suc n) (ioa ∷ ioas) (e ∷ es) = (made ioa e, OfType-point_objects n ioas es)

  length-point_objects :
      (n : ℕ) (ioas : List ℕ) (es : List Entry)
      → length ioas ≡ n
      → length es ≡ n
      → length (point_objects create n ioas es) ≡ n
  unfolding point_objects
  length-point_objects zero ioas es h k = refl
  length-point_objects (suc n) [] es h k = absurd (omega arith)
  length-point_objects (suc n) (ioa ∷ ioas) [] h k = absurd (omega arith)
  length-point_objects (suc n) (ioa ∷ ioas) (e ∷ es) h k =
      ap suc (length-point_objects n ioas es (omega arith) (omega arith))

  -- Of a type whose objects have the type identification `id`, and whose arrays are as long as it
  -- counts, a period that is over sends one ASDU with the cause "periodic" and the first k points,
  -- and no other, if the type is enabled, if an ASDU has room for k of these objects and not for
  -- k + 1, with k from 1 to 127, and if the type has more than k points.
  pub send_type_periodic-loses :
      (enc : Encoder) (g : Globals) (now k : ℕ) (timed : Bool) (p : Points) (c : PeriodicConfig)
      → HasPoints timed p
      → c.enabled ≡ true
      → c.period_ms ≤ sub_u64 now c.last_sent
      → 0 < k
      → k ≤ 127
      → k < p.config.count
      → header_size + payload false k (enc.data_size id) ≤ enc.max_size
      → enc.max_size < header_size + payload false (k + 1) (enc.data_size id)
      → let os =
          point_objects create p.config.count (Manager.entries p.config.ioa_list) p.entries in
        send_type_periodic enc g now create p c ≡ (
          record c { last_sent = now },
          record (create_asdu false periodic g.asdu g.asdu) { elements = take k os } ∷ [],
        )
  unfolding send_type_periodic
  send_type_periodic-loses enc g now k timed p c h on due pos few more fits over =
      let os = point_objects create p.config.count (Manager.entries p.config.ioa_list) p.entries in
      let len : length os ≡ p.config.count =
        length-point_objects p.config.count _ p.entries h.addresses h.values in
      let taken =
        add_all-takes id enc os periodic g.asdu g.asdu k
          (OfType-point_objects p.config.count _ p.entries) pos few (omega (arith, len)) fits
          over in
      let some_points : ltb 0 p.config.count ≡ true = ground arith in
      let is_due : leb c.period_ms (sub_u64 now c.last_sent) ≡ true = ground arith in
      let sends : Bool → PeriodicConfig × List Asdu = λ b.
        if b
        then (
          record c { last_sent = now },
          add_all enc (create_asdu false periodic g.asdu g.asdu) os ∷ [],
        )
        else (c, []) in
      (λ i. sends (on i && (some_points i && is_due i)))
      ∙ ap (λ (a : Asdu). (record c { last_sent = now }, a ∷ [])) taken
