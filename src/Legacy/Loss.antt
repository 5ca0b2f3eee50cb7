-- ===== src/Legacy/Loss.antt =====
-- Which objects the ASDUs of the legacy interrogation take.
use iec104_server_and_modbus.Base.{
  ℕ, zero, suc, ◌+◌, ◌*◌, ◌≤◌, ◌<◌, ◌≡◌, refl, sym, ap, ◌∙◌, true, false, some, List, [], ◌∷◌, ◌++◌,
  map, All, length, take, drop, length-append, length-take, length-map, take-append-drop,
  append-nil, append_assoc, arith,
}
use iec104_server_and_modbus.Iec.{
  Asdu, Cot, InformationObject, object_type, create_asdu, interrogated_by_station,
}
use iec104_server_and_modbus.Interrogation.Encoder.{Encoder, accepts_after, header_size, payload}
use iec104_server_and_modbus.Interrogation.Blocks.{cons_sent}
use iec104_server_and_modbus.Legacy.Interrogation.{
  LegacyPoint, Section, calc_max_ioas, add_all, send_plain, send_section,
}

abbrev pub OfType : ℕ → List InformationObject → Type 0
OfType id = All (λ io. object_type io ≡ id)

add_all-append :
    (enc : Encoder) (os ps : List InformationObject) (a : Asdu)
    → add_all enc a (os ++ ps) ≡ add_all enc (add_all enc a os) ps
unfolding add_all
add_all-append enc [] ps a = refl
add_all-append enc (io ∷ os) ps a = add_all-append enc os ps (enc.add a io)

module _ (enc : Encoder) (id : ℕ) where
  accepts_plain :
      (els : List InformationObject) (io : InformationObject)
      → OfType id els
      → object_type io ≡ id
      → length els < 127
      → header_size + payload false (length els + 1) (enc.data_size id) ≤ enc.max_size
      → accepts_after (enc.data_size (object_type io)) enc.max_size false els io ≡ true
  accepts_plain [] io h t n fits = rw t (ground arith)
  accepts_plain (first ∷ rest) io h t n fits = rw (t, h.0) (ground arith)

  refuses_plain :
      (els : List InformationObject) (io : InformationObject)
      → 0 < length els
      → object_type io ≡ id
      → enc.max_size < header_size + payload false (length els + 1) (enc.data_size id)
      → accepts_after (enc.data_size (object_type io)) enc.max_size false els io ≡ false
  refuses_plain [] io n t over = absurd (omega arith)
  refuses_plain (first ∷ rest) io n t over = rw t (ground arith)

  OfType-append :
      (els : List InformationObject) (io : InformationObject)
      → OfType id els
      → object_type io ≡ id
      → OfType id (els ++ (io ∷ []))
  OfType-append [] io h t = (t, tt)
  OfType-append (e ∷ els) io h t = (h.0, OfType-append els io h.1 t)

  -- Objects that fit are taken, in order.
  pub add_all-fits :
      (os : List InformationObject) (a : Asdu)
      → a.is_sequence ≡ false
      → OfType id a.elements
      → OfType id os
      → length a.elements + length os ≤ 127
      → header_size + payload false (length a.elements + length os) (enc.data_size id)
        ≤ enc.max_size
      → add_all enc a os ≡ record a { elements = a.elements ++ os }
  unfolding add_all
  add_all-fits [] a seq h t n fits = λ i. record a { elements = sym (append-nil a.elements) i }
  add_all-fits (io ∷ os) a seq h t n fits =
      let more : (length a.elements + 1) * (3 + enc.data_size id)
          ≤ (length a.elements + suc (length os)) * (3 + enc.data_size id) =
        grind arith in
      let added =
        enc.add_accepted a io
          (rw seq (accepts_plain a.elements io h t.0 (omega arith) (omega (arith, more)))) in
      let next : Asdu = record a { elements = a.elements ++ (io ∷ []) } in
      let len : length next.elements ≡ length a.elements + 1 =
        omega (arith, length-append a.elements (io ∷ [])) in
      let len' : length next.elements + length os ≡ length a.elements + suc (length os) =
        omega (arith, len) in
      let later =
        add_all-fits os next seq (OfType-append a.elements io h t.0) t.1 (omega (arith, len))
          (rw len' fits) in
      rw added (later ∙ λ i. record a { elements = append_assoc a.elements (io ∷ []) os i })

  -- An ASDU in which no further object fits takes none.
  add_all-full :
      (os : List InformationObject) (a : Asdu)
      → a.is_sequence ≡ false
      → 0 < length a.elements
      → OfType id os
      → enc.max_size < header_size + payload false (length a.elements + 1) (enc.data_size id)
      → add_all enc a os ≡ a
  unfolding add_all
  add_all-full [] a seq n t over = refl
  add_all-full (io ∷ os) a seq n t over =
      let same = enc.add_refused a io (rw seq (refuses_plain a.elements io n t.0 over)) in
      rw same (add_all-full os a seq n t.1 over)

take_all : {A : Type 0} (n : ℕ) (xs : List A) → length xs ≤ n → take n xs ≡ xs
take_all zero [] h = refl
take_all (suc n) [] h = refl
take_all zero (x ∷ xs) h = absurd (omega arith)
take_all (suc n) (x ∷ xs) h = ap (◌∷◌ x) (take_all n xs (omega arith))

drop_all : {A : Type 0} (n : ℕ) (xs : List A) → length xs ≤ n → drop n xs ≡ []
drop_all zero [] h = refl
drop_all (suc n) [] h = refl
drop_all zero (x ∷ xs) h = absurd (omega arith)
drop_all (suc n) (x ∷ xs) h = drop_all n xs (omega arith)

module _ (id : ℕ) where
  pub OfType-take : (k : ℕ) (os : List InformationObject) → OfType id os → OfType id (take k os)
  OfType-take zero os h = tt
  OfType-take (suc k) [] h = tt
  OfType-take (suc k) (o ∷ os) h = (h.0, OfType-take k os h.1)

  pub OfType-drop : (k : ℕ) (os : List InformationObject) → OfType id os → OfType id (drop k os)
  OfType-drop zero os h = h
  OfType-drop (suc k) [] h = tt
  OfType-drop (suc k) (o ∷ os) h = OfType-drop k os h.1

  pub OfType-map :
      (create : LegacyPoint → InformationObject)
      → ((p : LegacyPoint) → object_type (create p) ≡ id)
      → (ps : List LegacyPoint) → OfType id (map create ps)
  OfType-map create made [] = tt
  OfType-map create made (p ∷ ps) = (made p, OfType-map create made ps)

  -- Of more objects than fit, a new ASDU takes the first.
  pub add_all-takes :
      (enc : Encoder) (os : List InformationObject) (c : Cot) (oa ca k : ℕ)
      → OfType id os
      → 0 < k
      → k ≤ 127
      → k < length os
      → header_size + payload false k (enc.data_size id) ≤ enc.max_size
      → enc.max_size < header_size + payload false (k + 1) (enc.data_size id)
      → add_all enc (create_asdu false c oa ca) os
        ≡ record (create_asdu false c oa ca) { elements = take k os }
  add_all-takes enc os c oa ca k t pos few more fits over =
      let new = create_asdu false c oa ca in
      let len : length (take k os) ≡ k = omega (arith, length-take k os) in
      let full : Asdu = record new { elements = take k os } in
      let first : add_all enc new (take k os) ≡ full =
        add_all-fits enc id (take k os) new refl tt (OfType-take k os t) (omega (arith, len))
          (rw len (omega (arith, fits))) in
      let rest : add_all enc full (drop k os) ≡ full =
        add_all-full enc id (drop k os) full refl (omega (arith, len)) (OfType-drop k os t)
          (rw len over) in
      ap (add_all enc new) (sym (take-append-drop k os))
      ∙ add_all-append enc (take k os) (drop k os) new
      ∙ ap (λ a. add_all enc a (drop k os)) first
      ∙ rest

-- Not every point of a type reaches the client: the block of a type, whose objects have the type
-- identification `id`, sends one ASDU with its first k points, and no other, if an ASDU has room for
-- k of these objects and not for k + 1, with k from 1 to 127, and if the type has more than k points
-- and no more than the handler plans for an ASDU.
pub send_section-loses :
    (enc : Encoder) (ca id k : ℕ) (s : Section) (ps : List LegacyPoint)
    → ((p : LegacyPoint) → object_type (s.create p) ≡ id)
    → 0 < k
    → k ≤ 127
    → k < length ps
    → length ps ≤ calc_max_ioas enc.max_size s.ioa_size
    → header_size + payload false k (enc.data_size id) ≤ enc.max_size
    → enc.max_size < header_size + payload false (k + 1) (enc.data_size id)
    → send_section enc ca s ps
      ≡ some (
          record (create_asdu false interrogated_by_station ca ca) {
            elements = take k (map s.create ps);
          }
          ∷ [])
unfolding send_section send_plain cons_sent
send_section-loses enc ca id k s [] made pos few more planned fits over = absurd (omega arith)
send_section-loses enc ca id k s (p ∷ ps) made pos few more planned fits over =
    let os = map s.create (p ∷ ps) in
    let len : length os ≡ suc (length ps) = length-map (p ∷ ps) s.create in
    let new = create_asdu false interrogated_by_station ca ca in
    let all = take_all (calc_max_ioas enc.max_size s.ioa_size) os (omega (arith, len)) in
    let nothing = drop_all (calc_max_ioas enc.max_size s.ioa_size) os (omega (arith, len)) in
    let taken =
      add_all-takes id enc os interrogated_by_station ca ca k (OfType-map id s.create made (p ∷ ps))
        pos few (omega (arith, len)) fits over in
    rw (all, nothing) (ap (λ a. some (a ∷ [])) taken)
