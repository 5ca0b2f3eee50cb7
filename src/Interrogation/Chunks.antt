-- ===== src/Interrogation/Chunks.antt =====
-- An ASDU of json-iec104-server/src/protocol/interrogation.c takes all the objects of its chunk.
use iec104_server_and_modbus.Base.{
  ℕ, zero, suc, ◌+◌, ◌≤◌, ◌<◌, ◌≡◌, refl, ap, sym, ◌∙◌, Bool, true, false, Option, none, some, List,
  [], ◌∷◌, ◌++◌, map, length, take, drop, length-append, arith, append-nil, append_assoc, subst,
}
use iec104_server_and_modbus.Iec.{Asdu, InformationObject, address, object_type}
use iec104_server_and_modbus.Data.Types.{DataValue}
use iec104_server_and_modbus.Interrogation.Objects.{create_io_for_type, IsObject}
use iec104_server_and_modbus.Interrogation.Encoder.{Encoder, header_size, payload, accepts_after}
use iec104_server_and_modbus.Interrogation.Blocks.{Point, add_points}

pub payload_mono : (s : Bool) (k n size : ℕ) → k ≤ n → payload s k size ≤ payload s n size
payload_mono true k n size h = grind arith
payload_mono false k n size h = grind arith

-- The addresses count up from `ioa`.
abbrev pub Consecutive : ℕ → List Point → Type 0
Consecutive ioa [] = Unit {0}
Consecutive ioa ((a, v) ∷ ps) = (a ≡ ioa) × Consecutive (ioa + 1) ps

pub Consecutive-take :
    (n ioa : ℕ) (ps : List Point) → Consecutive ioa ps → Consecutive ioa (take n ps)
Consecutive-take zero ioa ps h = tt
Consecutive-take (suc n) ioa [] h = tt
Consecutive-take (suc n) ioa ((a, v) ∷ ps) h = (h.0, Consecutive-take n (ioa + 1) ps h.1)

pub Consecutive-drop :
    (n ioa j : ℕ) (ps : List Point) → j ≡ ioa + n → Consecutive ioa ps → Consecutive j (drop n ps)
Consecutive-drop zero ioa j ps e h =
    let e' : ioa ≡ j = omega arith in subst (λ k. Consecutive k ps) e' h
Consecutive-drop (suc n) ioa j [] e h = tt
Consecutive-drop (suc n) ioa j ((a, v) ∷ ps) e h =
    Consecutive-drop n (ioa + 1) j ps (omega arith) h.1

-- The objects that are created for the points of a type.
unfoldable pub objects : ℕ → List Point → List InformationObject
objects type_id [] = []
objects type_id ((ioa, v) ∷ ps) = elim (create_io_for_type type_id ioa v) [
  | none ↦ objects type_id ps
  | some io ↦ io ∷ objects type_id ps
]

module _ (enc : Encoder) (type_id : ℕ) where
  -- What an ASDU holds when the object with address `ioa` comes next.
  abbrev Expects : Bool → List InformationObject → ℕ → Type 0
  Expects s [] ioa = Unit {0}
  Expects s (first ∷ rest) ioa =
      (object_type first ≡ type_id) × (s ≡ true → ioa ≡ address first + length (first ∷ rest))

  accepts_next :
      (s : Bool) (els : List InformationObject) (ioa : ℕ) (io : InformationObject)
      → IsObject type_id ioa (some io)
      → Expects s els ioa
      → length els < 127
      → header_size + payload s (length els + 1) (enc.data_size type_id) ≤ enc.max_size
      → accepts_after (enc.data_size (object_type io)) enc.max_size s els io ≡ true
  accepts_next true [] ioa io is e n h = rw is.1 (ground arith)
  accepts_next false [] ioa io is e n h = rw is.1 (ground arith)
  accepts_next true (first ∷ rest) ioa io is e n h = let next = e.1 refl in rw is.1 (ground arith)
  accepts_next false (first ∷ rest) ioa io is e n h = rw is.1 (ground arith)

  Expects-next :
      (s : Bool) (els : List InformationObject) (ioa : ℕ) (io : InformationObject)
      → IsObject type_id ioa (some io)
      → Expects s els ioa
      → Expects s (els ++ (io ∷ [])) (ioa + 1)
  Expects-next s [] ioa io is e = (is.1, λ on. omega arith)
  Expects-next s (first ∷ rest) ioa io is e =
      (e.0, λ on. omega (arith, e.1 on, length-append rest (io ∷ [])))

  Expects-at :
      (s : Bool) (els : List InformationObject) (ioa a : ℕ)
      → (s ≡ true → a ≡ ioa)
      → Expects s els ioa
      → Expects s els a
  Expects-at s [] ioa a same e = tt
  Expects-at s (first ∷ rest) ioa a same e = (e.0, λ on. same on ∙ e.1 on)

  module _
      (made : (ioa : ℕ) (v : DataValue)
        → IsObject type_id ioa (create_io_for_type type_id ioa v)) where
    -- The object of a point.
    made-IsObject :
        (ioa : ℕ) (v : DataValue)
        → (io : InformationObject) × (create_io_for_type type_id ioa v ≡ some io)
          × IsObject type_id ioa (some io)
    made-IsObject ioa v = object (create_io_for_type type_id ioa v) (made ioa v)
      where
        object :
            (o : Option InformationObject)
            → IsObject type_id ioa o
            → (io : InformationObject) × (o ≡ some io) × IsObject type_id ioa (some io)
        object none h = absurd h
        object (some io) h = (io, refl, h)

    objects-cons :
        (ioa : ℕ) (v : DataValue) (io : InformationObject) (ps : List Point)
        → create_io_for_type type_id ioa v ≡ some io
        → objects type_id ((ioa, v) ∷ ps) ≡ io ∷ objects type_id ps
    unfolding objects
    objects-cons ioa v io ps e = rw (e, objects) refl

    pub length-objects : (ps : List Point) → length (objects type_id ps) ≡ length ps
    unfolding objects
    length-objects [] = refl
    length-objects ((ioa, v) ∷ ps) =
        let (io, e, _) = made-IsObject ioa v in
        rw (objects-cons ioa v io ps e) (ap suc (length-objects ps))

    pub addresses-objects : (ps : List Point) → map address (objects type_id ps) ≡ map (λ p. p.0) ps
    unfolding objects
    addresses-objects [] = refl
    addresses-objects ((ioa, v) ∷ ps) =
        let (io, e, is) = made-IsObject ioa v in
        rw (objects-cons ioa v io ps e, is.0) (ap (◌∷◌ ioa) (addresses-objects ps))

    pub objects-append :
        (ps qs : List Point) → objects type_id (ps ++ qs) ≡ objects type_id ps ++ objects type_id qs
    unfolding objects
    objects-append [] qs = refl
    objects-append ((ioa, v) ∷ ps) qs =
        let (io, e, _) = made-IsObject ioa v in
        rw (objects-cons ioa v io ps e, objects-cons ioa v io (ps ++ qs) e)
          (ap (◌∷◌ io) (objects-append ps qs))

    -- If the ASDU has room for all points, it gets all their objects, in order.
    pub add_points_lem :
        (s : Bool) (ps : List Point) (a : Asdu) (ioa n : ℕ)
        → a.is_sequence ≡ s
        → (s ≡ true → Consecutive ioa ps)
        → Expects s a.elements ioa
        → length a.elements + length ps ≤ n
        → n ≤ 127
        → header_size + payload s n (enc.data_size type_id) ≤ enc.max_size
        → add_points enc type_id a ps ≡ record a { elements = a.elements ++ objects type_id ps }
    unfolding add_points objects
    add_points_lem s [] a ioa n seq run e len small fits =
        λ i. record a { elements = sym (append-nil a.elements) i }
    add_points_lem s ((b, v) ∷ ps) a ioa n seq run e len small fits =
        let (io, made_io, is) = made-IsObject b v in
        let here = Expects-at s a.elements ioa b (λ on. (run on).0) e in
        let room =
          accepts_next s a.elements b io is here (omega arith)
            (omega (arith, payload_mono s (length a.elements + 1) n (enc.data_size type_id))) in
        let added = enc.add_accepted a io (rw seq room) in
        let a' : Asdu = record a { elements = a.elements ++ (io ∷ []) } in
        let later =
          add_points_lem s ps a' (ioa + 1) n seq (λ on. (run on).1)
            (Expects-at s a'.elements (b + 1) (ioa + 1) (λ on. ap (λ k. k + 1) (sym (run on).0))
              (Expects-next s a.elements b io is here))
            (omega (arith, length-append a.elements (io ∷ []))) small fits in
        rw (made_io, added, objects-cons b v io ps made_io)
          (later ∙ λ i. record a {
            elements = append_assoc a.elements (io ∷ []) (objects type_id ps) i;
          })
