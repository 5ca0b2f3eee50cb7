-- ===== src/Interrogation/Complete.antt =====
-- The interrogation of a type sends each of its points once, in order.
use iec104_server_and_modbus.Base.{
  ℕ, zero, suc, ◌+◌, ◌≤◌, ◌<◌, ◌≡◌, ◌⊎◌, inl, inr, refl, ap, sym, ◌∙◌, Bool, true, false, Option,
  none, some, List, [], ◌∷◌, ◌++◌, All, All-append, length, take, drop, length-take, length-drop,
  leb, ltb, if◌then◌else◌, arith, append_assoc, subst, Bool-cases, take-append-drop,
}
use iec104_server_and_modbus.Iec.{Asdu, InformationObject, Cot, create_asdu}
use iec104_server_and_modbus.Data.Types.{DataValue}
use iec104_server_and_modbus.Interrogation.Objects.{create_io_for_type, IsObject}
use iec104_server_and_modbus.Interrogation.Encoder.{Encoder, header_size, payload}
use iec104_server_and_modbus.Interrogation.Blocks.{
  Point, calc_max_ioas_sq1, get_io_size_no_ioa, run_length, add_points, send_chunks, send_run,
  cons_sent, append_sent, send_blocks,
}
use iec104_server_and_modbus.Interrogation.Chunks.{
  payload_mono, Consecutive, Consecutive-take, Consecutive-drop, objects, objects-append,
  add_points_lem,
}
use iec104_server_and_modbus.Interrogation.Fits.{
  sq0_fits, sq1_fits, at_most, InRange, run_length-Consecutive, InRange-drop,
}

-- The objects of some ASDUs, in the order in which they are sent.
unfoldable pub sent_objects : List Asdu → List InformationObject
sent_objects [] = []
sent_objects (a ∷ sent) = a.elements ++ sent_objects sent

pub sent_objects-append :
    (xs ys : List Asdu) → sent_objects (xs ++ ys) ≡ sent_objects xs ++ sent_objects ys
unfolding sent_objects
sent_objects-append [] ys = refl
sent_objects-append (a ∷ xs) ys =
    ap (◌++◌ a.elements) (sent_objects-append xs ys) ∙ sym (append_assoc a.elements _ _)

-- The header of an ASDU that the server sends.
abbrev pub HasHeader : Cot → ℕ → Asdu → Type 0
HasHeader cot ca a = (a.cot ≡ cot) × (a.oa ≡ 0) × (a.ca ≡ ca)

-- The loop has ended, and what it sent has that header and holds these objects.
abbrev pub Delivers : Cot → ℕ → List InformationObject → Option (List Asdu) → Type 0
Delivers cot ca os none = ⊥
Delivers cot ca os (some sent) = (sent_objects sent ≡ os) × All (HasHeader cot ca) sent

pub append_sent-Delivers :
    (cot : Cot) (ca : ℕ) (os ps : List InformationObject) (xs ys : Option (List Asdu))
    → Delivers cot ca os xs
    → Delivers cot ca ps ys
    → Delivers cot ca (os ++ ps) (append_sent xs ys)
unfolding append_sent
append_sent-Delivers cot ca os ps none ys h k = h
append_sent-Delivers cot ca os ps (some xs) none h k = k
append_sent-Delivers cot ca os ps (some xs) (some ys) h k =
    (sent_objects-append xs ys ∙ (λ i. h.0 i ++ k.0 i), All-append (HasHeader cot ca) xs ys h.1 k.1)

take_all : {A : Type 0} (n : ℕ) (xs : List A) → length xs ≤ n → take (length xs) xs ≡ take n xs
take_all n [] h = take-nil n
  where
    take-nil : {A : Type 0} (n : ℕ) → [] ≡ take {A = A} n []
    take-nil zero = refl
    take-nil (suc n) = refl
take_all zero (x ∷ xs) h = absurd (omega arith)
take_all (suc n) (x ∷ xs) h = ap (◌∷◌ x) (take_all n xs (omega arith))

module _ (enc : Encoder) (type_id : ℕ)
    (made : (ioa : ℕ) (v : DataValue) → IsObject type_id ioa (create_io_for_type type_id ioa v))
    (cot : Cot) (ca : ℕ) where
  cons_sent-Delivers :
      (s : Bool) (os qs : List InformationObject) (a : Asdu) (r : Option (List Asdu))
      → a ≡ record (create_asdu s cot 0 ca) { elements = os }
      → Delivers cot ca qs r
      → Delivers cot ca (os ++ qs) (cons_sent a r)
  unfolding cons_sent sent_objects
  cons_sent-Delivers s os qs a none e h = h
  cons_sent-Delivers s os qs a (some sent) e h = (
    (λ i. (e i).elements ++ h.0 i),
    ((ap (λ b. b.cot) e, ap (λ b. b.oa) e, ap (λ b. b.ca) e), h.1),
  )

  chunk-eq-take :
      (m : ℕ) (xs : List Point) → take (if ltb m (length xs) then m else length xs) xs ≡ take m xs
  chunk-eq-take m xs = elim (Bool-cases (ltb m (length xs))) [
    | inl more ↦ rw more refl
    | inr last ↦ rw last (take_all m xs (ground arith))
  ]

  -- One round of the loop: a chunk that fits, and then the rest.
  chunk-Delivers :
      (s : Bool) (m ioa : ℕ) (xs : List Point) (r : Option (List Asdu))
      → (m ≤ 127) ⊎ (length xs ≤ 127)
      → header_size + payload s m (enc.data_size type_id) ≤ enc.max_size
      → (s ≡ true → Consecutive ioa xs)
      → Delivers cot ca (objects type_id (drop m xs)) r
      → Delivers cot ca (objects type_id xs) (
          cons_sent
            (add_points enc type_id
              (create_asdu s cot 0 ca)
              (take (if ltb m (length xs) then m else length xs) xs))
            r)
  chunk-Delivers s m ioa xs r small fits run h =
      let full =
        add_points_lem enc type_id made s (take m xs) (create_asdu s cot 0 ca) ioa
          (length (take m xs)) refl (λ on. Consecutive-take m ioa xs (run on)) tt (omega arith)
          (omega (arith, length-take m xs))
          (omega (
            arith,
            length-take m xs,
            payload_mono s (length (take m xs)) m (enc.data_size type_id),
          )) in
      let parts =
        sym (objects-append enc type_id made (take m xs) (drop m xs))
        ∙ ap (objects type_id) (take-append-drop m xs) in
      rw (chunk-eq-take m xs) (
        subst
          (λ os.
            Delivers cot ca os
              (cons_sent (add_points enc type_id (create_asdu s cot 0 ca) (take m xs)) r))
          parts
          (cons_sent-Delivers s (objects type_id (take m xs)) (objects type_id (drop m xs))
            (add_points enc type_id (create_asdu s cot 0 ca) (take m xs)) r full h))

  -- Chunks that fit deliver the objects of their points.
  send_chunks-Delivers :
      (s : Bool) (fuel m ioa : ℕ) (ps : List Point)
      → 0 < m
      → (m ≤ 127) ⊎ (length ps ≤ 127)
      → header_size + payload s m (enc.data_size type_id) ≤ enc.max_size
      → length ps ≤ fuel
      → (s ≡ true → Consecutive ioa ps)
      → Delivers cot ca
          (objects type_id ps)
          (send_chunks enc type_id fuel (create_asdu s cot 0 ca) m ps)
  unfolding send_chunks objects sent_objects
  send_chunks-Delivers s fuel m ioa [] pos small fits fuel_ok run = (refl, tt)
  send_chunks-Delivers s zero m ioa (p ∷ ps) pos small fits fuel_ok run = absurd (omega arith)
  send_chunks-Delivers s (suc fuel) m ioa (p ∷ ps) pos small fits fuel_ok run =
      chunk-Delivers s m ioa (p ∷ ps) _ small fits run (
        send_chunks-Delivers s fuel m (ioa + m) (drop m (p ∷ ps)) pos
          (omega (arith, length-drop m (p ∷ ps))) fits (omega (arith, length-drop m (p ∷ ps)))
          (λ on. Consecutive-drop m ioa (ioa + m) (p ∷ ps) refl (run on)))

  few :
      (m io_size : ℕ) (run : List Point)
      → enc.data_size type_id + 3 ≡ io_size
      → enc.max_size ≤ 249
      → (5 ≤ io_size) ⊎ (length run ≤ 127)
      → header_size + payload true m (enc.data_size type_id) ≤ enc.max_size
      → (m ≤ 127) ⊎ (length run ≤ 127)
  few m io_size run e max (inl wide) fits =
      inl (omega (arith, at_most m (enc.data_size type_id) (omega arith) (omega arith)))
  few m io_size run e max (inr short) fits = inr short

  -- A run of points delivers their objects, if it counts up or is too short to be a sequence.
  send_run-Delivers :
      (io_size ioa : ℕ) (run : List Point)
      → enc.data_size type_id + 3 ≡ io_size
      → 0 < enc.data_size type_id
      → 6 + io_size ≤ enc.max_size
      → enc.max_size ≤ 249
      → (5 ≤ io_size) ⊎ (length run ≤ 127)
      → Consecutive ioa run
      → Delivers cot ca (objects type_id run) (send_run enc type_id io_size cot ca run)
  unfolding send_run
  send_run-Delivers io_size ioa run e pos h max small up = elim (Bool-cases (leb 3 (length run))) [
    | inl long ↦
        let fits = sq1_fits enc.max_size (enc.data_size type_id) io_size e pos h in
        rw long (
          send_chunks-Delivers true (length run) _ ioa run fits.0
            (few (calc_max_ioas_sq1 enc.max_size io_size (get_io_size_no_ioa io_size)) io_size run e
              max small fits.1)
            fits.1 (omega arith) (λ _. up))
    | inr short ↦
        let fits = sq0_fits enc.max_size (enc.data_size type_id) io_size e h in
        rw short (
          send_chunks-Delivers false (length run) _ ioa run fits.0 (inr (ground arith)) fits.1
            (omega arith) (λ off. cc))
  ]

  -- One round of the outer loop.
  block-Delivers :
      (a : ℕ) (v : DataValue) (ps : List Point) (io_size : ℕ) (r : Option (List Asdu))
      → enc.data_size type_id + 3 ≡ io_size
      → 0 < enc.data_size type_id
      → 6 + io_size ≤ enc.max_size
      → enc.max_size ≤ 249
      → (5 ≤ io_size) ⊎ (length ((a, v) ∷ ps) ≤ 127)
      → InRange ((a, v) ∷ ps)
      → Delivers cot ca (objects type_id (drop (suc (run_length a ps)) ((a, v) ∷ ps))) r
      → Delivers cot ca (objects type_id ((a, v) ∷ ps)) (
          append_sent
            (send_run enc type_id io_size cot ca (take (suc (run_length a ps)) ((a, v) ∷ ps)))
            r)
  block-Delivers a v ps io_size r e pos h max small range rest =
      let n = suc (run_length a ps) in
      let xs : List Point = (a, v) ∷ ps in
      let parts =
        sym (objects-append enc type_id made (take n xs) (drop n xs))
        ∙ ap (objects type_id) (take-append-drop n xs) in
      let run =
        send_run-Delivers io_size a (take n xs) e pos h max (omega (arith, length-take n xs))
          (refl, run_length-Consecutive a ps range.0 range.1) in
      subst
        (λ os. Delivers cot ca os (append_sent (send_run enc type_id io_size cot ca (take n xs)) r))
        parts
        (append_sent-Delivers cot ca (objects type_id (take n xs)) (objects type_id (drop n xs))
          (send_run enc type_id io_size cot ca (take n xs)) r run rest)

  -- The whole loop delivers the objects of all points; fuel for one round a point is enough.
  pub send_blocks-Delivers :
      (fuel io_size : ℕ) (ps : List Point)
      → enc.data_size type_id + 3 ≡ io_size
      → 0 < enc.data_size type_id
      → 6 + io_size ≤ enc.max_size
      → enc.max_size ≤ 249
      → (5 ≤ io_size) ⊎ (length ps ≤ 127)
      → InRange ps
      → length ps ≤ fuel
      → Delivers cot ca (objects type_id ps) (send_blocks enc type_id fuel io_size cot ca ps)
  unfolding send_blocks objects sent_objects
  send_blocks-Delivers fuel io_size [] e pos h max small range fuel_ok = (refl, tt)
  send_blocks-Delivers zero io_size (p ∷ ps) e pos h max small range fuel_ok = absurd (omega arith)
  send_blocks-Delivers (suc fuel) io_size ((a, v) ∷ ps) e pos h max small range fuel_ok =
      let n = suc (run_length a ps) in
      block-Delivers a v ps io_size _ e pos h max small range (
        send_blocks-Delivers fuel io_size (drop n ((a, v) ∷ ps)) e pos h max
          (omega (arith, length-drop n ((a, v) ∷ ps))) (InRange-drop n ((a, v) ∷ ps) range)
          (omega (arith, length-drop n ((a, v) ∷ ps))))
