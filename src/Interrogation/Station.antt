-- ===== src/Interrogation/Station.antt =====
-- `interrogationHandler` of json-iec104-server/src/protocol/interrogation.c.
use iec104_server_and_modbus.Base.{
  ℕ, suc, ◌+◌, ◌≤◌, ◌≡◌, ◌≢◌, ◌⊎◌, inl, inr, refl, ap, ◌∙◌, Bool, true, false, Option, none, some,
  List, [], ◌∷◌, ◌++◌, map, All, length, ltb, ◌==◌, if◌then◌else◌, arith, Bool-cases,
}
use iec104_server_and_modbus.Iec.{Asdu, Cot, InformationObject, address, interrogated_by_station}
use iec104_server_and_modbus.Data.Types.{
  DataValue, DataTypeInfo, get_data_type_info, data_type_table,
}
use iec104_server_and_modbus.Data.Types.Lookup.{get_data_type_info-All}
use iec104_server_and_modbus.Data.Manager.{DataTypeContext, entries}
use iec104_server_and_modbus.Data.Manager.Valid.{IsValid}
use iec104_server_and_modbus.Interrogation.Objects.{create_io_for_type_lem}
use iec104_server_and_modbus.Interrogation.Encoder.{Encoder, HasTableSizes}
use iec104_server_and_modbus.Interrogation.Blocks.{
  Point, zip_points, points, append_sent, send_blocks, send_interrogation_for_type,
}
use iec104_server_and_modbus.Interrogation.Chunks.{objects, addresses-objects}
use iec104_server_and_modbus.Interrogation.Complete.{
  sent_objects, append_sent-Delivers, HasHeader, Delivers, send_blocks-Delivers,
}
use iec104_server_and_modbus.Interrogation.Fits.{InRange}

-- `IMasterConnection_sendACT_CON(connection, asdu, negative)`, `IMasterConnection_sendACT_TERM` and
-- `IMasterConnection_sendASDU`.
pub data Sent : Type 0 where
  act_con : Bool → Sent
  act_term : Sent
  asdu : Asdu → Sent

-- The contexts in turn. `none` means that a loop ran out of fuel.
unfoldable pub send_all : Encoder → ℕ → List DataTypeContext → Option (List Asdu)
unfolding append_sent send_interrogation_for_type
send_all enc ca [] = some []
send_all enc ca (c ∷ cs) = append_sent (send_interrogation_for_type enc ca c) (send_all enc ca cs)

-- What is sent, in order, and the result.
unfoldable pub interrogation_handler :
    Encoder → ℕ → List DataTypeContext → ℕ → Option (List Sent × Bool)
unfolding send_all
interrogation_handler enc ca contexts qoi =
    if qoi == 20
    then elim (send_all enc ca contexts) [
      | none ↦ none
      | some sent ↦ some (act_con false ∷ (map asdu sent ++ (act_term ∷ [])), true)
    ]
    else some (act_con true ∷ [], false)

-- What the loops need of a context: it is valid, its information is that of its type in the table,
-- its addresses have three bytes, and its points fit the sequences of lib60870: an object takes 5
-- bytes at least, or there are at most 127 of them.
pub record IsServed (c : DataTypeContext) : Type 0 where
  pub valid : IsValid c
  pub known : get_data_type_info c.type_id ≡ some c.type_info
  pub range : InRange (points c)
  pub few : (5 ≤ c.type_info.io_size) ⊎ (c.config.count ≤ 127)

length-zip_points :
    (as' : List ℕ) (vs : List DataValue)
    → length as' ≡ length vs
    → length (zip_points as' vs) ≡ length as'
length-zip_points [] vs e = refl
length-zip_points (a ∷ as') [] e = absurd (omega arith)
length-zip_points (a ∷ as') (v ∷ vs) e = ap suc (length-zip_points as' vs (omega arith))

addresses-zip_points :
    (as' : List ℕ) (vs : List DataValue)
    → length as' ≡ length vs
    → map (λ p. p.0) (zip_points as' vs) ≡ as'
addresses-zip_points [] vs e = refl
addresses-zip_points (a ∷ as') [] e = absurd (omega arith)
addresses-zip_points (a ∷ as') (v ∷ vs) e = ap (◌∷◌ a) (addresses-zip_points as' vs (omega arith))

pub length-points : (c : DataTypeContext) → IsServed c → length (points c) ≡ c.config.count
length-points c s =
    length-zip_points (entries c.config.ioa_list) (entries c.data_array)
      (omega (arith, s.valid.addresses, s.valid.values))
    ∙ s.valid.addresses

-- The objects of a context, one for each point.
abbrev pub context_objects : DataTypeContext → List InformationObject
context_objects c = objects c.type_id (points c)

io_sizes : All (λ (t : DataTypeInfo). (4 ≤ t.io_size) × (t.io_size ≤ 15)) data_type_table
io_sizes = omega arith

-- The objects of all contexts, in order.
abbrev pub station_objects : List DataTypeContext → List InformationObject
station_objects [] = []
station_objects (c ∷ cs) = context_objects c ++ station_objects cs

-- The configured addresses of all contexts, in order.
abbrev pub station_addresses : List DataTypeContext → List ℕ
station_addresses [] = []
station_addresses (c ∷ cs) = entries c.config.ioa_list ++ station_addresses cs

objects-no_points :
    (type_id : ℕ) (ps : List Point) → length ps ≡ 0 → sent_objects [] ≡ objects type_id ps
unfolding objects sent_objects
objects-no_points type_id [] e = refl
objects-no_points type_id (p ∷ ps) e = absurd (omega arith)

addresses-context_objects :
    (enc : Encoder) (c : DataTypeContext)
    → IsServed c
    → map address (context_objects c) ≡ entries c.config.ioa_list
addresses-context_objects enc c s =
    addresses-objects enc c.type_id
      (λ ioa v. create_io_for_type_lem c.type_id ioa c.type_info v s.known) (points c)
    ∙ addresses-zip_points (entries c.config.ioa_list) (entries c.data_array)
        (omega (arith, s.valid.addresses, s.valid.values))

map-append-address :
    (xs ys : List InformationObject) → map address (xs ++ ys) ≡ map address xs ++ map address ys
map-append-address [] ys = refl
map-append-address (x ∷ xs) ys = ap (◌∷◌ (address x)) (map-append-address xs ys)

addresses-station_objects :
    (enc : Encoder) (cs : List DataTypeContext)
    → All IsServed cs
    → map address (station_objects cs) ≡ station_addresses cs
addresses-station_objects enc [] h = refl
addresses-station_objects enc (c ∷ cs) h =
    map-append-address (context_objects c) (station_objects cs)
    ∙ (λ i. addresses-context_objects enc c h.0 i ++ addresses-station_objects enc cs h.1 i)

module _ (enc : Encoder) (sizes : HasTableSizes enc) (fits : 21 ≤ enc.max_size)
    (max : enc.max_size ≤ 249) (ca : ℕ) where
  -- The loops over the points of a context end, and deliver the object of each point once, in
  -- order.
  pub send_context-Delivers :
      (cot : Cot) (c : DataTypeContext)
      → IsServed c
      → Delivers cot ca
          (context_objects c)
          (send_blocks enc c.type_id c.config.count c.type_info.io_size cot ca (points c))
  send_context-Delivers cot c s =
      let size =
        get_data_type_info-All (λ t. enc.data_size t.type_id + 3 ≡ t.io_size) c.type_id
          {t = c.type_info} sizes s.known in
      let bounds =
        get_data_type_info-All (λ t. (4 ≤ t.io_size) × (t.io_size ≤ 15)) c.type_id {t = c.type_info}
          io_sizes s.known in
      let n = length-points c s in
      let e : enc.data_size c.type_id + 3 ≡ c.type_info.io_size = rw size.1 at size.0 in
      send_blocks-Delivers enc c.type_id
        (λ ioa v. create_io_for_type_lem c.type_id ioa c.type_info v s.known) cot ca c.config.count
        c.type_info.io_size (points c) e (omega (arith, e, bounds.0)) (omega (arith, bounds.0)) max
        (omega (arith, s.few, n)) s.range (omega (arith, n))

  send_interrogation_for_type-Delivers :
      (c : DataTypeContext)
      → IsServed c
      → Delivers interrogated_by_station ca
          (context_objects c)
          (send_interrogation_for_type enc ca c)
  unfolding send_interrogation_for_type
  send_interrogation_for_type-Delivers c s = elim (Bool-cases (ltb 0 c.config.count)) [
    | inl some_points ↦ rw some_points (send_context-Delivers interrogated_by_station c s)
    | inr no_points ↦
        let empty : c.config.count ≡ 0 = ground arith in
        rw no_points
          (objects-no_points c.type_id (points c) (omega (arith, empty, length-points c s)), tt)
  ]

  send_all-Delivers :
      (cs : List DataTypeContext)
      → All IsServed cs
      → Delivers interrogated_by_station ca (station_objects cs) (send_all enc ca cs)
  unfolding send_all sent_objects
  send_all-Delivers [] h = (refl, tt)
  send_all-Delivers (c ∷ cs) h =
      append_sent-Delivers interrogated_by_station ca (context_objects c) (station_objects cs)
        (send_interrogation_for_type enc ca c) (send_all enc ca cs)
        (send_interrogation_for_type-Delivers c h.0) (send_all-Delivers cs h.1)

  pub delivered :
      (cot : Cot) (os : List InformationObject) (r : Option (List Asdu))
      → Delivers cot ca os r
      → (sent : List Asdu) × (r ≡ some sent)
        × (sent_objects sent ≡ os)
        × All (HasHeader cot ca) sent
  delivered cot os none h = absurd h
  delivered cot os (some sent) h = (sent, refl, h.0, h.1)

  -- An interrogation of the station, with contexts as `IsServed` demands and an encoder with the
  -- sizes of the table and a maximum of 21 to 249 bytes, ends. It is confirmed, then ASDUs with the
  -- cause "interrogated by station" and the common address are sent, whose objects have exactly the
  -- configured addresses, each once and in order, and then it is terminated. Any other qualifier is
  -- refused and nothing else is sent.
  pub interrogation_handler_lem :
      (cs : List DataTypeContext) (qoi : ℕ)
      → All IsServed cs
      → ((qoi ≡ 20)
          × ((sent : List Asdu) × (interrogation_handler enc ca cs qoi
                ≡ some (act_con false ∷ (map asdu sent ++ (act_term ∷ [])), true))
              × (sent_objects sent ≡ station_objects cs)
              × (map address (sent_objects sent) ≡ station_addresses cs)
              × All (HasHeader interrogated_by_station ca) sent))
        ⊎ ((qoi ≢ 20) × (interrogation_handler enc ca cs qoi ≡ some (act_con true ∷ [], false)))
  unfolding interrogation_handler
  interrogation_handler_lem cs qoi h = elim (Bool-cases (qoi == 20)) [
    | inl station ↦
        let (sent, e, objs, heads) =
          delivered interrogated_by_station (station_objects cs) (send_all enc ca cs)
            (send_all-Delivers cs h) in
        let known : qoi ≡ 20 = ground arith in
        inl (
          known,
          (
            sent,
            rw (station, e) refl,
            objs,
            (λ i. map address (objs i)) ∙ addresses-station_objects enc cs h,
            heads,
          ),
        )
    | inr other ↦ let unknown : qoi ≢ 20 = ground arith in inr (unknown, rw other refl)
  ]
