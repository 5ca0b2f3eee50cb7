-- ===== src/Input/Apart.antt =====
-- How often `input_handler_process_line` puts a point into the queue while no client is connected.
use iec104_server_and_modbus.Base.{
  ℕ, ◌<◌, ◌≡◌, ◌≢◌, refl, ap, ◌∙◌, Bool, true, false, not, ◌&&◌, Option, none, some, List, [], ◌∷◌,
  All, get_elem?, if_intro, ◌==◌, sub_u64, arith, Bool-cases, Option-cases, inl, inr,
}
use iec104_server_and_modbus.Cfloat.{FloatUnit}
use iec104_server_and_modbus.Globals.{Globals}
use iec104_server_and_modbus.Data.Types.{DataValue, DataTypeInfo}
use iec104_server_and_modbus.Data.Manager.{
  DataTypeContext, entries, find_ioa_index, is_client_connected, offline_window,
}
use iec104_server_and_modbus.Input.Tracking.{Tracking, stamp_changed, track_at, offline_enqueue}
use iec104_server_and_modbus.Input.Stamps.{
  Stamped, track-Stamped_same, track-Stamped_other, track-Stamped, track-fails, stamp_changed-true,
  stamp_changed-soon, stamp_changed-kept,
}

-- A call of `offline_enqueue`: the type, its context, the slave, the time, the address and the
-- value.
pub record Enqueue : Type 0 where
  pub type_id : ℕ
  pub info : Option DataTypeInfo
  pub context : DataTypeContext
  pub slave : Option ℕ
  pub current : ℕ
  pub ioa : ℕ
  pub value : DataValue

module _ (f : FloatUnit) (g : Globals) where
  abbrev pub queue_call : Enqueue → List Tracking → Bool × List Tracking
  queue_call c table =
      offline_enqueue f g c.type_id c.info c.context c.slave c.current c.ioa c.value table

  -- The table after some calls.
  abbrev pub after_enqueues : List Enqueue → List Tracking → List Tracking
  after_enqueues [] table = table
  after_enqueues (c ∷ cs) table = after_enqueues cs (queue_call c table).1

  -- The call comes within the offline window after `t`.
  abbrev pub IsSoon : ℕ → Enqueue → Type 0
  IsSoon t c = sub_u64 c.current t < offline_window f g

  -- Whether the handler searches the table.
  abbrev is_queued : DataTypeInfo → Option ℕ → Bool
  is_queued info slave =
      not info.has_time_tag
      && (not (is_client_connected slave) && not (info.offline_equivalent == 0))

  track_at-Stamped :
      (type_id idx t : ℕ) (other : ℕ) (info : DataTypeInfo) (c : DataTypeContext) (u : ℕ)
      (k : Option ℕ) (v : DataValue) (table : List Tracking)
      → type_id ≢ 0
      → sub_u64 u t < offline_window f g
      → Stamped type_id idx t table
      → Stamped type_id idx t (track_at f g other info c u k v table).1
  unfolding track_at
  track_at-Stamped type_id idx t other info c u none v table real soon h = h
  track_at-Stamped type_id idx t other info c u (some k) v table real soon h =
      elim (Bool-cases (other == type_id)) [
        | inl hit ↦
            let same : other ≡ type_id = ground arith in
            rw same (
              track-Stamped_same type_id idx t c.config.count
                (stamp_changed f g info u k (get_elem? (entries c.data_array) k) v) table
                (λ ts at. stamp_changed-kept f g info t u idx k _ v ts at soon) h)
        | inr miss ↦
            track-Stamped_other type_id idx t other c.config.count
              (stamp_changed f g info u k (get_elem? (entries c.data_array) k) v) table
              (ground arith) real h
      ]

  enqueue-Stamped :
      (type_id idx t : ℕ) (c : Enqueue) (table : List Tracking)
      → type_id ≢ 0
      → IsSoon t c
      → Stamped type_id idx t table
      → Stamped type_id idx t (queue_call c table).1
  unfolding offline_enqueue
  enqueue-Stamped type_id idx t c table real soon h = elim (Option-cases c.info) [
    | inl unknown ↦ rw (unknown, offline_enqueue) h
    | inr (info, e) ↦
        rw (e, offline_enqueue)
          (if_intro (λ (r : Bool × List Tracking). Stamped type_id idx t r.1)
            (is_queued info c.slave) _ _
            (track_at-Stamped type_id idx t c.type_id info c.context c.current
              (find_ioa_index c.context.config c.ioa) c.value table real soon h)
            h)
  ]

  after_enqueues-Stamped :
      (type_id idx t : ℕ) (cs : List Enqueue) (table : List Tracking)
      → type_id ≢ 0
      → All (IsSoon t) cs
      → Stamped type_id idx t table
      → Stamped type_id idx t (after_enqueues cs table)
  after_enqueues-Stamped type_id idx t [] table real soon h = h
  after_enqueues-Stamped type_id idx t (c ∷ cs) table real soon h =
      after_enqueues-Stamped type_id idx t cs (queue_call c table).1 real soon.1
        (enqueue-Stamped type_id idx t c table real soon.0 h)

  -- A search that succeeds leaves the time at the index of the address.
  offline_enqueue-Stamped :
      (type_id : ℕ) (info : Option DataTypeInfo) (c : DataTypeContext) (slave : Option ℕ)
      (t ioa : ℕ) (v : DataValue) (table : List Tracking)
      → (offline_enqueue f g type_id info c slave t ioa v table).0 ≡ true
      → (idx : ℕ) × (find_ioa_index c.config ioa ≡ some idx)
        × Stamped type_id idx t (offline_enqueue f g type_id info c slave t ioa v table).1
  unfolding offline_enqueue track_at
  offline_enqueue-Stamped type_id none c slave t ioa v table h = absurd (ground arith)
  offline_enqueue-Stamped type_id (some info) c slave t ioa v table h =
      elim (Bool-cases (is_queued info slave)) [
        | inr off ↦ let never : false ≡ true = rw off at h in absurd (ground arith)
        | inl on ↦ elim (Option-cases (find_ioa_index c.config ioa)) [
          | inl unknown ↦
              let never : false ≡ true = rw (on, unknown, track_at) at h in absurd (ground arith)
          | inr (idx, found) ↦ (
            idx,
            found,
            rw (on, found, track_at)
                (track-Stamped type_id idx t c.config.count _ table
                  (λ ts. stamp_changed-true f g info t idx _ v ts) (rw (on, found, track_at) at h)),
          )
        ]
      ]

  offline_enqueue-Stamped_fails :
      (type_id : ℕ) (info : Option DataTypeInfo) (d : DataTypeContext) (slave : Option ℕ)
      (idx t u ioa : ℕ) (w : DataValue) (table : List Tracking)
      → find_ioa_index d.config ioa ≡ some idx
      → sub_u64 u t < offline_window f g
      → Stamped type_id idx t table
      → (offline_enqueue f g type_id info d slave u ioa w table).0 ≡ false
  unfolding offline_enqueue track_at
  offline_enqueue-Stamped_fails type_id none d slave idx t u ioa w table found soon h = refl
  offline_enqueue-Stamped_fails type_id (some info) d slave idx t u ioa w table found soon h =
      if_intro (λ (r : Bool × List Tracking). r.0 ≡ false) (is_queued info slave) _ _
        (rw (found, track_at)
          (track-fails type_id idx t d.config.count _ table
            (λ ts at. stamp_changed-soon f g info t u idx _ w ts at soon) h))
        refl

  -- If a point without a time tag was put into the offline queue at time `t`, no value of it is put
  -- there again within the window after that. Between the two calls there may be any calls of
  -- `offline_enqueue` within the window, of this and other points and types, with whatever values
  -- and contexts, with or without a client. The context of the point keeps its configuration, the
  -- number of its type is not 0, and the time that is over is computed in 64 bits.
  pub offline_enqueue_twice :
      (type_id : ℕ) (info info' : Option DataTypeInfo) (c d : DataTypeContext)
      (slave slave' : Option ℕ) (t u ioa : ℕ) (v w : DataValue) (table : List Tracking)
      (calls : List Enqueue)
      → type_id ≢ 0
      → d.config ≡ c.config
      → (offline_enqueue f g type_id info c slave t ioa v table).0 ≡ true
      → All (IsSoon t) calls
      → sub_u64 u t < offline_window f g
      → (offline_enqueue f g type_id info' d slave' u ioa w
          (after_enqueues calls (offline_enqueue f g type_id info c slave t ioa v table).1)).0
        ≡ false
  offline_enqueue_twice type_id info info' c d slave slave' t u ioa v w table calls real same sent
        within soon =
      let first = offline_enqueue f g type_id info c slave t ioa v table in
      let (idx, found, stamped) = offline_enqueue-Stamped type_id info c slave t ioa v table sent in
      offline_enqueue-Stamped_fails type_id info' d slave' idx t u ioa w
        (after_enqueues calls first.1) (ap (λ i. find_ioa_index i ioa) same ∙ found) soon
        (after_enqueues-Stamped type_id idx t calls first.1 real within stamped)
