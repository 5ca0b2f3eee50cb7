-- ===== src/Input/Queue.antt =====
-- What a line of input leaves behind: the contexts, and what is put into the queue.
use iec104_server_and_modbus.Base.{
  ℕ, ◌+◌, ◌≤◌, ◌≡◌, ◌≢◌, inl, inr, refl, sym, ap, ◌∙◌, String, Bool, true, false, Option, none,
  some, List, [], ◌∷◌, length, All, All-get_elem?, All-set, arith, Bool-cases,
}
use iec104_server_and_modbus.Cfloat.{FloatUnit}
use iec104_server_and_modbus.Globals.{Globals}
use iec104_server_and_modbus.Cjson.{Cjson}
use iec104_server_and_modbus.Iec.{InformationObject, object_type, create_asdu, spontaneous}
use iec104_server_and_modbus.Data.Types.{
  DataValue, DataTypeInfo, get_data_type_info, data_type_table,
}
use iec104_server_and_modbus.Data.Types.Lookup.{get_data_type_info-All}
use iec104_server_and_modbus.Data.Manager.{DataTypeContext, update_data}
use iec104_server_and_modbus.Data.Manager.Configured.{
  IsConfigured, update_data-IsConfigured, update_data_untimed,
}
use iec104_server_and_modbus.Interrogation.Objects.{
  create_io_for_type, create_offline_io_for_type, IsObject, create_io_for_type_lem, has_cp56,
  create_offline_io_for_type_lem,
}
use iec104_server_and_modbus.Interrogation.Encoder.{Encoder, header_size, ioa_size}
use iec104_server_and_modbus.Input.Cases.{process_line_cases}
use iec104_server_and_modbus.Input.Tracking.{Tracking, offline_enqueue}
use iec104_server_and_modbus.Input.Line.{
  Output, clients, queue_count, enqueued, Surroundings, State, spontaneous_asdu, enqueue,
  update_context, input_handler_process_line,
}

-- The time tags of the table are those of the objects.
table-has_cp56 : All (λ (t : DataTypeInfo). has_cp56 t.type_id ≡ t.has_time_tag) data_type_table
table-has_cp56 = (refl, (refl, (refl, (refl, (refl, (refl, (refl, (refl, (refl, (refl, tt))))))))))

module _ (f : FloatUnit) (g : Globals) (enc : Encoder) (env : Surroundings) where
  -- What is put into the queue is one spontaneous object in an ASDU of its own and, while no client
  -- is connected, has a time tag.
  pub IsQueueable : Output → Type 0
  IsQueueable (clients answer) = Unit {0}
  IsQueueable (queue_count n) = Unit {0}
  IsQueueable (enqueued a) =
      (io : InformationObject) × (a
        ≡ record (create_asdu false spontaneous 0 g.asdu) { elements = io ∷ [] })
      × (env.open_connections ≡ 0 → has_cp56 (object_type io) ≡ true)

  -- At most one output, and queueable.
  pub IsAnswer : List Output → Type 0
  unfolding IsQueueable
  IsAnswer out = (length out ≤ 1) × All IsQueueable out

  module _
      (room : (io : InformationObject)
        → header_size + (ioa_size + enc.data_size (object_type io)) ≤ enc.max_size) where
    spontaneous_asdu-IsAnswer :
        (type_id ioa : ℕ) (o : Option InformationObject)
        → IsObject type_id ioa o
        → (env.open_connections ≡ 0 → has_cp56 type_id ≡ true)
        → IsAnswer (spontaneous_asdu f g enc env o)
    unfolding spontaneous_asdu IsAnswer
    spontaneous_asdu-IsAnswer type_id ioa none is timed = absurd is
    spontaneous_asdu-IsAnswer type_id ioa (some io) is timed = (
      omega arith,
      (
        (
          io,
          enc.add_accepted (create_asdu false spontaneous 0 g.asdu) io (ground (arith, room io)),
          λ off. rw is.1 (timed off),
        ),
        tt,
      ),
    )

    -- The offline queue is used only for a type that has an equivalent with a time tag.
    offline_enqueue-equivalent :
        (type_id : ℕ) (info : DataTypeInfo) (ctx : DataTypeContext) (current ioa : ℕ)
        (v : DataValue) (table : List Tracking)
        → (offline_enqueue f g type_id
            (some info)
            ctx
            (some env.open_connections)
            current
            ioa
            v
            table).0
          ≡ true
        → info.offline_equivalent ≢ 0
    unfolding offline_enqueue
    offline_enqueue-equivalent type_id info ctx current ioa v table h e = ground arith

    offline-IsAnswer :
        (type_id : ℕ) (info : DataTypeInfo) (ioa : ℕ) (v : DataValue)
        → get_data_type_info type_id ≡ some info
        → info.offline_equivalent ≢ 0
        → IsAnswer (spontaneous_asdu f g enc env (create_offline_io_for_type type_id ioa v))
    offline-IsAnswer type_id info ioa v known some_equivalent =
        elim (create_offline_io_for_type_lem type_id ioa info v known) [
          | inl none' ↦ absurd (some_equivalent none'.0)
          | inr made ↦ spontaneous_asdu-IsAnswer info.offline_equivalent ioa _ made.0 (λ _. made.1)
        ]

    sent-IsAnswer :
        (type_id : ℕ) (ctx : DataTypeContext) (ioa : ℕ) (v : DataValue)
        → IsConfigured ctx
        → ctx.type_id ≡ type_id
        → (update_data f g ctx (some env.open_connections) env.now ioa v).1 ≡ true
        → IsAnswer (spontaneous_asdu f g enc env (create_io_for_type type_id ioa v))
    sent-IsAnswer type_id ctx ioa v h same sent =
        let known : get_data_type_info type_id ≡ some ctx.type_info = rw same at h.known in
        let tags =
          get_data_type_info-All (λ t. has_cp56 t.type_id ≡ t.has_time_tag) type_id
            {t = ctx.type_info} table-has_cp56 known in
        spontaneous_asdu-IsAnswer type_id ioa _
          (create_io_for_type_lem type_id ioa ctx.type_info v known)
          (λ off. elim (Bool-cases ctx.type_info.has_time_tag) [
            | inl timed ↦ ap has_cp56 (sym tags.1) ∙ tags.0 ∙ timed
            | inr untimed ↦
                let silent = update_data_untimed f g ctx env.now ioa v h untimed in
                let never : true ≡ false = sym (rw off at sent) ∙ silent in absurd (ground arith)
          ])

    enqueue-IsAnswer :
        (sent off : Bool) (type_id ioa : ℕ) (v : DataValue)
        → (off ≡ true
            → IsAnswer (spontaneous_asdu f g enc env (create_offline_io_for_type type_id ioa v)))
        → (sent ≡ true → IsAnswer (spontaneous_asdu f g enc env (create_io_for_type type_id ioa v)))
        → IsAnswer (enqueue f g enc env sent off type_id ioa v)
    unfolding enqueue IsAnswer
    enqueue-IsAnswer true true type_id ioa v offline direct = offline refl
    enqueue-IsAnswer true false type_id ioa v offline direct = direct refl
    enqueue-IsAnswer false true type_id ioa v offline direct = offline refl
    enqueue-IsAnswer false false type_id ioa v offline direct = (omega arith, tt)

    update_context-IsAnswer :
        (s : State) (i : ℕ) (ctx : DataTypeContext) (type_id ioa : ℕ) (v : DataValue)
        → IsConfigured ctx
        → ctx.type_id ≡ type_id
        → IsAnswer (update_context f g enc env s i ctx type_id ioa v).1
    unfolding update_context
    update_context-IsAnswer s i ctx type_id ioa v h same =
        let known : get_data_type_info type_id ≡ some ctx.type_info = rw same at h.known in
        enqueue-IsAnswer _ _ type_id ioa v
          (λ off. offline-IsAnswer type_id ctx.type_info ioa v known (
            offline_enqueue-equivalent type_id ctx.type_info ctx env.current ioa v s.tracking
              (rw known at off)))
          (sent-IsAnswer type_id ctx ioa v h same)

    update_context-IsConfigured :
        (s : State) (i : ℕ) (ctx : DataTypeContext) (type_id ioa : ℕ) (v : DataValue)
        → All IsConfigured s.contexts
        → IsConfigured ctx
        → All IsConfigured (update_context f g enc env s i ctx type_id ioa v).0.contexts
    unfolding update_context
    update_context-IsConfigured s i ctx type_id ioa v all h =
        All-set IsConfigured s.contexts i _ all
          (update_data-IsConfigured f g ctx (some env.open_connections) env.now ioa v h)

    module _ (j : Cjson) where
      -- If all contexts are configured and an object of each type fits into an ASDU, they are
      -- configured after any line of input, and the line has at most one output. What it puts into
      -- the queue is one spontaneous object in an ASDU of its own and, while no client is
      -- connected, an object with a time tag.
      pub input_handler_process_line_lem :
          (s : State) (line : String)
          → All IsConfigured s.contexts
          → let r = input_handler_process_line f g enc env j s line in
            All IsConfigured r.1.contexts × IsAnswer r.2
      unfolding IsAnswer IsQueueable
      input_handler_process_line_lem s line h =
          process_line_cases f g enc env j (λ r. All IsConfigured r.0.contexts × IsAnswer r.1) s
            (h, (omega arith, tt)) (λ _. (h, (omega arith, (tt, tt))))
            (λ _. (h, (omega arith, (tt, tt))))
            (λ i ctx type_id ioa v at same.
              let own = All-get_elem? IsConfigured s.contexts i ctx h at in
              (
                update_context-IsConfigured s i ctx type_id ioa v h own,
                update_context-IsAnswer s i ctx type_id ioa v own same,
              ))
            line
