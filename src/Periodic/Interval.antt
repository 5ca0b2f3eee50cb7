-- ===== src/Periodic/Interval.antt =====
-- When `send_periodic_data_for_type` sends, and what.
use iec104_server_and_modbus.Base.{
  ℕ, ◌+◌, ◌-◌, ◌^◌, ◌≤◌, ◌<◌, ◌≡◌, ◌⊎◌, inl, inr, refl, Bool, true, false, not, ◌||◌, some, List,
  [], ltb, ◌==◌, if◌then◌else◌, sub_u64, arith, Bool-cases, All,
}
use iec104_server_and_modbus.Iec.{Asdu, periodic}
use iec104_server_and_modbus.Data.Manager.{DataTypeContext}
use iec104_server_and_modbus.Interrogation.Encoder.{Encoder, HasTableSizes}
use iec104_server_and_modbus.Interrogation.Complete.{sent_objects, HasHeader}
use iec104_server_and_modbus.Interrogation.Station.{
  IsServed, context_objects, send_context-Delivers, delivered,
}
use iec104_server_and_modbus.Periodic.{
  PeriodicConfig, int_to_u64, send_periodic_data_for_type, sent_at,
}

-- The interval has passed for an enabled type that has points.
abbrev pub is_due : ℕ → DataTypeContext → PeriodicConfig → Bool
is_due now ctx config =
    if not config.enabled || ctx.config.count == 0
    then false
    else not (ltb (sub_u64 now config.last_sent) (int_to_u64 config.period_ms))

module _ (enc : Encoder) (sizes : HasTableSizes enc) (fits : 21 ≤ enc.max_size)
    (max : enc.max_size ≤ 249) (ca : ℕ) where
  -- With a context as `IsServed` demands, the call ends. If it is due, it enqueues ASDUs with the
  -- cause "periodic" and the common address that hold the object of each point once, in order, and
  -- notes the time. If not, nothing is enqueued and nothing changes.
  pub send_periodic_data_for_type_lem :
      (ctx : DataTypeContext) (now : ℕ) (config : PeriodicConfig)
      → IsServed ctx
      → ((is_due now ctx config ≡ true)
          × ((sent : List Asdu) × (send_periodic_data_for_type enc ca now ctx config
                ≡ some (sent, record config { last_sent = now }))
              × (sent_objects sent ≡ context_objects ctx)
              × All (HasHeader periodic ca) sent))
        ⊎ ((is_due now ctx config ≡ false)
            × (send_periodic_data_for_type enc ca now ctx config ≡ some ([], config)))
  unfolding send_periodic_data_for_type sent_at
  send_periodic_data_for_type_lem ctx now config s =
      let (sent, e, objs, heads) =
        delivered enc sizes fits max ca periodic (context_objects ctx) _
          (send_context-Delivers enc sizes fits max ca periodic ctx s) in
      elim (Bool-cases (not config.enabled || ctx.config.count == 0)) [
        | inl off ↦ inr (rw off refl, rw off refl)
        | inr on ↦
            elim (Bool-cases (ltb (sub_u64 now config.last_sent) (int_to_u64 config.period_ms))) [
              | inl early ↦ inr (rw (on, early) refl, rw (on, early) refl)
              | inr due ↦
                  let ends : send_periodic_data_for_type enc ca now ctx config
                      ≡ some (sent, record config { last_sent = now }) =
                    rw (on, due, e) refl in
                  inl (rw (on, due) refl, (sent, ends, objs, heads))
            ]
      ]

-- The interval of a type that is sent at time `t`: at a later time `u`, on a 64-bit clock that does
-- not go back and with an interval that is not negative, the type is due again exactly if the
-- interval has passed since `t`.
pub is_due_again :
    (ctx : DataTypeContext) (t u : ℕ) (config : PeriodicConfig)
    → is_due t ctx config ≡ true
    → t ≤ u
    → u < 2 ^ 64
    → config.period_ms < 2 ^ 31
    → ((t + config.period_ms ≤ u) × (is_due u ctx (record config { last_sent = t }) ≡ true))
      ⊎ ((u < t + config.period_ms) × (is_due u ctx (record config { last_sent = t }) ≡ false))
is_due_again ctx t u config due later small period =
    let on = enabled_if_due in
    let int : int_to_u64 config.period_ms ≡ config.period_ms = ground arith in
    let passed : sub_u64 u t ≡ u - t = ground arith in
    elim (Bool-cases (ltb (u - t) config.period_ms)) [
      | inl early ↦
          let before : u < t + config.period_ms = ground arith in
          inr (before, rw (on, passed, int, early) refl)
      | inr over ↦
          let after : t + config.period_ms ≤ u = ground arith in
          inl (after, rw (on, passed, int, over) refl)
    ]
  where
    enabled_if_due : (not config.enabled || ctx.config.count == 0) ≡ false
    enabled_if_due = elim (Bool-cases (not config.enabled || ctx.config.count == 0)) [
      | inl off ↦ let never : false ≡ true = rw off at due in absurd (ground arith)
      | inr on ↦ on
    ]
