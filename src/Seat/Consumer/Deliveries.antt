-- ===== src/Seat/Consumer/Deliveries.antt =====
-- What a delivery does, when it is repeated, malformed, or meets a lost connection.
use technical_assignment.Seat.Consistent.{IsConsistent}
use technical_assignment.Seat.Holds.Settle.{
  sold, active_hold, reserve_hold_outcome, reserve_outcome, reserve_hold-IsConsistent,
  release_hold-IsConsistent, reserve_hold_redelivered,
}
use technical_assignment.Common.{
  ◌↔◌, ℕ, ◌≡◌, ◌≢◌, true, false, some, arith, Link, Result, Option, [], steady, err, inl, inr,
  exists_where, ok, if◌then◌else◌, Bool-cases, Option-cases, ◌∙◌, none, refl,
}
use technical_assignment.Contracts.{
  dead_lettered, acked, AnyEvent, json, conforms, PaymentSucceededV1, Content, PaymentFailedV1,
  reprocess, TraceId, garbage, ReleaseReason,
}
use technical_assignment.Seat.Db.{Db, HoldRow, consumed_by}
use technical_assignment.Seat.Holds.{
  Clock, reserve_hold, ReserveResult, not_reserved, ReleaseResult,
}
use technical_assignment.Seat.Consumer.{
  process, on_message, ReserveResult, reserve_hold, after_reserve, seat_service, ReleaseResult,
  after_release,
}

module _ (id : ℕ) (clock : Clock) (l : Link) (d : Db) where
  -- An event is sent to the dead-letter queue exactly when it does not conform to the contracts,
  -- whatever the connection does and whatever the database holds.
  pub dead_lettered_iff :
      (e : AnyEvent)
      → ((on_message id clock l d (some (json e))).settlement ≡ dead_lettered)
        ↔ (conforms e ≡ false)
  unfolding on_message
  dead_lettered_iff e = elim (Bool-cases (conforms e)) [
    | inl good ↦ (λ k. absurd (not_dead e (rw good at k)), λ bad. absurd (cc (good, bad)))
    | inr bad ↦ (λ k. bad, λ h. rw bad refl)
  ]
    where
      not_dead : (e : AnyEvent) → (process id clock l d e).settlement ≢ dead_lettered
      not_dead (AnyEvent.payment_succeeded e) k = ground arith
      not_dead (AnyEvent.payment_failed e) k = ground arith
      not_dead (AnyEvent.seat_held e) k = cc
      not_dead (AnyEvent.seat_released e) k = cc
      not_dead (AnyEvent.seat_reserved e) k = cc

  -- Reprocessed webhooks are marked in their trace id, which is then no UUID: the success or
  -- failure that such an event reports is dead-lettered, whatever the state of its hold.
  pub reprocessed_is_dead_lettered :
      (n eid at' : ℕ) (s : PaymentSucceededV1) (f : PaymentFailedV1)
      → s.base ≡ record { event_id = eid; trace_id = reprocess n; occurred_at = at' }
      → f.base ≡ record { event_id = eid; trace_id = reprocess n; occurred_at = at' }
      → (on_message id clock l d (some (json (AnyEvent.payment_succeeded s)))
          ≡ record { settlement = dead_lettered; db = d; bus = [] })
        × (on_message id clock l d (some (json (AnyEvent.payment_failed f)))
            ≡ record { settlement = dead_lettered; db = d; bus = [] })
  unfolding on_message
  reprocessed_is_dead_lettered n eid at' s f hs hf = (ground arith, ground arith)

  -- Every message keeps a consistent database consistent, whatever the connection does.
  pub on_message-IsConsistent :
      (m : Option Content) → IsConsistent d → IsConsistent (on_message id clock l d m).db
  unfolding on_message
  on_message-IsConsistent none v = v
  on_message-IsConsistent (some (garbage n)) v = v
  on_message-IsConsistent (some (json e)) v = elim (Bool-cases (conforms e)) [
    | inr bad ↦ rw bad v
    | inl good ↦ rw good (process-IsConsistent e)
  ]
    where
      kept_reserve :
          (r : Result ReserveResult × Db) → IsConsistent r.1 → IsConsistent (after_reserve r).db
      kept_reserve (ok r, d') k = k
      kept_reserve (err e, d') k = k

      kept_release :
          (r : Result ReleaseResult × Db) → IsConsistent r.1 → IsConsistent (after_release r).db
      kept_release (ok r, d') k = k
      kept_release (err e, d') k = k

      process-IsConsistent : (e : AnyEvent) → IsConsistent (process id clock l d e).db
      process-IsConsistent (AnyEvent.payment_succeeded e) = kept_reserve _ (
          reserve_hold-IsConsistent e.hold_id e.base.event_id seat_service e.base.trace_id id clock
            d v l)
      process-IsConsistent (AnyEvent.payment_failed e) = kept_release _ (
          release_hold-IsConsistent e.hold_id ReleaseReason.payment_failed e.base.trace_id id clock
            d v l)
      process-IsConsistent (AnyEvent.seat_held e) = v
      process-IsConsistent (AnyEvent.seat_released e) = v
      process-IsConsistent (AnyEvent.seat_reserved e) = v

pub on_good :
    (id : ℕ) (clock : Clock) (l : Link) (d : Db) (e : AnyEvent)
    → conforms e ≡ true
    → on_message id clock l d (some (json e)) ≡ process id clock l d e
unfolding on_message
on_good id clock l d e h = rw h

pub reserve_taken :
    (i ev : ℕ) (trace : TraceId) (id : ℕ) (clock : Clock) (d : Db) {h : HoldRow}
    → exists_where (consumed_by ev seat_service) d.consumed_events ≡ false
    → active_hold i d ≡ some h
    → (if exists_where (consumed_by ev seat_service) d.consumed_events
        then (ok not_reserved, d)
        else reserve_outcome i ev seat_service trace id clock (active_hold i d) d)
      ≡ (
        ok (record { reserved = true; seat_id = some h.seat_id; user_id = some h.user_id }),
        sold i ev seat_service trace id clock h d,
      )
reserve_taken i ev trace id clock d new found = rw (new, found)

-- After a call of `reserveHold`, the same call at a later time finds nothing to do.
reserve_again :
    (i ev : ℕ) (trace : TraceId) (id id' : ℕ) (clock clock' : Clock) (d : Db)
    → let r = reserve_hold i ev seat_service trace id clock steady d in
      ((a : ReserveResult) × (r.0 ≡ ok a))
      × (reserve_hold i ev seat_service trace id' clock' steady r.1 ≡ (ok not_reserved, r.1))
reserve_again i ev trace id id' clock clock' d =
    let out = reserve_hold_outcome i ev seat_service trace id clock d in
    elim (Bool-cases (exists_where (consumed_by ev seat_service) d.consumed_events)) [
      | inl old ↦
          rw (out, old)
            (
              (not_reserved, refl),
              ground (arith, reserve_hold_outcome i ev seat_service trace id' clock' d, old),
            )
      | inr new ↦ elim (Option-cases (active_hold i d)) [
        | inl gone ↦
            rw (out, new, gone)
              (
                (not_reserved, refl),
                ground (arith, reserve_hold_outcome i ev seat_service trace id' clock' d, gone),
              )
        | inr (h, found) ↦
            let win = out ∙ reserve_taken i ev trace id clock d new found in
            rw win (
              (
                record { reserved = true; seat_id = some h.seat_id; user_id = some h.user_id },
                refl,
              ),
              reserve_hold_redelivered i ev seat_service trace id clock d i trace id' clock' win
                  refl,
            )
      ]
    ]

acked_twice :
    (r : Result ReserveResult × Db) (again : Db → Result ReserveResult × Db)
    → ((a : ReserveResult) × (r.0 ≡ ok a))
    → again r.1 ≡ (ok not_reserved, r.1)
    → ((after_reserve r).settlement ≡ acked)
      × (after_reserve (again (after_reserve r).db)
          ≡ record { settlement = acked; db = (after_reserve r).db; bus = [] })
acked_twice (ok b, d) again h k = (refl, rw k)
acked_twice (err x, d) again (a, h) k = cc

-- A conforming success that is delivered twice over steady connections, at whatever times and with
-- other fresh ids, is acknowledged both times, and the second delivery changes nothing.
pub success_redelivered :
    (e : PaymentSucceededV1) (id id' : ℕ) (clock clock' : Clock) (d : Db)
    → conforms (AnyEvent.payment_succeeded e) ≡ true
    → let m = some (json (AnyEvent.payment_succeeded e)) in
      let first = on_message id clock steady d m in
      let second = on_message id' clock' steady first.db m in
      (first.settlement ≡ acked) × (second ≡ record { settlement = acked; db = first.db; bus = [] })
success_redelivered e id id' clock clock' d good =
    let once = on_good id clock steady d (AnyEvent.payment_succeeded e) good in
    let again =
      on_good id' clock' steady
        (on_message id clock steady d (some (json (AnyEvent.payment_succeeded e)))).db
        (AnyEvent.payment_succeeded e) good in
    let r = reserve_again e.hold_id e.base.event_id e.base.trace_id id id' clock clock' d in
    rw (again, once)
      (unfold process in
        acked_twice
          (reserve_hold e.hold_id e.base.event_id seat_service e.base.trace_id id clock steady d)
          (reserve_hold e.hold_id e.base.event_id seat_service e.base.trace_id id' clock' steady)
          r.0 r.1)
