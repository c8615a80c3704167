-- ===== src/Payment/SeatEvents/Deliveries.antt =====
-- What the payment service does with a seat that was released.
use technical_assignment.Payment.Intents.Settling.{mark_failed_by_seat_id_outcome, settled}
use technical_assignment.Payment.Db.{Db, pending_seat, IntentStatus, settled_row}
use technical_assignment.Payment.Intents.{Clock, failed_event}
use technical_assignment.Contracts.{
  SeatReleasedV1, AnyEvent, conforms, schema, EventType, json, dead_lettered, acked, FailureReason,
}
use technical_assignment.Common.{
  count_where-first_row, Bool-cases, ◌≡◌, refl, inl, inr, ℕ, Link, ◌≢◌, true, steady, some,
  count_where, Option-cases, first_row, select, first_row-select-none,
  count_where-update_where-zero, arith, count_where-first_row,
}
use technical_assignment.Payment.SeatEvents.{on_message, AnyEvent, SeatReleasedV1, Clock, Db}

-- A well-formed seat.released, handled over a steady connection, is acknowledged and leaves no
-- pending intent of the seat; delivered again it is acknowledged and changes nothing.
pub seat_released_redelivered :
    (e : SeatReleasedV1) (id id' : ℕ) (clock clock' : Clock) (d : Db)
    → conforms (AnyEvent.seat_released e) ≡ true
    → let first = on_message id clock steady d (some (json (AnyEvent.seat_released e))) in
      (first.settlement ≡ acked)
      × (count_where (pending_seat e.seat_id) first.db.intents ≡ 0)
      × (on_message id' clock' steady first.db (some (json (AnyEvent.seat_released e)))
          ≡ record { settlement = acked; db = first.db })
unfolding on_message
seat_released_redelivered e id id' clock clock' d good =
    rw
      (
        good,
        mark_failed_by_seat_id_outcome e.seat_id FailureReason.seat_released id e.base.trace_id
            clock d,
      )
      (elim (Option-cases (first_row (select (pending_seat e.seat_id) d.intents))) [
        | inl nothing ↦ rw nothing (
          refl,
          first_row-select-none (pending_seat e.seat_id) d.intents nothing,
          rw
              (
                mark_failed_by_seat_id_outcome e.seat_id FailureReason.seat_released id'
                    e.base.trace_id clock' d,
                nothing,
              )
              refl,
        )
        | inr (i, found) ↦
            let d' =
              (settled (pending_seat e.seat_id) IntentStatus.failed
                (λ i. failed_event i FailureReason.seat_released id e.base.trace_id clock.occurred)
                e.base.trace_id clock.now (some i) d).1 in
            let gone =
              count_where-update_where-zero (pending_seat e.seat_id) (pending_seat e.seat_id)
                (settled_row IntentStatus.failed clock.now) d.intents (λ x h. ground arith)
                (λ x h. h) in
            rw found (
              refl,
              gone,
              rw
                  (
                    mark_failed_by_seat_id_outcome e.seat_id FailureReason.seat_released id'
                        e.base.trace_id clock' d',
                    count_where-first_row (pending_seat e.seat_id) d'.intents gone,
                  )
                  refl,
            )
      ])

-- Any other message of the queue is dead-lettered, and changes nothing.
other_is_dead_lettered :
    (a : AnyEvent) (id : ℕ) (clock : Clock) (l : Link) (d : Db)
    → schema a ≢ EventType.seat_released_v1
    → on_message id clock l d (some (json a)) ≡ record { settlement = dead_lettered; db = d }
unfolding on_message
other_is_dead_lettered (AnyEvent.seat_held e) id clock l d other =
    elim (Bool-cases (conforms (AnyEvent.seat_held e))) [
      | inl good ↦ rw good refl
      | inr bad ↦ rw bad refl
    ]
other_is_dead_lettered (AnyEvent.seat_reserved e) id clock l d other =
    elim (Bool-cases (conforms (AnyEvent.seat_reserved e))) [
      | inl good ↦ rw good refl
      | inr bad ↦ rw bad refl
    ]
other_is_dead_lettered (AnyEvent.payment_succeeded e) id clock l d other =
    elim (Bool-cases (conforms (AnyEvent.payment_succeeded e))) [
      | inl good ↦ rw good refl
      | inr bad ↦ rw bad refl
    ]
other_is_dead_lettered (AnyEvent.payment_failed e) id clock l d other =
    elim (Bool-cases (conforms (AnyEvent.payment_failed e))) [
      | inl good ↦ rw good refl
      | inr bad ↦ rw bad refl
    ]
other_is_dead_lettered (AnyEvent.seat_released e) id clock l d other = absurd (other refl)
