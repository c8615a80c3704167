-- ===== src/Saga/Settlement.antt =====
-- A payment that is settled reaches its seat.
use technical_assignment.Payment.Intents.Settling.{mark_failed_outcome}
use technical_assignment.Seat.Consistent.{IsConsistent}
use technical_assignment.Seat.Consumer.Deliveries.{on_good, reserve_taken}
use technical_assignment.Seat.Bus.{reserved_now, released_now}
use technical_assignment.Seat.Consumer.{seat_service, on_message, process}
use technical_assignment.Seat.Holds.Settle.{
  active_hold, sold, reserve_hold_outcome, freed, release_hold_outcome,
}
use technical_assignment.Payment.Webhooks.Processing.{
  then_mark-SameBooks, settled_once, entries_after_completed,
}
use technical_assignment.Rabbit.Routing.{started, events_reach_their_queue}
use technical_assignment.Rabbit.Topology.{Service, connects}
use technical_assignment.Outbox.{OutboxRow, new_row, Outbox}
use technical_assignment.Outbox.Worker.{message}
use technical_assignment.Contracts.Tracing.{resolve_trace_id-IsUuid}
use technical_assignment.Contracts.{
  utf16_length, is_uuid, resolve_trace_id, TraceId, payment_exchange, json, acked,
  payment_succeeded_v1, conforms, psp_failed, ReleaseReason, payment_failed_v1,
}
use technical_assignment.Payment.Webhooks.{process_event, settle_event}
use technical_assignment.Rabbit.{Broker, Queue, plain, queue_eq, seat_payment_events}
use technical_assignment.Common.{
  ℕ, List, Link, Option, ◌≡◌, first_row, some, select, none, true, Bool, steady, ◌++◌, ◌∷◌, [],
  ◌==◌, exists_where, ap, false, ◌∙◌, refl,
}
use technical_assignment.Payment.Db.{
  Db as PayDb, intent_succeeded, PaymentIntentRow, pending_psp, WebhookEvent, intent_payment_failed,
}
use technical_assignment.Payment.Intents.{Clock as PayClock, succeeded_event, failed_event}
use technical_assignment.Seat.Db.{Db as SeatDb, HoldRow, consumed_by}
use technical_assignment.Seat.Holds.{Clock as SeatClock}

-- What a queue gets of a row that the payment service's worker publishes.
abbrev pub reaches : (b : Broker) → List Service → OutboxRow → Queue → Bool
reaches b vs x =
    let m = message payment_exchange x in
    b.routes (connects b vs b.fresh) (plain m.exchange) m.routing

-- The row that the completion of an intent appends.
abbrev completed_row : PaymentIntentRow → ℕ → TraceId → PayClock → PayDb → OutboxRow
completed_row i eid trace clock p =
    new_row p.outbox.next_id i.id (succeeded_event i eid trace clock.occurred)
      (record { trace_id = trace; user_id = some i.user_id; reason = none }) clock.now

process_event-entries :
    (e : WebhookEvent) (trace : TraceId) (eid : ℕ) (clock : PayClock) (l : Link) (p : PayDb)
    {i : PaymentIntentRow}
    → e.type ≡ intent_succeeded
    → first_row (select (pending_psp e.object_id) p.intents) ≡ some i
    → (process_event e trace eid clock steady l p).outbox.entries
      ≡ p.outbox.entries ++ completed_row i eid trace clock p ∷ []
unfolding process_event
process_event-entries e trace eid clock l p {i} type found =
    let once = settle_event e.type e.object_id eid trace clock steady p in
    let books = then_mark-SameBooks e.id clock.now l once in
    let out = settled_once e.type e.object_id eid trace clock p type in
    ap (λ (o : Outbox). o.entries) books.1
    ∙ ap (λ (x : PayDb). x.outbox.entries) out
    ∙ entries_after_completed e.object_id eid trace clock p found

-- The consumer, given the event of a completed intent whose hold is active.
on_success :
    (i : PaymentIntentRow) (eid : ℕ) (trace : TraceId) (occurred id : ℕ) (clock : SeatClock)
    (d : SeatDb) {h : HoldRow}
    → is_uuid trace ≡ true
    → (utf16_length i.currency == 3) ≡ true
    → active_hold i.hold_id d ≡ some h
    → exists_where (consumed_by eid seat_service) d.consumed_events ≡ false
    → on_message id clock steady d (some (json (succeeded_event i eid trace occurred))) ≡ record {
      settlement = acked;
      db = sold i.hold_id eid seat_service trace id clock h d;
      bus = reserved_now h.seat_id h.user_id ∷ [];
    }
unfolding succeeded_event
on_success i eid trace occurred id clock d {h} uuid_trace code held new =
    on_good id clock steady d (succeeded_event i eid trace occurred)
      (unfold conforms in rw (uuid_trace, code) refl)
    ∙ (unfold process in
        rw
          (reserve_hold_outcome i.hold_id eid seat_service trace id clock d
            ∙ reserve_taken i.hold_id eid trace id clock d new held)
          refl)

-- A webhook of a success whose intent is pending, processed over a connection that holds until the
-- intent is settled, appends one event to the payment service's outbox. Once both services have
-- started, what the worker publishes for it goes to the seat service's queue and to no other. Where
-- the intent's hold is still active, its currency has three code units and its event has not been
-- consumed, the seat service's consumer over a steady connection sells the seat to the user of the
-- hold and acknowledges the message.
pub paid_seat_is_sold :
    (b : Broker) (vs : List Service) (e : WebhookEvent) (header : Option TraceId) (fresh eid id : ℕ)
    (clock : PayClock) (clock' : SeatClock) (l : Link) (p : PayDb) (d : SeatDb)
    {i : PaymentIntentRow} {h : HoldRow}
    → started Service.seat_service vs ≡ true
    → started Service.payment_service vs ≡ true
    → e.type ≡ intent_succeeded
    → first_row (select (pending_psp e.object_id) p.intents) ≡ some i
    → (utf16_length i.currency == 3) ≡ true
    → active_hold i.hold_id d ≡ some h
    → exists_where (consumed_by eid seat_service) d.consumed_events ≡ false
    → let trace = resolve_trace_id header fresh in
      (x : OutboxRow) × ((process_event e trace eid clock steady l p).outbox.entries
        ≡ p.outbox.entries ++ x ∷ [])
      × ((q : Queue) → reaches b vs x q ≡ queue_eq seat_payment_events q)
      × (on_message id clock' steady d (some (json (message payment_exchange x).payload)) ≡ record {
        settlement = acked;
        db = sold i.hold_id eid seat_service trace id clock' h d;
        bus = reserved_now h.seat_id h.user_id ∷ [];
      })
unfolding message
paid_seat_is_sold b vs e header fresh eid id clock clock' l p d {i} {h} seat pay type found code
      held new =
    let trace = resolve_trace_id header fresh in
    (
      completed_row i eid trace clock p,
      process_event-entries e trace eid clock l p type found,
      (λ q.
          unfold succeeded_event in
          (events_reach_their_queue b vs seat pay payment_succeeded_v1 q).1),
      on_success i eid trace clock.occurred id clock' d (resolve_trace_id-IsUuid header fresh) code
          held new,
    )

-- The row that the failure of an intent appends.
abbrev failed_row : PaymentIntentRow → ℕ → TraceId → PayClock → PayDb → OutboxRow
failed_row i eid trace clock p =
    new_row p.outbox.next_id i.id (failed_event i psp_failed eid trace clock.occurred)
      (record { trace_id = trace; user_id = some i.user_id; reason = none }) clock.now

failed-entries :
    (e : WebhookEvent) (trace : TraceId) (eid : ℕ) (clock : PayClock) (l : Link) (p : PayDb)
    {i : PaymentIntentRow}
    → e.type ≡ intent_payment_failed
    → first_row (select (pending_psp e.object_id) p.intents) ≡ some i
    → (process_event e trace eid clock steady l p).outbox.entries
      ≡ p.outbox.entries ++ failed_row i eid trace clock p ∷ []
unfolding process_event settle_event
failed-entries e trace eid clock l p {i} type found =
    ap (λ (o : Outbox). o.entries)
      (then_mark-SameBooks e.id clock.now l
        (settle_event e.type e.object_id eid trace clock steady p)).1
    ∙ rw (type, mark_failed_outcome e.object_id psp_failed eid trace clock p, found) refl

-- The consumer, given the event of a failed intent whose hold is active.
on_failure :
    (i : PaymentIntentRow) (eid : ℕ) (trace : TraceId) (occurred id : ℕ) (clock : SeatClock)
    (d : SeatDb) {h : HoldRow}
    → is_uuid trace ≡ true
    → IsConsistent d
    → active_hold i.hold_id d ≡ some h
    → on_message id clock steady d (some (json (failed_event i psp_failed eid trace occurred)))
      ≡ record {
        settlement = acked;
        db = freed i.hold_id ReleaseReason.payment_failed trace id clock h d;
        bus = released_now h.seat_id ∷ [];
      }
unfolding failed_event
on_failure i eid trace occurred id clock d {h} uuid_trace v held =
    on_good id clock steady d (failed_event i psp_failed eid trace occurred)
      (unfold conforms in uuid_trace)
    ∙ (unfold process in
        rw (release_hold_outcome i.hold_id ReleaseReason.payment_failed trace id clock d v, held)
          refl)

-- A webhook of a failure whose intent is pending, processed over a connection that holds until the
-- intent is settled, appends one event to the payment service's outbox. Once both services have
-- started, what the worker publishes for it goes to the seat service's queue and to no other. Where
-- the intent's hold is still active and the seat service's database is consistent, its consumer over
-- a steady connection releases the hold, frees the seat and acknowledges the message.
pub unpaid_seat_is_freed :
    (b : Broker) (vs : List Service) (e : WebhookEvent) (header : Option TraceId) (fresh eid id : ℕ)
    (clock : PayClock) (clock' : SeatClock) (l : Link) (p : PayDb) (d : SeatDb)
    {i : PaymentIntentRow} {h : HoldRow}
    → started Service.seat_service vs ≡ true
    → started Service.payment_service vs ≡ true
    → e.type ≡ intent_payment_failed
    → first_row (select (pending_psp e.object_id) p.intents) ≡ some i
    → IsConsistent d
    → active_hold i.hold_id d ≡ some h
    → let trace = resolve_trace_id header fresh in
      (x : OutboxRow) × ((process_event e trace eid clock steady l p).outbox.entries
        ≡ p.outbox.entries ++ x ∷ [])
      × ((q : Queue) → reaches b vs x q ≡ queue_eq seat_payment_events q)
      × (on_message id clock' steady d (some (json (message payment_exchange x).payload)) ≡ record {
        settlement = acked;
        db = freed i.hold_id ReleaseReason.payment_failed trace id clock' h d;
        bus = released_now h.seat_id ∷ [];
      })
unfolding message
unpaid_seat_is_freed b vs e header fresh eid id clock clock' l p d {i} {h} seat pay type found v
      held =
    let trace = resolve_trace_id header fresh in
    (
      failed_row i eid trace clock p,
      failed-entries e trace eid clock l p type found,
      (λ q. unfold failed_event in (events_reach_their_queue b vs seat pay payment_failed_v1 q).1),
      on_failure i eid trace clock.occurred id clock' d (resolve_trace_id-IsUuid header fresh) v
          held,
    )
