-- ===== src/Payment/SeatEvents.antt =====
-- apps/payment/src/events/seat-events.consumer.ts: the handler that `SeatEventsConsumer.start`
-- gives to `RabbitService.consume` (apps/payment/src/events/rabbit.service.ts).
pub mod Deliveries
use technical_assignment.Payment.Intents.{Clock, MarkResult, mark_failed_by_seat_id}
use technical_assignment.Payment.Db.{Db}
use technical_assignment.Common.{ℕ, Option, none, some, Result, Link, ok, err}
use technical_assignment.Contracts.{
  Settlement, AnyEvent, parse, SeatReleasedV1, dead_lettered, Content, no_message, acked,
  FailureReason, requeued,
}

pub record Handled : Type 0 where
  pub settlement : Settlement
  pub db : Db

-- SeatReleasedV1.parse(JSON.parse(content)): any other schema is refused.
released_only : Option AnyEvent → Option SeatReleasedV1
released_only (some (AnyEvent.seat_released e)) = some e
released_only (some (AnyEvent.seat_held e)) = none
released_only (some (AnyEvent.seat_reserved e)) = none
released_only (some (AnyEvent.payment_succeeded e)) = none
released_only (some (AnyEvent.payment_failed e)) = none
released_only none = none

abbrev after_cancel : Result MarkResult × Db → Handled
after_cancel (ok r, d) = record { settlement = acked; db = d }
after_cancel (err e, d) = record { settlement = requeued; db = d }

cancel : ℕ → Clock → Link → Db → Option SeatReleasedV1 → Handled
cancel id clock l d none = record { settlement = dead_lettered; db = d }
cancel id clock l d (some e) =
    after_cancel
      (mark_failed_by_seat_id e.seat_id FailureReason.seat_released id e.base.trace_id clock l d)

-- `id` is what `randomUUID` draws for the event that `markFailedBySeatId` may append.
unfoldable pub on_message : ℕ → Clock → Link → Db → Option Content → Handled
unfolding cancel released_only parse
on_message id clock l d none = record { settlement = no_message; db = d }
on_message id clock l d (some content) = cancel id clock l d (released_only (parse content))
