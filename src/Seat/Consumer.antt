-- ===== src/Seat/Consumer.antt =====
-- apps/seat-reservation/src/events/payment-events.consumer.ts: the handler that
-- `PaymentEventsConsumer.start` gives to `RabbitService.consume`
-- (apps/seat-reservation/src/events/rabbit.service.ts).
pub mod Deliveries
use technical_assignment.Common.{
  ℕ, Bool, true, false, Option, none, some, List, [], ◌∷◌, Result, ok, err, Link,
}
use technical_assignment.Contracts.{
  Settlement, acked, dead_lettered, requeued, no_message, TraceId, AnyEvent, payment_succeeded,
  payment_failed, Content, parse, ReleaseReason, PaymentSucceededV1, PaymentFailedV1,
}
use technical_assignment.Seat.Db.{Db}
use technical_assignment.Seat.Bus.{BusEvent, released_now, reserved_now}
use technical_assignment.Seat.Holds.{
  Clock, ReserveResult, ReleaseResult, reserve_hold, release_hold,
}

pub record Handled : Type 0 where
  pub settlement : Settlement
  pub db : Db
  pub bus : List BusEvent

-- The consumer group 'seat-service'.
abbrev pub seat_service : ℕ
seat_service = 0

abbrev reserved_bus : Option ℕ → Option ℕ → List BusEvent
reserved_bus (some seat) (some user) = reserved_now seat user ∷ []
reserved_bus (some seat) none = []
reserved_bus none user = []

abbrev pub after_reserve : Result ReserveResult × Db → Handled
after_reserve (err e, d) = record { settlement = requeued; db = d; bus = [] }
after_reserve (ok r, d) = record {
  settlement = acked;
  db = d;
  bus = reserved_bus r.seat_id r.user_id;
}

abbrev pub released_bus : Option ℕ → List BusEvent
released_bus (some seat) = released_now seat ∷ []
released_bus none = []

abbrev pub after_release : Result ReleaseResult × Db → Handled
after_release (err e, d) = record { settlement = requeued; db = d; bus = [] }
after_release (ok r, d) = record { settlement = acked; db = d; bus = released_bus r.seat_id }

-- The branches on `parsed.schema`; the other events are acknowledged and left alone.
unfoldable pub process : ℕ → Clock → Link → Db → AnyEvent → Handled
process id clock l d (AnyEvent.payment_succeeded e) =
    after_reserve (reserve_hold e.hold_id e.base.event_id seat_service e.base.trace_id id clock l d)
process id clock l d (AnyEvent.payment_failed e) =
    after_release (release_hold e.hold_id ReleaseReason.payment_failed e.base.trace_id id clock l d)
process id clock l d (AnyEvent.seat_held e) = record { settlement = acked; db = d; bus = [] }
process id clock l d (AnyEvent.seat_released e) = record { settlement = acked; db = d; bus = [] }
process id clock l d (AnyEvent.seat_reserved e) = record { settlement = acked; db = d; bus = [] }

on_parsed : ℕ → Clock → Link → Db → Option AnyEvent → Handled
unfolding process
on_parsed id clock l d none = record { settlement = dead_lettered; db = d; bus = [] }
on_parsed id clock l d (some e) = process id clock l d e

-- `id` is what `randomUUID` draws for the event that a repository method may append.
unfoldable pub on_message : ℕ → Clock → Link → Db → Option Content → Handled
unfolding on_parsed parse
on_message id clock l d none = record { settlement = no_message; db = d; bus = [] }
on_message id clock l d (some content) = on_parsed id clock l d (parse content)
