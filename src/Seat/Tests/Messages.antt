-- ===== src/Seat/Tests/Messages.antt =====
-- A payment event that comes twice.
use technical_assignment.Seat.Tests.{at_time, ann, held_db}
use technical_assignment.Seat.Consumer.Deliveries.{success_redelivered}
use technical_assignment.Contracts.{
  utf16_length, conforms, BaseMeta, PaymentSucceededV1, AnyEvent, uuid, pi_mock, json, acked,
}
use technical_assignment.Seat.Consumer.{on_message}
use technical_assignment.Common.{◌≡◌, refl, [], steady, true, some}

abbrev base : BaseMeta
base = record { event_id = 300; trace_id = uuid 5; occurred_at = 1500 }

abbrev paid : BaseMeta → PaymentSucceededV1
paid b = record {
  base = b;
  payment_intent_id = 50;
  seat_id = 1;
  user_id = ann;
  hold_id = 100;
  amount_cents = 5000;
  currency = "USD";
  psp_intent_id = pi_mock 60;
}

is_conforming : conforms (AnyEvent.payment_succeeded (paid base)) ≡ true
unfolding conforms utf16_length
is_conforming = refl

success_redelivered_example :
    let first =
      on_message 301
        (at_time 2000)
        steady
        held_db
        (some (json (AnyEvent.payment_succeeded (paid base)))) in
    (first.settlement ≡ acked)
    × (on_message 302
          (at_time 9000)
          steady
          first.db
          (some (json (AnyEvent.payment_succeeded (paid base))))
        ≡ record { settlement = acked; db = first.db; bus = [] })
success_redelivered_example =
    success_redelivered (paid base) 301 302 (at_time 2000) (at_time 9000) held_db is_conforming
