-- ===== src/Saga/Tests.antt =====
-- Runs of the whole way on concrete databases.
use technical_assignment.Seat.Bus.{reserved_now, released_now}
use technical_assignment.Seat.Holds.Settle.{freed, sold}
use technical_assignment.Outbox.Worker.{message}
use technical_assignment.Seat.Consumer.{on_message, seat_service}
use technical_assignment.Rabbit.Ledger.{ledger}
use technical_assignment.Saga.Settlement.{reaches, paid_seat_is_sold, unpaid_seat_is_freed}
use technical_assignment.Rabbit.{Queue, queue_eq, seat_payment_events}
use technical_assignment.Payment.Webhooks.{process_event}
use technical_assignment.Outbox.{OutboxRow}
use technical_assignment.Rabbit.Topology.{Service}
use technical_assignment.Seat.Consistent.{IsConsistent}
use technical_assignment.Contracts.{
  utf16_length, resolve_trace_id, pi_mock, uuid, json, payment_exchange, acked, ReleaseReason,
}
use technical_assignment.Common.{List, ◌∷◌, [], none, steady, ◌≡◌, some, arith, refl}
use technical_assignment.Payment.Db.{
  Db as PayDb, WebhookType, PaymentIntentRow, WebhookEvent, IntentStatus, intent_succeeded,
  intent_payment_failed,
}
use technical_assignment.Payment.Intents.{Clock as PayClock}
use technical_assignment.Seat.Db.{Db as SeatDb, HoldRow, SeatStatus, HoldStatus}
use technical_assignment.Seat.Holds.{Clock as SeatClock}

abbrev intent : PaymentIntentRow
intent = record {
  id = 50;
  seat_id = 1;
  user_id = 7;
  hold_id = 100;
  amount_cents = 5000;
  currency = "USD";
  psp_intent_id = pi_mock 60;
  status = IntentStatus.pending;
  idempotency_key = 60;
  client_secret = record { psp_intent_id = pi_mock 60; random = 9 };
  created_at = 1000;
  completed_at = none;
}

abbrev pay_db : PayDb
pay_db = record {
  intents = intent ∷ [];
  inbox = [];
  seat_prices = [];
  outbox = record { entries = []; next_id = 1 };
}

abbrev hold : HoldRow
hold = record {
  id = 100;
  seat_id = 1;
  user_id = 7;
  status = HoldStatus.held;
  held_until = 601000;
  created_at = 1000;
  released_at = none;
  reserved_at = none;
}

abbrev seat_db : SeatDb
seat_db = record {
  seats =
      record {
        id = 1;
        label = "A1";
        price_cents = 5000;
        currency = "USD";
        status = SeatStatus.held;
      }
      ∷ [];
  holds = hold ∷ [];
  outbox = record { entries = []; next_id = 2 };
  consumed_events = [];
}

seat_db-IsConsistent : IsConsistent seat_db
seat_db-IsConsistent = record {
  ids = λ i. ground arith;
  per_seat = λ s. ground arith;
  per_user = λ u. ground arith;
  seats_match = (refl, tt);
}

abbrev starts : List Service
starts = Service.payment_service ∷ Service.seat_service ∷ []

abbrev pay_clock : PayClock
pay_clock = record { now = 2000; occurred = 2000 }

abbrev seat_clock : SeatClock
seat_clock = record { date = 3000; now = 3000; occurred = 3000 }

abbrev webhook_of : WebhookType → WebhookEvent
webhook_of t = record { id = 1; type = t; created = 2; object_id = pi_mock 60 }

paid_seat_is_sold_example :
    (x : OutboxRow) × ((process_event
        (webhook_of intent_succeeded)
        (uuid 5)
        300
        pay_clock
        steady
        steady
        pay_db).outbox.entries
      ≡ x ∷ [])
    × ((q : Queue) → reaches ledger starts x q ≡ queue_eq seat_payment_events q)
    × (on_message 400 seat_clock steady seat_db (some (json (message payment_exchange x).payload))
        ≡ record {
          settlement = acked;
          db = sold 100 300 seat_service (uuid 5) 400 seat_clock hold seat_db;
          bus = reserved_now 1 7 ∷ [];
        })
unfolding resolve_trace_id utf16_length
paid_seat_is_sold_example =
    paid_seat_is_sold ledger starts (webhook_of intent_succeeded) none 5 300 400 pay_clock
      seat_clock steady pay_db seat_db refl refl refl refl refl refl refl

unpaid_seat_is_freed_example :
    (x : OutboxRow) × ((process_event
        (webhook_of intent_payment_failed)
        (uuid 5)
        300
        pay_clock
        steady
        steady
        pay_db).outbox.entries
      ≡ x ∷ [])
    × ((q : Queue) → reaches ledger starts x q ≡ queue_eq seat_payment_events q)
    × (on_message 400 seat_clock steady seat_db (some (json (message payment_exchange x).payload))
        ≡ record {
          settlement = acked;
          db = freed 100 ReleaseReason.payment_failed (uuid 5) 400 seat_clock hold seat_db;
          bus = released_now 1 ∷ [];
        })
unfolding resolve_trace_id
unpaid_seat_is_freed_example =
    unpaid_seat_is_freed ledger starts (webhook_of intent_payment_failed) none 5 300 400 pay_clock
      seat_clock steady pay_db seat_db refl refl refl refl seat_db-IsConsistent refl
