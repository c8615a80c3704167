-- ===== src/Seeds/Tests.antt =====
-- The two databases as they are seeded, a hold of the first seat and a checkout of it.
use technical_assignment.Seat.Controller.{hold}
use technical_assignment.Contracts.{utf16_length, uuid, pi_mock}
use technical_assignment.Seat.Db.{Db as SeatDb}
use technical_assignment.Payment.Db.{Db as PaymentDb}
use technical_assignment.Seat.Holds.{lookup_price}
use technical_assignment.Seat.Typed.{IsWired}
use technical_assignment.Seat.Wire.{holds}
use technical_assignment.Seat.Wire
use technical_assignment.Payment.Intents.{
  mark_completed, create_intent, find_by_idempotency_key, get_seat_price,
}
use technical_assignment.Payment.Checkout.{
  CheckoutDto, Run, after_psp, mock_create_intent, checkout, opts_of,
}
use technical_assignment.Payment.Breaker.{Env, init, exec, enter, leave, with_timeout}
use technical_assignment.Payment.Charges.{IsCharged, pays, completes}
use technical_assignment.Payment.Charges
use technical_assignment.Seeds.{
  demo_prices, insert_missing, seed_seats, seed_prices, demo_user, main, already_exists,
}
use technical_assignment.Seeds.Prices.{price_key, charged_as_shown}
use technical_assignment.Common.{◌≡◌, refl, some, none, true, [], map, All, steady, length}

abbrev seats : SeatDb
seats = seed_seats (record {
  seats = [];
  holds = [];
  outbox = record { entries = []; next_id = 1 };
  consumed_events = [];
})

abbrev prices : PaymentDb
prices = seed_prices (record {
  intents = [];
  inbox = [];
  seat_prices = [];
  outbox = record { entries = []; next_id = 1 };
})

again_nothing_changes : main steady true true (some 400) seats ≡ (already_exists, seats)
unfolding main demo_user seed_seats insert_missing
again_nothing_changes = refl

seats-IsWired : IsWired (map price_key demo_prices) seats
unfolding seed_seats insert_missing utf16_length
seats-IsWired = record { prices = refl; currencies = (refl, (refl, (refl, tt))); rows_typed = tt }

prices-IsCharged : IsCharged demo_prices prices
unfolding seed_prices insert_missing
prices-IsCharged = record { prices = refl; amounts = tt }

abbrev held : SeatDb
held =
    (hold (record { hold_ttl_seconds = 600; retry_after_seconds = 5 }) 1 7 none 50 100 200
      (record { date = 1000; now = 1000; occurred = 1000 }) steady steady seats).db

abbrev order : CheckoutDto
order = record { seat_id = 1; hold_id = 100; idempotency_key = 60 }

abbrev calm : Run
calm = record {
  find_link = steady;
  price_link = steady;
  create_link = steady;
  again_link = steady;
  called_at = 1000;
  answered_at = 1000;
  now = 1000;
  intent_id = 500;
}

abbrev env : Env
env = record { psp_cb_error_threshold = 50; psp_cb_reset_ms = 30000; psp_timeout_ms = 5000 }

abbrev ordered : PaymentDb
ordered = (checkout env (mock_create_intent 9) order 7 calm (λ x. x) init prices).db

abbrev paid : PaymentDb
paid =
    (mark_completed (pi_mock 60) 300 (uuid 5) (record { now = 2000; occurred = 2000 }) steady
      ordered).1

charged_as_shown_example :
    All
      (λ i.
        lookup_price i.seat_id held
        ≡ some (record { price_cents = i.amount_cents; currency = i.currency }))
      paid.intents
charged_as_shown_example =
    charged_as_shown
      (Wire.next Wire.here (
        holds (record { hold_ttl_seconds = 600; retry_after_seconds = 5 }) 1 7 none 50 100 200
          (record { date = 1000; now = 1000; occurred = 1000 }) steady steady))
      (Charges.next
        (pays Charges.here env (mock_create_intent 9) order 7 calm (λ x. x) init Charges.here)
        (completes (pi_mock 60) 300 (uuid 5) (record { now = 2000; occurred = 2000 }) steady))
      seats-IsWired prices-IsCharged

one_intent : length paid.intents ≡ 1
unfolding mark_completed checkout after_psp create_intent find_by_idempotency_key get_seat_price
    exec with_timeout enter leave opts_of mock_create_intent seed_prices insert_missing
one_intent = refl
