-- ===== src/Payment/Checkout.antt =====
-- apps/payment/src/checkout/checkout.controller.ts: `CheckoutController.checkout`, behind the
-- guards, and `MockPSPClient.createIntent` of psps/psp.client.ts.
pub mod Keys
pub mod Charged
use Prim.Native.String.{String}
use technical_assignment.Common.{
  ℕ, Bool, true, false, Option, none, some, unique_violation, Link, Result, ok, err,
}
use technical_assignment.Contracts.{PspId, pi_mock}
use technical_assignment.Payment.Db.{IntentStatus, ClientSecret, PaymentIntentRow, SeatPrice, Db}
use technical_assignment.Payment.Intents.{get_seat_price, find_by_idempotency_key, create_intent}
use technical_assignment.Payment.Breaker.{Breaker, Env, Call, resolves, exec}

-- CheckoutDto
pub record CheckoutDto : Type 0 where
  pub seat_id : ℕ
  pub hold_id : ℕ
  pub idempotency_key : ℕ

pub record CreateIntentOpts : Type 0 where
  pub amount_cents : ℕ
  pub currency : String
  pub idempotency_key : ℕ

pub record CreateIntentResult : Type 0 where
  pub psp_intent_id : PspId
  pub client_secret : ClientSecret

-- MockPSPClient.createIntent, with the value of `Math.random()`.
unfoldable pub mock_create_intent : ℕ → CreateIntentOpts → Call CreateIntentResult
mock_create_intent random opts =
    let psp = pi_mock opts.idempotency_key in
    resolves
      (record {
        psp_intent_id = psp;
        client_secret = record { psp_intent_id = psp; random = random };
      })
      0

pub record IntentBody : Type 0 where
  pub intent_id : ℕ
  pub client_secret : ClientSecret
  pub amount_cents : ℕ
  pub currency : String
  pub idempotent : Bool

pub data Response : Type 0 where
  intent_200 : IntentBody → Response
  seat_price_unknown_400 psp_unavailable_400 internal_error_500 : Response

pub record Outcome : Type 0 where
  pub response : Response
  pub db : Db
  pub breaker : Breaker

-- The link of each of the four queries, the clock at the two ends of the call to the provider, the
-- NOW() of the INSERT and the id that `randomUUID` draws.
pub record Run : Type 0 where
  pub find_link : Link
  pub price_link : Link
  pub create_link : Link
  pub again_link : Link
  pub called_at : ℕ
  pub answered_at : ℕ
  pub now : ℕ
  pub intent_id : ℕ

abbrev pub body_of : PaymentIntentRow → Bool → IntentBody
body_of i idempotent = record {
  intent_id = i.id;
  client_secret = i.client_secret;
  amount_cents = i.amount_cents;
  currency = i.currency;
  idempotent = idempotent;
}

-- catch (e) round `createIntent`: after a unique violation the key is looked up again.
after_race : Breaker → Result (Option PaymentIntentRow) × Db → Outcome
after_race b (ok (some i), d) = record {
  response = intent_200 (body_of i true);
  db = d;
  breaker = b;
}
after_race b (ok none, d) = record { response = internal_error_500; db = d; breaker = b }
after_race b (err e, d) = record { response = internal_error_500; db = d; breaker = b }

after_create : CheckoutDto → Run → Breaker → Result PaymentIntentRow × Db → Outcome
unfolding after_race
after_create dto r b (ok i, d) = record {
  response = intent_200 (body_of i false);
  db = d;
  breaker = b;
}
after_create dto r b (err (unique_violation c), d) =
    after_race b (find_by_idempotency_key dto.idempotency_key r.again_link d)
after_create dto r b (err e, d) = record { response = internal_error_500; db = d; breaker = b }

unfoldable pub intent_row :
    CheckoutDto → ℕ → Run → SeatPrice → CreateIntentResult → PaymentIntentRow
intent_row dto user r price psp = record {
  id = r.intent_id;
  seat_id = dto.seat_id;
  user_id = user;
  hold_id = dto.hold_id;
  amount_cents = price.price_cents;
  currency = price.currency;
  psp_intent_id = psp.psp_intent_id;
  status = IntentStatus.pending;
  idempotency_key = dto.idempotency_key;
  client_secret = psp.client_secret;
  created_at = r.now;
  completed_at = none;
}

unfoldable pub after_psp :
    CheckoutDto → ℕ → Run → SeatPrice → Option CreateIntentResult × Breaker → Db → Outcome
unfolding after_create intent_row
after_psp dto user r price (none, b) d = record {
  response = psp_unavailable_400;
  db = d;
  breaker = b;
}
after_psp dto user r price (some psp, b) d =
    after_create dto r b (create_intent (intent_row dto user r price psp) r.create_link d)

unfoldable pub opts_of : CheckoutDto → SeatPrice → CreateIntentOpts
opts_of dto price = record {
  amount_cents = price.price_cents;
  currency = price.currency;
  idempotency_key = dto.idempotency_key;
}

after_price :
    Env
    → (CreateIntentOpts → Call CreateIntentResult)
    → CheckoutDto
    → ℕ
    → Run
    → (Db → Db)
    → Breaker
    → Result (Option SeatPrice) × Db
    → Outcome
unfolding after_psp opts_of
after_price env psp dto user r meanwhile b (err e, d) = record {
  response = internal_error_500;
  db = d;
  breaker = b;
}
after_price env psp dto user r meanwhile b (ok none, d) = record {
  response = seat_price_unknown_400;
  db = d;
  breaker = b;
}
after_price env psp dto user r meanwhile b (ok (some price), d) =
    after_psp dto user r price (exec env r.called_at r.answered_at (psp (opts_of dto price)) b)
      (meanwhile d)

after_find :
    Env
    → (CreateIntentOpts → Call CreateIntentResult)
    → CheckoutDto
    → ℕ
    → Run
    → (Db → Db)
    → Breaker
    → Result (Option PaymentIntentRow) × Db
    → Outcome
unfolding after_price
after_find env psp dto user r meanwhile b (err e, d) = record {
  response = internal_error_500;
  db = d;
  breaker = b;
}
after_find env psp dto user r meanwhile b (ok (some i), d) = record {
  response = intent_200 (body_of i true);
  db = d;
  breaker = b;
}
after_find env psp dto user r meanwhile b (ok none, d) =
    after_price env psp dto user r meanwhile b (get_seat_price dto.seat_id r.price_link d)

-- POST checkout. `meanwhile` is what other requests do to the database during the call to the
-- provider, and `psp` the provider.
unfoldable pub checkout :
    Env
    → (CreateIntentOpts → Call CreateIntentResult)
    → CheckoutDto
    → ℕ
    → Run
    → (Db → Db)
    → Breaker
    → Db
    → Outcome
unfolding after_find
checkout env psp dto user r meanwhile b d =
    after_find env psp dto user r meanwhile b
      (find_by_idempotency_key dto.idempotency_key r.find_link d)
