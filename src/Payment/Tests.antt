-- ===== src/Payment/Tests.antt =====
-- The theorems of the payment service on one seat and its payments.
mod Hooks
use technical_assignment.Payment.Traces.{
  IsKeyed, Grows, Reach-Grows, next, here, creates, completes,
}
use technical_assignment.Payment.Checkout.Keys.{checkout_once}
use technical_assignment.Payment.Webhooks.Inbox.{forged_is_refused, webhook_once}
use technical_assignment.Outbox.{OutboxRow}
use technical_assignment.Payment.Intents.{
  mark_failed_by_seat_id, Clock, mark_completed, create_intent,
}
use technical_assignment.Payment.Checkout.{
  CreateIntentResult, CheckoutDto, Run, intent_row, CreateIntentOpts, checkout, mock_create_intent,
  intent_200, opts_of, body_of,
}
use technical_assignment.Payment.Intents.Settling.{mark_failed_by_seat_id_silent}
use technical_assignment.Payment.Breaker.{
  exec, Breaker, with_timeout, Env, open_circuit, Call, resolves, enter, init, leave,
}
use technical_assignment.Payment.Webhooks.Processing.{
  SameBooks, reprocess_after_process, reprocess_emits_malformed,
}
use technical_assignment.Contracts.{
  conforms, SeatReleasedV1, PspId, pi_mock, uuid, AnyEvent, FailureReason, ReleaseReason,
}
use technical_assignment.Payment.Webhooks.{
  signature_fields, construct_event_from_webhook, webhook, reprocess_row, Node, SignaturePart,
  event, invalid_signature_401, process_event, received_200, t_part, v1_part,
}
use technical_assignment.Common.{
  ℕ, ◌≡◌, refl, ◌∷◌, List, [], none, ◌+◌, some, steady, true, breaks, count_where, ◌==◌, arith,
  false, first_row, length, select,
}
use technical_assignment.Payment.Db.{
  Db, WebhookEvent, InboxRow, SeatPrice, ClientSecret, PaymentIntentRow, intent_succeeded,
  IntentStatus, pending_seat, pending_psp,
}

abbrev at_time : ℕ → Clock
at_time t = record { now = t; occurred = t }

abbrev seat_price : SeatPrice
seat_price = record { seat_id = 1; price_cents = 5000; currency = "USD"; label = "A1" }

abbrev psp_id : PspId
psp_id = pi_mock 60

abbrev secret : ClientSecret
secret = record { psp_intent_id = psp_id; random = 9 }

abbrev intent : PaymentIntentRow
intent = record {
  id = 50;
  seat_id = 1;
  user_id = 7;
  hold_id = 100;
  amount_cents = 5000;
  currency = "USD";
  psp_intent_id = psp_id;
  status = IntentStatus.pending;
  idempotency_key = 60;
  client_secret = secret;
  created_at = 1000;
  completed_at = none;
}

abbrev other_intent : PaymentIntentRow
other_intent = record intent { id = 51; idempotency_key = 61; psp_intent_id = pi_mock 61 }

abbrev fresh_db : Db
fresh_db = record {
  intents = [];
  inbox = [];
  seat_prices = seat_price ∷ [];
  outbox = record { entries = []; next_id = 1 };
}

abbrev pending_db : Db
pending_db = record fresh_db { intents = intent ∷ [] }

abbrev crowded_db : Db
crowded_db = record fresh_db { intents = intent ∷ other_intent ∷ [] }

Reach-Grows_example :
    let d = (create_intent intent steady fresh_db).1 in
    let e = (mark_completed psp_id 300 (uuid 5) (at_time 2000) (breaks 4) d).1 in
    IsKeyed e.intents × Grows fresh_db.intents e.intents
Reach-Grows_example =
    Reach-Grows
      (next (next here (creates intent steady))
        (completes psp_id 300 (uuid 5) (at_time 2000) (breaks 4)))
      (record { keys = λ k. omega arith; ids = λ k. omega arith })

abbrev failed_at_2000 : PaymentIntentRow → PaymentIntentRow
failed_at_2000 i = record i { status = IntentStatus.failed; completed_at = some 2000 }

mark_failed_by_seat_id_silent_example :
    let d' =
      (mark_failed_by_seat_id 1 FailureReason.seat_released 300
        (uuid 5)
        (at_time 2000)
        steady
        crowded_db).1 in
    (d'.intents ≡ failed_at_2000 intent ∷ failed_at_2000 other_intent ∷ [])
    × (length d'.outbox.entries ≡ 1)
mark_failed_by_seat_id_silent_example =
    mark_failed_by_seat_id_silent 1 FailureReason.seat_released 300 (uuid 5) (at_time 2000)
      crowded_db (omega arith)

abbrev env : Env
env = record { psp_cb_error_threshold = 4; psp_cb_reset_ms = 30000; psp_timeout_ms = 5000 }

abbrev tripped : Breaker
tripped = record { state = open_circuit; failures = 2; opened_at = 1000 }

abbrev quick : Call ℕ
quick = resolves 5 1

abbrev order : CheckoutDto
order = record { seat_id = 1; hold_id = 100; idempotency_key = 60 }

abbrev calm : ℕ → Run
calm t = record {
  find_link = steady;
  price_link = steady;
  create_link = steady;
  again_link = steady;
  called_at = t;
  answered_at = t;
  now = t;
  intent_id = 50;
}

abbrev psp : CreateIntentOpts → Call CreateIntentResult
psp = mock_create_intent 9

abbrev made : CreateIntentResult
made = record { psp_intent_id = psp_id; client_secret = secret }

psp_answers : (exec env 1000 1000 (psp (opts_of order seat_price)) init).0 ≡ some made
unfolding exec enter with_timeout leave opts_of mock_create_intent
psp_answers = refl

checkout_once_example :
    let row = intent_row order 7 (calm 1000) seat_price made in
    let first = checkout env psp order 7 (calm 1000) (λ x. x) init fresh_db in
    (first.response ≡ intent_200 (body_of row false))
    × (first.db.intents ≡ row ∷ [])
    × (checkout env psp order 8 (calm 3000) (λ x. x) tripped first.db
        ≡ record { response = intent_200 (body_of row true); db = first.db; breaker = tripped })
checkout_once_example =
    checkout_once env env psp psp order order 7 8 (calm 1000) (calm 3000) (λ x. x) init tripped
      fresh_db (refl, refl, refl, refl) (refl, refl, refl, refl) refl refl psp_answers refl refl
