-- ===== src/Payment/Intents.antt =====
-- apps/payment/src/checkout/payment-intents.repository.ts: `PaymentIntentsRepository`.
pub mod Settling
pub mod Priced
use technical_assignment.Common.{
  ℕ, Bool, true, false, Option, none, some, List, [], ◌∷◌, ◌++◌, ◌==◌, if◌then◌else◌, select,
  update_where, first_row, exists_where, primary_key, idempotency_key, unique_violation, Link,
  Answer, rows, violates, Tx, query, pure, ◌>>=◌, ◌>>◌, Verdict, commit, rollback, Result, run_tx,
  run_query,
}
use technical_assignment.Contracts.{TraceId, AnyEvent, PspId, FailureReason}
use technical_assignment.Outbox.{Headers, append}
use technical_assignment.Payment.Db.{
  IntentStatus, PaymentIntentRow, WebhookEvent, SeatPrice, Db, with_key, pending_psp, pending_seat,
  with_event, settled_row,
}

-- SELECT … FROM seat_prices WHERE seat_id = $1
abbrev pub price_row : ℕ → Db → Option SeatPrice
price_row seat d = first_row (select (λ p. p.seat_id == seat) d.seat_prices)

unfoldable pub get_seat_price : ℕ → Link → Db → Result (Option SeatPrice) × Db
get_seat_price seat = run_query (query (λ d. rows (price_row seat d) d))

abbrev pub keyed_row : ℕ → Db → Option PaymentIntentRow
keyed_row key d = first_row (select (with_key key) d.intents)

unfoldable pub find_by_idempotency_key : ℕ → Link → Db → Result (Option PaymentIntentRow) × Db
find_by_idempotency_key key = run_query (query (λ d. rows (keyed_row key d) d))

-- INSERT INTO payment_intents, with its primary key and its UNIQUE (idempotency_key).
abbrev pub insert_intent : PaymentIntentRow → Db → Answer Db PaymentIntentRow
insert_intent i d =
    if exists_where (λ r. r.id == i.id) d.intents
    then violates (unique_violation primary_key)
    else if exists_where (with_key i.idempotency_key) d.intents
    then violates (unique_violation idempotency_key)
    else rows i (record d { intents = d.intents ++ i ∷ [] })

unfoldable pub create_intent : PaymentIntentRow → Link → Db → Result PaymentIntentRow × Db
create_intent i = run_query (query (insert_intent i))

-- { ok: true, intent } | { ok: false, reason: 'no_pending_intent' }
pub data MarkResult : Type 0 where
  marked : PaymentIntentRow → MarkResult
  no_pending_intent : MarkResult

pub record Clock : Type 0 where
  pub now : ℕ
  pub occurred : ℕ

abbrev update_intents :
    (PaymentIntentRow → Bool) → IntentStatus → ℕ → Tx Db (Option PaymentIntentRow)
update_intents p st now = query (λ d.
    rows (first_row (select p d.intents))
      (record d { intents = update_where p (settled_row st now) d.intents }))

-- appendOutbox, inside the transaction of its caller
abbrev append_outbox : ℕ → AnyEvent → Headers → ℕ → Tx Db (Unit {0})
append_outbox aggregate event headers now =
    query (λ d. rows tt (record d { outbox = append aggregate event headers now d.outbox }))

unfoldable pub succeeded_event : PaymentIntentRow → ℕ → TraceId → ℕ → AnyEvent
succeeded_event i event_id trace occurred = AnyEvent.payment_succeeded (record {
  base = record { event_id = event_id; trace_id = trace; occurred_at = occurred };
  payment_intent_id = i.id;
  seat_id = i.seat_id;
  user_id = i.user_id;
  hold_id = i.hold_id;
  amount_cents = i.amount_cents;
  currency = i.currency;
  psp_intent_id = i.psp_intent_id;
})

unfoldable pub failed_event : PaymentIntentRow → FailureReason → ℕ → TraceId → ℕ → AnyEvent
failed_event i reason event_id trace occurred = AnyEvent.payment_failed (record {
  base = record { event_id = event_id; trace_id = trace; occurred_at = occurred };
  payment_intent_id = i.id;
  seat_id = i.seat_id;
  user_id = i.user_id;
  hold_id = i.hold_id;
  reason = reason;
})

-- What the three methods do with `rows[0]`, a row of which they read only what the UPDATE keeps.
announce :
    IntentStatus
    → (PaymentIntentRow → AnyEvent)
    → TraceId
    → ℕ
    → Option PaymentIntentRow
    → Tx Db (Verdict MarkResult)
announce st event trace now none = pure (rollback no_pending_intent)
announce st event trace now (some i) = do
  append_outbox i.id (event i)
      (record { trace_id = trace; user_id = some i.user_id; reason = none }) now
  pure (commit (marked (settled_row st now i)))

unfoldable pub mark_body :
    (PaymentIntentRow → Bool)
    → IntentStatus
    → (PaymentIntentRow → AnyEvent)
    → TraceId
    → ℕ
    → Tx Db (Verdict MarkResult)
unfolding announce
mark_body p st event trace now = do
  found ← update_intents p st now
  announce st event trace now found

unfoldable pub mark_completed : PspId → ℕ → TraceId → Clock → Link → Db → Result MarkResult × Db
unfolding mark_body
mark_completed psp event_id trace clock = run_tx (
    mark_body (pending_psp psp) IntentStatus.completed
      (λ i. succeeded_event i event_id trace clock.occurred) trace clock.now)

unfoldable pub mark_failed :
    PspId → FailureReason → ℕ → TraceId → Clock → Link → Db → Result MarkResult × Db
unfolding mark_body
mark_failed psp reason event_id trace clock = run_tx (
    mark_body (pending_psp psp) IntentStatus.failed
      (λ i. failed_event i reason event_id trace clock.occurred) trace clock.now)

unfoldable pub mark_failed_by_seat_id :
    ℕ → FailureReason → ℕ → TraceId → Clock → Link → Db → Result MarkResult × Db
unfolding mark_body
mark_failed_by_seat_id seat reason event_id trace clock = run_tx (
    mark_body (pending_seat seat) IntentStatus.failed
      (λ i. failed_event i reason event_id trace clock.occurred) trace clock.now)

-- SELECT * FROM payment_intents WHERE seat_id = $1 AND status = 'PENDING'
unfoldable pub find_pending_by_seat_id : ℕ → Link → Db → Result (List PaymentIntentRow) × Db
find_pending_by_seat_id seat =
    run_query (query (λ d. rows (select (pending_seat seat) d.intents) d))

-- INSERT INTO webhook_inbox … ON CONFLICT (stripe_event_id) DO NOTHING, with `rowCount > 0`.
unfoldable pub insert_webhook_inbox : WebhookEvent → ℕ → Link → Db → Result Bool × Db
insert_webhook_inbox e now = run_query (
    query (λ d.
      if exists_where (with_event e.id) d.inbox
      then rows false d
      else rows true (record d {
        inbox =
            d.inbox
            ++ record {
              stripe_event_id = e.id;
              type = e.type;
              payload = e;
              received_at = now;
              processed_at = none;
            }
              ∷ [];
      })))

-- UPDATE webhook_inbox SET processed_at = NOW() WHERE stripe_event_id = $1
unfoldable pub mark_webhook_processed : ℕ → ℕ → Link → Db → Result (Unit {0}) × Db
mark_webhook_processed e now = run_query (
    query (λ d. rows tt (record d {
      inbox = update_where (with_event e) (λ r. record r { processed_at = some now }) d.inbox;
    })))
