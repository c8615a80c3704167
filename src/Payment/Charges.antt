-- ===== src/Payment/Charges.antt =====
-- What the payment service writes, by its handlers, and what it charges.
pub mod Amounts
use technical_assignment.Contracts.{PspId, TraceId, FailureReason}
use technical_assignment.Payment.Intents.{
  Clock, mark_completed, mark_failed, mark_failed_by_seat_id, insert_webhook_inbox,
  mark_webhook_processed,
}
use technical_assignment.Payment.Db.{Db, SeatPrice, PaymentIntentRow, WebhookEvent}
use technical_assignment.Payment.Checkout.{
  CheckoutDto, CreateIntentOpts, CreateIntentResult, Run, checkout,
}
use technical_assignment.Payment.Breaker.{Env, Breaker, Call}
use technical_assignment.Common.{ℕ, List, ◌≡◌, Option, first_row, All, select, some, ◌==◌, Link}

-- One transaction or statement of a worker or of the handler of webhooks, over a connection that may
-- break.
pub data Charge (d : Db) : Db → Type 0 where
  completes :
      (psp : PspId) (event_id : ℕ) (trace : TraceId) (clock : Clock) (l : Link)
      → Charge d (mark_completed psp event_id trace clock l d).1
  fails :
      (psp : PspId) (reason : FailureReason) (event_id : ℕ) (trace : TraceId) (clock : Clock)
      (l : Link)
      → Charge d (mark_failed psp reason event_id trace clock l d).1
  cancels :
      (seat : ℕ) (reason : FailureReason) (event_id : ℕ) (trace : TraceId) (clock : Clock)
      (l : Link)
      → Charge d (mark_failed_by_seat_id seat reason event_id trace clock l d).1
  receives : (e : WebhookEvent) (now : ℕ) (l : Link) → Charge d (insert_webhook_inbox e now l d).1
  marks : (e now : ℕ) (l : Link) → Charge d (mark_webhook_processed e now l d).1

-- The service at work. A checkout runs from its look-ups to its answer, over connections that may
-- break; during its call to the provider the others, checkouts among them, work on.
pub data Charges : Db → Db → Type 0 where
  here : {d : Db} → Charges d d
  next : {d e f : Db} → Charges d e → Charge e f → Charges d f
  pays :
      {d e : Db}
      → Charges d e
      → (env : Env) (psp : CreateIntentOpts → Call CreateIntentResult) (dto : CheckoutDto)
        (user : ℕ) (r : Run) (meanwhile : Db → Db) (b : Breaker)
      → Charges e (meanwhile e)
      → Charges d (checkout env psp dto user r meanwhile b e).db

-- An intent is for the amount and the currency that the table has for its seat.
abbrev pub IsPricedBy : List SeatPrice → PaymentIntentRow → Type 0
IsPricedBy ps i =
    (p : SeatPrice) × (first_row (select (λ q. q.seat_id == i.seat_id) ps) ≡ some p)
    × (i.amount_cents ≡ p.price_cents)
    × (i.currency ≡ p.currency)

pub record IsCharged (ps : List SeatPrice) (d : Db) : Type 0 where
  pub prices : d.seat_prices ≡ ps
  pub amounts : All (IsPricedBy ps) d.intents
