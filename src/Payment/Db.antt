-- ===== src/Payment/Db.antt =====
-- The database of the payment service, apps/payment/src/migrations/20240101000000_init.sql, with
-- the row type of checkout/payment-intents.repository.ts and the events of psps/psp.client.ts.
use Prim.Native.String.{String}
use technical_assignment.Common.{ℕ, Bool, true, false, ◌&&◌, Option, some, List, ◌==◌}
use technical_assignment.Contracts.{PspId, pi_mock, foreign}
use technical_assignment.Outbox.{Outbox}

pub data IntentStatus : Type 0 where
  pending completed failed : IntentStatus

-- `${pspIntentId}_secret_${Math.random().toString(36).slice(2)}`
pub record ClientSecret : Type 0 where
  pub psp_intent_id : PspId
  pub random : ℕ

pub record PaymentIntentRow : Type 0 where
  pub id : ℕ
  pub seat_id : ℕ
  pub user_id : ℕ
  pub hold_id : ℕ
  pub amount_cents : ℕ
  pub currency : String
  pub psp_intent_id : PspId
  pub status : IntentStatus
  pub idempotency_key : ℕ
  pub client_secret : ClientSecret
  pub created_at : ℕ
  pub completed_at : Option ℕ

-- 'payment_intent.succeeded', 'payment_intent.payment_failed', and any other type
pub data WebhookType : Type 0 where
  intent_succeeded intent_payment_failed : WebhookType
  other_type : ℕ → WebhookType

-- PSPWebhookEvent: `created` in seconds, and the fields of `data.object` that the code reads.
pub record WebhookEvent : Type 0 where
  pub id : ℕ
  pub type : WebhookType
  pub created : ℕ
  pub object_id : PspId

pub record InboxRow : Type 0 where
  pub stripe_event_id : ℕ
  pub type : WebhookType
  pub payload : WebhookEvent
  pub received_at : ℕ
  pub processed_at : Option ℕ

pub record SeatPrice : Type 0 where
  pub seat_id : ℕ
  pub price_cents : ℕ
  pub currency : String
  pub label : String

pub record Db : Type 0 where
  pub intents : List PaymentIntentRow
  pub inbox : List InboxRow
  pub seat_prices : List SeatPrice
  pub outbox : Outbox

abbrev pub is_pending : IntentStatus → Bool
is_pending IntentStatus.pending = true
is_pending IntentStatus.completed = false
is_pending IntentStatus.failed = false

abbrev psp_eq : PspId → PspId → Bool
psp_eq (pi_mock a) (pi_mock b) = a == b
psp_eq (foreign a) (foreign b) = a == b
psp_eq (pi_mock a) (foreign b) = false
psp_eq (foreign a) (pi_mock b) = false

-- The WHERE clauses.
abbrev pub with_key : ℕ → PaymentIntentRow → Bool
with_key k i = i.idempotency_key == k

abbrev pub pending_psp : PspId → PaymentIntentRow → Bool
pending_psp p i = psp_eq i.psp_intent_id p && is_pending i.status

abbrev pub pending_seat : ℕ → PaymentIntentRow → Bool
pending_seat s i = (i.seat_id == s) && is_pending i.status

abbrev pub with_event : ℕ → InboxRow → Bool
with_event e r = r.stripe_event_id == e

-- SET status = …, completed_at = NOW()
abbrev pub settled_row : IntentStatus → ℕ → PaymentIntentRow → PaymentIntentRow
settled_row st now i = record i { status = st; completed_at = some now }
