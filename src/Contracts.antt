-- ===== src/Contracts.antt =====
-- packages/contracts/src/events.ts and packages/be-core/src/correlation.ts: the events that the
-- services exchange, the check that a consumer makes before it acts on one, and trace ids.
-- A UUID is a number; times are milliseconds. A text that is only compared is an enumeration of
-- the forms that the code tells apart.
pub mod Tracing
use Prim.Native.String.{String, [], ◌∷◌}
use Prim.Native.Char.{code}
use text.Mathlib.Text.{starts_with}
use technical_assignment.Common.{
  ℕ, leb, ◌+◌, Bool, true, false, ◌&&◌, Option, none, some, ◌==◌, if◌then◌else◌,
}

-- What may stand in a `traceId`: a UUID, the reprocessor's `'reprocess-' + randomUUID()`, or
-- another text from a request header.
pub data TraceId : Type 0 where
  uuid : ℕ → TraceId
  reprocess : ℕ → TraceId
  other_text : ℕ → TraceId

-- z.string().uuid(), and the regular expression of `resolveTraceId`
abbrev pub is_uuid : TraceId → Bool
is_uuid (uuid n) = true
is_uuid (reprocess n) = false
is_uuid (other_text n) = false

-- `fresh` is the value of `randomUUID()`.
unfoldable pub resolve_trace_id : Option TraceId → ℕ → TraceId
resolve_trace_id none fresh = uuid fresh
resolve_trace_id (some header) fresh = if is_uuid header then header else uuid fresh

pub record BaseMeta : Type 0 where
  pub event_id : ℕ
  pub trace_id : TraceId
  pub occurred_at : ℕ

pub record SeatHeldV1 : Type 0 where
  pub base : BaseMeta
  pub seat_id : ℕ
  pub user_id : ℕ
  pub hold_id : ℕ
  pub held_until : ℕ
  pub price_cents : ℕ
  pub currency : String

pub data ReleaseReason : Type 0 where
  expired payment_failed user_cancelled sweeper : ReleaseReason
  other_reason : ℕ → ReleaseReason

pub record SeatReleasedV1 : Type 0 where
  pub base : BaseMeta
  pub seat_id : ℕ
  pub user_id : Option ℕ
  pub reason : ReleaseReason

pub record SeatReservedV1 : Type 0 where
  pub base : BaseMeta
  pub seat_id : ℕ
  pub user_id : ℕ
  pub hold_id : ℕ

-- The provider's intent ids: `pi_mock_` and an idempotency key, or any other text.
pub data PspId : Type 0 where
  pi_mock : ℕ → PspId
  foreign : ℕ → PspId

pub record PaymentSucceededV1 : Type 0 where
  pub base : BaseMeta
  pub payment_intent_id : ℕ
  pub seat_id : ℕ
  pub user_id : ℕ
  pub hold_id : ℕ
  pub amount_cents : ℕ
  pub currency : String
  pub psp_intent_id : PspId

-- The reasons that the payment service gives for a failure.
pub data FailureReason : Type 0 where
  psp_failed seat_released : FailureReason

pub record PaymentFailedV1 : Type 0 where
  pub base : BaseMeta
  pub payment_intent_id : ℕ
  pub seat_id : ℕ
  pub user_id : ℕ
  pub hold_id : ℕ
  pub reason : FailureReason

pub data AnyEvent : Type 0 where
  seat_held : SeatHeldV1 → AnyEvent
  seat_released : SeatReleasedV1 → AnyEvent
  seat_reserved : SeatReservedV1 → AnyEvent
  payment_succeeded : PaymentSucceededV1 → AnyEvent
  payment_failed : PaymentFailedV1 → AnyEvent

-- The `schema` literals, which are also the `event_type` column of the outbox.
pub data EventType : Type 0 where
  seat_held_v1 seat_released_v1 seat_reserved_v1 : EventType
  payment_succeeded_v1 payment_failed_v1 : EventType

abbrev pub schema : AnyEvent → EventType
schema (seat_held e) = seat_held_v1
schema (seat_released e) = seat_released_v1
schema (seat_reserved e) = seat_reserved_v1
schema (payment_succeeded e) = payment_succeeded_v1
schema (payment_failed e) = payment_failed_v1

abbrev type_name : EventType → String
type_name seat_held_v1 = "seat.held.v1"
type_name seat_released_v1 = "seat.released.v1"
type_name seat_reserved_v1 = "seat.reserved.v1"
type_name payment_succeeded_v1 = "payment.succeeded.v1"
type_name payment_failed_v1 = "payment.failed.v1"

abbrev pub known_reason : ReleaseReason → Bool
known_reason (other_reason n) = false
known_reason expired = true
known_reason payment_failed = true
known_reason user_cancelled = true
known_reason sweeper = true

-- A string's `length` in JavaScript, which counts UTF-16 code units.
unfoldable pub utf16_length : String → ℕ
utf16_length [] = 0
utf16_length (c ∷ s) = (if leb 65536 (code c) then 2 else 1) + utf16_length s

-- What `.parse` checks of a field that the model does not already make well-formed: `traceId` is
-- a UUID, `currency` has three code units, `reason` is one of four.
unfoldable pub conforms : AnyEvent → Bool
conforms (seat_held e) = is_uuid e.base.trace_id && (utf16_length e.currency == 3)
conforms (seat_released e) = is_uuid e.base.trace_id && known_reason e.reason
conforms (seat_reserved e) = is_uuid e.base.trace_id
conforms (payment_succeeded e) = is_uuid e.base.trace_id && (utf16_length e.currency == 3)
conforms (payment_failed e) = is_uuid e.base.trace_id

-- The bytes of a message: those of an event of the shape above, or anything else.
pub data Content : Type 0 where
  json : AnyEvent → Content
  garbage : ℕ → Content

-- AnyEvent.parse(JSON.parse(content)); `none` is the exception.
unfoldable pub parse : Content → Option AnyEvent
unfolding conforms
parse (garbage n) = none
parse (json e) = if conforms e then some e else none

pub data Exchange : Type 0 where
  seat_events payment_events : Exchange

pub data RoutingKey : Type 0 where
  key_seat_held key_seat_released key_seat_reserved : RoutingKey
  key_payment_succeeded key_payment_failed : RoutingKey

-- event_type.replace(/\.v\d+$/, '')
abbrev pub routing_key : EventType → RoutingKey
routing_key seat_held_v1 = key_seat_held
routing_key seat_released_v1 = key_seat_released
routing_key seat_reserved_v1 = key_seat_reserved
routing_key payment_succeeded_v1 = key_payment_succeeded
routing_key payment_failed_v1 = key_payment_failed

-- The exchange that each service's worker picks by the prefix of the event type.
unfoldable pub seat_exchange : EventType → Exchange
seat_exchange t = if starts_with (type_name t) "seat." then seat_events else payment_events

unfoldable pub payment_exchange : EventType → Exchange
payment_exchange t = if starts_with (type_name t) "payment." then payment_events else seat_events

-- What the broker is told: `ch.ack`, `ch.nack(msg, false, false)`, `ch.nack(msg, false, true)`, or
-- nothing where there is no message.
pub data Settlement : Type 0 where
  acked dead_lettered requeued no_message : Settlement
