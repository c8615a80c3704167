-- ===== src/Payment/Webhooks.antt =====
-- apps/payment/src/webhooks/webhooks.controller.ts and webhook-reprocessor.ts, and
-- `MockPSPClient.constructEventFromWebhook` of psps/psp.client.ts.
pub mod Inbox
pub mod Processing
use technical_assignment.Common.{
  ℕ, zero, suc, ◌+◌, ◌*◌, ◌≡◌, Bool, true, false, Option, none, some, List, [], ◌∷◌, ◌==◌, ltb, leb,
  if◌then◌else◌, take, select, Exn, Link, Result, ok, err,
}
use technical_assignment.Contracts.{
  TraceId, reprocess, resolve_trace_id, PspId, FailureReason, psp_failed,
}
use technical_assignment.Payment.Db.{
  WebhookType, intent_succeeded, intent_payment_failed, other_type, WebhookEvent, InboxRow, Db,
}
use technical_assignment.Payment.Intents.{
  Clock, MarkResult, mark_completed, mark_failed, insert_webhook_inbox, mark_webhook_processed,
}

-- One `k=v` part of the header `t=<unix>,v1=<hex-hmac>`; a value that is missing or empty is `none`.
pub data SignaturePart : Type 0 where
  t_part v1_part : Option ℕ → SignaturePart
  other_part : SignaturePart

-- The parsed body, where `created` may not be a number.
pub record RawEvent : Type 0 where
  pub id : ℕ
  pub type : WebhookType
  pub created : Option ℕ
  pub object_id : PspId

-- What the code takes from Node: the HMAC of `${t}.${body}` under the secret, the decoding of a
-- hexadecimal text, and JSON.parse. Texts and buffers are numbers.
pub record Node : Type 0 where
  pub hmac : ℕ → ℕ → ℕ
  pub from_hex : ℕ → ℕ
  pub parse_json : ℕ → Option RawEvent

pub data WebhookError : Type 0 where
  malformed_signature invalid_signature bad_json missing_created : WebhookError

pub data Parsed : Type 0 where
  event : WebhookEvent → Parsed
  refused : WebhookError → Parsed

-- The loop over the parts: the last `t` and the last `v1` count.
unfoldable pub signature_fields : List SignaturePart → Option ℕ → Option ℕ → Option ℕ × Option ℕ
signature_fields [] t v1 = (t, v1)
signature_fields (t_part v ∷ rest) t v1 = signature_fields rest v v1
signature_fields (v1_part v ∷ rest) t v1 = signature_fields rest t v
signature_fields (other_part ∷ rest) t v1 = signature_fields rest t v1

with_created : RawEvent → Option ℕ → Parsed
with_created raw none = refused missing_created
with_created raw (some c) =
    event (record { id = raw.id; type = raw.type; created = c; object_id = raw.object_id })

of_body : Option RawEvent → Parsed
unfolding with_created
of_body none = refused bad_json
of_body (some raw) = with_created raw raw.created

verified : Node → ℕ → Option ℕ × Option ℕ → Parsed
unfolding of_body
verified node body (none, v1) = refused malformed_signature
verified node body (some t, none) = refused malformed_signature
verified node body (some t, some v1) =
    if node.from_hex v1 == node.hmac t body
    then of_body (node.parse_json body)
    else refused invalid_signature

unfoldable pub construct_event_from_webhook : Node → ℕ → List SignaturePart → Parsed
unfolding verified signature_fields
construct_event_from_webhook node body parts = verified node body (signature_fields parts none none)

pub data Response : Type 0 where
  received_200 : (deduplicated : Bool) → Response
  missing_signature_401 invalid_signature_401 stale_event_401 : Response
  raw_body_required_400 internal_error_500 : Response

-- The answer, the database, and the event that `setImmediate` schedules.
pub record Outcome : Type 0 where
  pub response : Response
  pub db : Db
  pub scheduled : Option WebhookEvent

abbrev refuse : Response → Db → Outcome
refuse r d = record { response = r; db = d; scheduled = none }

after_insert : WebhookEvent → Result Bool × Db → Outcome
after_insert e (err x, d) = refuse internal_error_500 d
after_insert e (ok false, d) = refuse (received_200 true) d
after_insert e (ok true, d) = record { response = received_200 false; db = d; scheduled = some e }

-- `Date.now() - event.created * 1000 > toleranceMs` is written as a sum.
after_verify : ℕ → ℕ → ℕ → Link → Db → Parsed → Outcome
unfolding after_insert
after_verify tolerance date now l d (refused e) = refuse invalid_signature_401 d
after_verify tolerance date now l d (event e) =
    if ltb (e.created * 1000 + tolerance) date
    then refuse stale_event_401 d
    else after_insert e (insert_webhook_inbox e now l d)

-- POST webhook; the raw body is missing if the body parser did not keep it.
unfoldable pub webhook :
    Node → ℕ → ℕ → ℕ → Option (List SignaturePart) → Option ℕ → Link → Db → Outcome
unfolding after_verify
webhook node tolerance date now none body l d = refuse missing_signature_401 d
webhook node tolerance date now (some parts) none l d = refuse raw_body_required_400 d
webhook node tolerance date now (some parts) (some body) l d =
    after_verify tolerance date now l d (construct_event_from_webhook node body parts)

some_result : Result MarkResult × Db → Result (Option MarkResult) × Db
some_result (ok r, d) = (ok (some r), d)
some_result (err e, d) = (err e, d)

-- The settling step that `processEvent` and `reprocess` share: by type, the same two methods.
unfoldable pub settle_event :
    WebhookType → PspId → ℕ → TraceId → Clock → Link → Db → Result (Option MarkResult) × Db
unfolding some_result
settle_event intent_succeeded psp event_id trace clock l d =
    some_result (mark_completed psp event_id trace clock l d)
settle_event intent_payment_failed psp event_id trace clock l d =
    some_result (mark_failed psp psp_failed event_id trace clock l d)
settle_event (other_type n) psp event_id trace clock l d = (ok none, d)

-- markWebhookProcessed runs only if the step before it did not throw; a throw is logged.
pub then_mark : ℕ → ℕ → Link → Result (Option MarkResult) × Db → Db
then_mark e now l (err x, d) = d
then_mark e now l (ok r, d) = (mark_webhook_processed e now l d).1

-- The database after `processEvent`.
unfoldable pub process_event : WebhookEvent → TraceId → ℕ → Clock → Link → Link → Db → Db
unfolding settle_event then_mark
process_event e trace event_id clock l l' d =
    then_mark e.id clock.now l' (settle_event e.type e.object_id event_id trace clock l d)

-- `reprocess` of a row of the inbox; `n` is the UUID in its trace id.
unfoldable pub reprocess_row : InboxRow → ℕ → ℕ → Clock → Link → Link → Db → Db
unfolding settle_event then_mark
reprocess_row r n event_id clock l l' d =
    then_mark r.stripe_event_id clock.now l'
      (settle_event r.type r.payload.object_id event_id (reprocess n) clock l d)

abbrev is_unprocessed : InboxRow → Bool
is_unprocessed r = elim r.processed_at [ none ↦ true | some t ↦ false ]

insert_by_received : InboxRow → List InboxRow → List InboxRow
insert_by_received r [] = r ∷ []
insert_by_received r (x ∷ xs) =
    let rest = insert_by_received r xs in
    if leb r.received_at x.received_at then r ∷ x ∷ xs else x ∷ rest

order_by_received : List InboxRow → List InboxRow
unfolding insert_by_received
order_by_received [] = []
order_by_received (r ∷ rs) = insert_by_received r (order_by_received rs)

-- The ids that a round draws, and its clock and links.
pub record Round : Type 0 where
  pub trace : ℕ
  pub event_id : ℕ
  pub clock : Clock
  pub settle_link : Link
  pub mark_link : Link

reprocess_all : (ℕ → Round) → ℕ → List InboxRow → Db → Db
unfolding reprocess_row
reprocess_all rounds i [] d = d
reprocess_all rounds i (r ∷ rest) d =
    let k = rounds i in
    reprocess_all rounds (suc i) rest
      (reprocess_row r k.trace k.event_id k.clock k.settle_link k.mark_link d)

-- `tick` of the reprocessor; an error of its SELECT leaves everything for the next tick.
unfoldable pub tick : Bool → (ℕ → Round) → Db → Db
unfolding reprocess_all order_by_received
tick running rounds d =
    if running
    then d
    else reprocess_all rounds 0 (take 50 (order_by_received (select is_unprocessed d.inbox))) d
