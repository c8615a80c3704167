-- ===== src/Payment/Webhooks/Inbox.antt =====
-- Which deliveries of the provider get in, and how often.
use technical_assignment.Common.{
  ℕ, ◌+◌, ◌*◌, ◌≤◌, ◌<◌, ◌≡◌, refl, true, false, Option, none, some, List, arith, ◌==◌, ==_refl,
  exists_where, exists_where-last, Link, steady,
}
use technical_assignment.Payment.Db.{WebhookEvent, Db, with_event}
use technical_assignment.Payment.Intents.{insert_webhook_inbox}
use technical_assignment.Payment.Webhooks.{
  SignaturePart, Node, event, signature_fields, construct_event_from_webhook, received_200, webhook,
  invalid_signature_401, stale_event_401, after_verify, verified,
}

-- A delivery whose `v1` does not decode to the HMAC of its `t` and its body is answered by an
-- error, with nothing written and nothing scheduled.
pub forged_is_refused :
    (node : Node) (tolerance date now : ℕ) (parts : List SignaturePart) (body : ℕ) (l : Link)
    (d : Db)
    → ((t v1 : ℕ)
        → signature_fields parts none none ≡ (some t, some v1)
        → (node.from_hex v1 == node.hmac t body) ≡ false)
    → webhook node tolerance date now (some parts) (some body) l d
      ≡ record { response = invalid_signature_401; db = d; scheduled = none }
unfolding webhook construct_event_from_webhook
forged_is_refused node tolerance date now parts body l d forged =
    by_fields (signature_fields parts none none) forged
  where
    by_fields :
        (f : Option ℕ × Option ℕ)
        → ((t v1 : ℕ) → f ≡ (some t, some v1) → (node.from_hex v1 == node.hmac t body) ≡ false)
        → after_verify tolerance date now l d (verified node body f)
          ≡ record { response = invalid_signature_401; db = d; scheduled = none }
    by_fields (none, v1) h = refl
    by_fields (some t, none) h = refl
    by_fields (some t, some v1) h = rw (h t v1 refl)

-- A verified event that is older than the tolerance is refused, and nothing is written.
stale_is_refused :
    (node : Node) (tolerance date now : ℕ) (parts : List SignaturePart) (body : ℕ) (l : Link)
    (d : Db) {e : WebhookEvent}
    → construct_event_from_webhook node body parts ≡ event e
    → e.created * 1000 + tolerance < date
    → webhook node tolerance date now (some parts) (some body) l d
      ≡ record { response = stale_event_401; db = d; scheduled = none }
unfolding webhook
stale_is_refused node tolerance date now parts body l d {e} good old = rw good (ground arith)

-- A verified event within the tolerance that the inbox does not have is accepted over a steady
-- connection and scheduled; its redelivery, as long as it is within the tolerance, is acknowledged,
-- changes nothing and schedules nothing.
pub webhook_once :
    (node : Node) (tolerance date date' now now' : ℕ) (parts : List SignaturePart) (body : ℕ)
    (d : Db) {e : WebhookEvent}
    → construct_event_from_webhook node body parts ≡ event e
    → date ≤ e.created * 1000 + tolerance
    → date' ≤ e.created * 1000 + tolerance
    → exists_where (with_event e.id) d.inbox ≡ false
    → let first = webhook node tolerance date now (some parts) (some body) steady d in
      (first.response ≡ received_200 false)
      × (first.scheduled ≡ some e)
      × (webhook node tolerance date' now' (some parts) (some body) steady first.db
          ≡ record { response = received_200 true; db = first.db; scheduled = none })
unfolding webhook insert_webhook_inbox
webhook_once node tolerance date date' now now' parts body d {e} good young young' fresh = rw good (
  ground (arith, fresh),
  ground (arith, fresh),
  ground (
    arith,
    fresh,
    ==_refl e.id,
    exists_where-last (with_event e.id) d.inbox (record {
      stripe_event_id = e.id;
      type = e.type;
      payload = e;
      received_at = now;
      processed_at = none;
    }),
  ),
)
