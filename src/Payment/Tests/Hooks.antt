-- ===== src/Payment/Tests/Hooks.antt =====
-- Webhooks that are new, redelivered, forged or reprocessed.
use technical_assignment.Payment.Tests.{intent, at_time, psp_id, fresh_db, pending_db}
use technical_assignment.Payment.Webhooks.Inbox.{forged_is_refused, webhook_once}
use technical_assignment.Outbox.{OutboxRow}
use technical_assignment.Payment.Webhooks.Processing.{
  SameBooks, reprocess_after_process, reprocess_emits_malformed,
}
use technical_assignment.Contracts.{conforms, uuid}
use technical_assignment.Payment.Webhooks.{
  signature_fields, construct_event_from_webhook, webhook, reprocess_row, Node, SignaturePart,
  event, invalid_signature_401, process_event, received_200, t_part, v1_part,
}
use technical_assignment.Common.{
  ℕ, ◌≡◌, refl, ◌∷◌, List, [], none, ◌+◌, some, steady, true, breaks, ◌==◌, arith, false,
}
use technical_assignment.Payment.Db.{IntentStatus, WebhookEvent, InboxRow, intent_succeeded}

-- A signature is the sum of its time and the body; the body of this event is 6.
abbrev node : Node
node = record {
  hmac = λ t body. t + body;
  from_hex = λ v. v;
  parse_json = λ body.
      some (record { id = 900; type = intent_succeeded; created = some 1; object_id = psp_id });
}

abbrev signed : List SignaturePart
signed = t_part (some 1) ∷ v1_part (some 7) ∷ []

abbrev forged : List SignaturePart
forged = t_part (some 1) ∷ v1_part (some 8) ∷ []

abbrev paid_event : WebhookEvent
paid_event = record { id = 900; type = intent_succeeded; created = 1; object_id = psp_id }

mismatch :
    (t v1 : ℕ)
    → signature_fields forged none none ≡ (some t, some v1)
    → (node.from_hex v1 == node.hmac t 6) ≡ false
unfolding signature_fields
mismatch t v1 e = ground arith

forged_is_refused_example :
    webhook node 300000 2000 2000 (some forged) (some 6) steady fresh_db
    ≡ record { response = invalid_signature_401; db = fresh_db; scheduled = none }
forged_is_refused_example =
    forged_is_refused node 300000 2000 2000 forged 6 steady fresh_db mismatch

is_signed : construct_event_from_webhook node 6 signed ≡ event paid_event
unfolding construct_event_from_webhook
is_signed = refl

webhook_once_example :
    let first = webhook node 300000 2000 2000 (some signed) (some 6) steady fresh_db in
    (first.response ≡ received_200 false)
    × (first.scheduled ≡ some paid_event)
    × (webhook node 300000 9000 9000 (some signed) (some 6) steady first.db
        ≡ record { response = received_200 true; db = first.db; scheduled = none })
webhook_once_example =
    webhook_once node 300000 2000 9000 2000 9000 signed 6 fresh_db is_signed (omega arith)
      (omega arith) refl

abbrev inbox_row : InboxRow
inbox_row = record {
  stripe_event_id = 900;
  type = intent_succeeded;
  payload = paid_event;
  received_at = 2000;
  processed_at = none;
}

reprocess_after_process_example :
    SameBooks
      (reprocess_row inbox_row 77 301
        (at_time 9000)
        steady
        steady
        (process_event paid_event (uuid 5) 300 (at_time 2000) steady (breaks 0) pending_db))
      (process_event paid_event (uuid 5) 300 (at_time 2000) steady (breaks 0) pending_db)
reprocess_after_process_example =
    reprocess_after_process paid_event inbox_row (uuid 5) 77 300 301 (at_time 2000) (at_time 9000)
      (breaks 0) steady pending_db refl refl

reprocess_emits_malformed_example :
    let d' = reprocess_row inbox_row 77 300 (at_time 9000) steady steady pending_db in
    (x : OutboxRow) × (d'.outbox.entries ≡ x ∷ [])
    × (conforms x.payload ≡ false)
    × (d'.intents
        ≡ record intent { status = IntentStatus.completed; completed_at = some 9000 } ∷ [])
reprocess_emits_malformed_example =
    reprocess_emits_malformed inbox_row 77 300 (at_time 9000) steady pending_db refl refl
