-- ===== src/Payment/Webhooks/Processing.antt =====
-- Processing a webhook, and processing it again.
use technical_assignment.Outbox.{OutboxRow, new_row, Outbox}
use technical_assignment.Common.{
  ℕ, ◌≡◌, refl, inl, inr, false, none, List, [], ◌∷◌, arith, Option-cases, select, update_where,
  first_row, steady, Result, Link, Option, some, ◌∙◌, err, ok, ◌++◌, ap,
}
use technical_assignment.Contracts.{TraceId, PspId, FailureReason, psp_failed, reprocess, conforms}
use technical_assignment.Payment.Db.{
  IntentStatus, PaymentIntentRow, intent_succeeded, WebhookEvent, Db, pending_psp, settled_row,
  is_pending, WebhookType, InboxRow, other_type, intent_payment_failed,
}
use technical_assignment.Payment.Intents.{
  Clock, mark_completed, mark_failed, mark_webhook_processed, MarkResult, succeeded_event,
}
use technical_assignment.Payment.Intents.Settling.{mark_completed_outcome, mark_failed_outcome}
use technical_assignment.Payment.Webhooks.{
  process_event, then_mark, some_result, settle_event, reprocess_row,
}

-- The part of the database that settling changes.
abbrev pub SameBooks : Db → Db → Type 0
SameBooks d e = (d.intents ≡ e.intents) × (d.outbox ≡ e.outbox)

selected-none :
    (psp : PspId) (st : IntentStatus) (now : ℕ) (xs : List PaymentIntentRow)
    → is_pending st ≡ false
    → first_row (select (pending_psp psp) (update_where (pending_psp psp) (settled_row st now) xs))
      ≡ none
selected-none psp st now [] h = refl
selected-none psp st now (x ∷ xs) h = ground (arith, selected-none psp st now xs h)

-- After a settling method has run for a provider's id, no intent of that id is pending.
module _ (psp : PspId) (event_id : ℕ) (trace : TraceId) (clock : Clock) (d : Db) where
  none_after_completed :
      first_row
        (select (pending_psp psp) (mark_completed psp event_id trace clock steady d).1.intents)
      ≡ none
  none_after_completed =
      rw (mark_completed_outcome psp event_id trace clock d)
        (elim (Option-cases (first_row (select (pending_psp psp) d.intents))) [
          | inl e ↦ rw e e
          | inr (i, e) ↦ rw e (selected-none psp IntentStatus.completed clock.now d.intents refl)
        ])

  none_after_failed :
      (reason : FailureReason)
      → first_row (
          select (pending_psp psp) (mark_failed psp reason event_id trace clock steady d).1.intents)
        ≡ none
  none_after_failed reason =
      rw (mark_failed_outcome psp reason event_id trace clock d)
        (elim (Option-cases (first_row (select (pending_psp psp) d.intents))) [
          | inl e ↦ rw e e
          | inr (i, e) ↦ rw e (selected-none psp IntentStatus.failed clock.now d.intents refl)
        ])

-- Marking the inbox row, or failing to, leaves the books alone.
pub then_mark-SameBooks :
    (e now : ℕ) (l : Link) (r : Result (Option MarkResult) × Db)
    → SameBooks (then_mark e now l r) r.1
unfolding then_mark mark_webhook_processed
then_mark-SameBooks e now l (err x, d) = (refl, refl)
then_mark-SameBooks e now l (ok r, d) = (ground arith, ground arith)

-- With no pending intent of the id, settling changes nothing.
settle_none :
    (type : WebhookType) (psp : PspId) (event_id : ℕ) (trace : TraceId) (clock : Clock) (d : Db)
    → first_row (select (pending_psp psp) d.intents) ≡ none
    → (settle_event type psp event_id trace clock steady d).1 ≡ d
unfolding settle_event
settle_none intent_succeeded psp event_id trace clock d e =
    rw (mark_completed_outcome psp event_id trace clock d, e)
settle_none intent_payment_failed psp event_id trace clock d e =
    rw (mark_failed_outcome psp psp_failed event_id trace clock d, e)
settle_none (other_type n) psp event_id trace clock d e = refl

some_result-db : (r : Result MarkResult × Db) → (some_result r).1 ≡ r.1
unfolding some_result
some_result-db (ok r, d) = refl
some_result-db (err e, d) = refl

-- Settling twice, with whatever ids, trace and clock, is settling once.
settle_again :
    (type : WebhookType) (psp : PspId) (event_id event' : ℕ) (trace trace' : TraceId)
    (clock clock' : Clock) (d f : Db)
    → f.intents ≡ (settle_event type psp event_id trace clock steady d).1.intents
    → (settle_event type psp event' trace' clock' steady f).1 ≡ f
settle_again intent_succeeded psp event_id event' trace trace' clock clock' d f same =
    settle_none intent_succeeded psp event' trace' clock' f (
      rw same (
        unfold settle_event in
        rw (some_result-db (mark_completed psp event_id trace clock steady d))
          (none_after_completed psp event_id trace clock d)))
settle_again intent_payment_failed psp event_id event' trace trace' clock clock' d f same =
    settle_none intent_payment_failed psp event' trace' clock' f (
      rw same (
        unfold settle_event in
        rw (some_result-db (mark_failed psp psp_failed event_id trace clock steady d))
          (none_after_failed psp event_id trace clock d psp_failed)))
settle_again (other_type n) psp event_id event' trace trace' clock clock' d f same =
    unfold settle_event in refl

pub settled_once :
    (type : WebhookType) (psp : PspId) (event_id : ℕ) (trace : TraceId) (clock : Clock) (d : Db)
    → type ≡ intent_succeeded
    → (settle_event type psp event_id trace clock steady d).1
      ≡ (mark_completed psp event_id trace clock steady d).1
unfolding settle_event
settled_once type psp event_id trace clock d h =
    rw (h, some_result-db (mark_completed psp event_id trace clock steady d))

-- Whether or not its inbox row could be marked, an event that was processed is safe to reprocess:
-- the second run settles no intent and appends nothing to the outbox.
pub reprocess_after_process :
    (e : WebhookEvent) (r : InboxRow) (trace : TraceId) (n event_id event' : ℕ)
    (clock clock' : Clock) (l l' : Link) (d : Db)
    → r.type ≡ e.type
    → r.payload.object_id ≡ e.object_id
    → SameBooks
        (reprocess_row r n event' clock' steady l'
          (process_event e trace event_id clock steady l d))
        (process_event e trace event_id clock steady l d)
unfolding process_event reprocess_row
reprocess_after_process e r trace n event_id event' clock clock' l l' d ht ho =
    let once = settle_event e.type e.object_id event_id trace clock steady d in
    let f = then_mark e.id clock.now l once in
    let books = then_mark-SameBooks e.id clock.now l once in
    let again =
      settle_again e.type e.object_id event_id event' trace (reprocess n) clock clock' d f
        books.0 in
    let marks =
      then_mark-SameBooks r.stripe_event_id clock'.now l'
        (settle_event e.type e.object_id event' (reprocess n) clock' steady f) in
    rw (ht, ho)
      (marks.0 ∙ ap (λ (x : Db). x.intents) again, marks.1 ∙ ap (λ (x : Db). x.outbox) again)

pub entries_after_completed :
    (psp : PspId) (event_id : ℕ) (trace : TraceId) (clock : Clock) (d : Db) {i : PaymentIntentRow}
    → first_row (select (pending_psp psp) d.intents) ≡ some i
    → (mark_completed psp event_id trace clock steady d).1.outbox.entries
      ≡ d.outbox.entries
        ++ new_row d.outbox.next_id i.id
            (succeeded_event i event_id trace clock.occurred)
            (record { trace_id = trace; user_id = some i.user_id; reason = none })
            clock.now
          ∷ []
entries_after_completed psp event_id trace clock d found =
    rw (mark_completed_outcome psp event_id trace clock d, found)

-- Where the first run never happened, so that the intent of a success is pending, the reprocessor
-- over a steady connection makes the pending intents of that provider id COMPLETED and changes no
-- other intent, but the event that it appends has a trace id that is no UUID, and does not conform
-- to the contracts.
pub reprocess_emits_malformed :
    (r : InboxRow) (n event_id : ℕ) (clock : Clock) (l : Link) (d : Db) {i : PaymentIntentRow}
    → r.type ≡ intent_succeeded
    → first_row (select (pending_psp r.payload.object_id) d.intents) ≡ some i
    → let d' = reprocess_row r n event_id clock steady l d in
      (x : OutboxRow) × (d'.outbox.entries ≡ d.outbox.entries ++ x ∷ [])
      × (conforms x.payload ≡ false)
      × (d'.intents
          ≡ update_where
              (pending_psp r.payload.object_id)
              (λ j. record j { status = IntentStatus.completed; completed_at = some clock.now })
              d.intents)
unfolding reprocess_row
reprocess_emits_malformed r n event_id clock l d {i} ht found =
    let psp = r.payload.object_id in
    let sent = succeeded_event i event_id (reprocess n) clock.occurred in
    let once = settle_event r.type psp event_id (reprocess n) clock steady d in
    let books = then_mark-SameBooks r.stripe_event_id clock.now l once in
    let out = settled_once r.type psp event_id (reprocess n) clock d ht in
    (
      new_row d.outbox.next_id i.id sent
          (record { trace_id = reprocess n; user_id = some i.user_id; reason = none }) clock.now,
      ap (λ (o : Outbox). o.entries) books.1
          ∙ ap (λ (x : Db). x.outbox.entries) out
          ∙ entries_after_completed psp event_id (reprocess n) clock d found,
      unfold conforms succeeded_event in refl,
      rw (books.0, out, mark_completed_outcome psp event_id (reprocess n) clock d, found) refl,
    )
