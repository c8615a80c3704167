-- ===== src/Payment/Intents/Settling.antt =====
-- How payment intents are settled: `markCompleted`, `markFailed` and `markFailedBySeatId`.
use technical_assignment.Common.{
  ℕ, suc, ◌≤◌, ◌≡◌, refl, inl, inr, Bool, true, Option, none, some, List, [], ◌∷◌, arith,
  Bool-cases, Option-cases, select, update_where, first_row, count_where, length, Result, ok, Link,
  steady, run_tx, first_row-select-none,
}
use technical_assignment.Common.Robust.{
  IsRobust, LostOrSteady, LostOrSteady-keeps, robust_rules, run_tx-LostOrSteady,
}
use technical_assignment.Contracts.{TraceId, AnyEvent, PspId, FailureReason}
use technical_assignment.Outbox.{append, length-append_row}
use technical_assignment.Payment.Db.{
  IntentStatus, PaymentIntentRow, Db, pending_psp, pending_seat, settled_row, is_pending,
}
use technical_assignment.Payment.Intents.{
  MarkResult, marked, no_pending_intent, Clock, announce, mark_body, mark_completed, mark_failed,
  mark_failed_by_seat_id, succeeded_event, failed_event,
}

-- What a settling transaction leaves, with the first selected row.
abbrev pub settled :
    (PaymentIntentRow → Bool)
    → IntentStatus
    → (PaymentIntentRow → AnyEvent)
    → TraceId
    → ℕ
    → Option PaymentIntentRow
    → Db
    → Result MarkResult × Db
settled p st event trace now none d = (ok no_pending_intent, d)
settled p st event trace now (some i) d = (
  ok (marked (settled_row st now i)),
  record d {
    intents = update_where p (settled_row st now) d.intents;
    outbox =
        append i.id (event i) (record { trace_id = trace; user_id = some i.user_id; reason = none })
          now d.outbox;
  },
)

module _ (p : PaymentIntentRow → Bool) (st : IntentStatus) (event : PaymentIntentRow → AnyEvent)
    (trace : TraceId) (now : ℕ) where
  mark_body_outcome :
      (d : Db)
      → run_tx (mark_body p st event trace now) steady d
        ≡ settled p st event trace now (first_row (select p d.intents)) d
  unfolding mark_body
  mark_body_outcome d = elim (Option-cases (first_row (select p d.intents))) [
    | inl e ↦ rw e (ground (arith, e))
    | inr (i, e) ↦ rw e (ground (arith, e))
  ]

  announce-IsRobust :
      (found : Option PaymentIntentRow) → IsRobust (announce st event trace now found)
  unfolding announce
  announce-IsRobust none = search robust_rules
  announce-IsRobust (some i) = search robust_rules

  mark_body-IsRobust : IsRobust (mark_body p st event trace now)
  unfolding mark_body
  mark_body-IsRobust = search (robust_rules, announce-IsRobust)

  mark_body_atomic :
      (l : Link) (d : Db)
      → LostOrSteady
          (run_tx (mark_body p st event trace now) l d)
          (run_tx (mark_body p st event trace now) steady d)
          d
  mark_body_atomic l d = run_tx-LostOrSteady (mark_body p st event trace now) l d mark_body-IsRobust

-- The state machine of one intent: it stays, or it leaves PENDING for good.
pub data Transition (i j : PaymentIntentRow) : Type 0 where
  stays : j ≡ i → Transition i j
  settles :
      (st : IntentStatus) (now : ℕ)
      → is_pending i.status ≡ true
      → j ≡ settled_row st now i
      → Transition i j

-- Row by row.
abbrev pub Evolves : List PaymentIntentRow → List PaymentIntentRow → Type 0
Evolves [] [] = Unit
Evolves [] (y ∷ ys) = ⊥
Evolves (x ∷ xs) [] = ⊥
Evolves (x ∷ xs) (y ∷ ys) = Transition x y × Evolves xs ys

Evolves-refl : (xs : List PaymentIntentRow) → Evolves xs xs
Evolves-refl [] = tt
Evolves-refl (x ∷ xs) = (stays refl, Evolves-refl xs)

Evolves-update_where :
    (p : PaymentIntentRow → Bool) (st : IntentStatus) (now : ℕ) (xs : List PaymentIntentRow)
    → ((x : PaymentIntentRow) → p x ≡ true → is_pending x.status ≡ true)
    → Evolves xs (update_where p (settled_row st now) xs)
Evolves-update_where p st now [] h = tt
Evolves-update_where p st now (x ∷ xs) h = elim (Bool-cases (p x)) [
  | inl e ↦ rw e (settles st now (h x e) refl, Evolves-update_where p st now xs h)
  | inr e ↦ rw e (stays refl, Evolves-update_where p st now xs h)
]

mark_body-Evolves :
    (p : PaymentIntentRow → Bool) (st : IntentStatus) (event : PaymentIntentRow → AnyEvent)
    (trace : TraceId) (now : ℕ) (l : Link) (d : Db)
    → ((x : PaymentIntentRow) → p x ≡ true → is_pending x.status ≡ true)
    → Evolves d.intents (run_tx (mark_body p st event trace now) l d).1.intents
mark_body-Evolves p st event trace now l d h =
    LostOrSteady-keeps (λ e. Evolves d.intents e.intents)
      (run_tx (mark_body p st event trace now) l d)
      (run_tx (mark_body p st event trace now) steady d) d
      (mark_body_atomic p st event trace now l d) (Evolves-refl d.intents)
      (rw (mark_body_outcome p st event trace now d)
        (elim (Option-cases (first_row (select p d.intents))) [
          | inl e ↦ rw e (Evolves-refl d.intents)
          | inr (i, e) ↦ rw e (Evolves-update_where p st now d.intents h)
        ]))

-- Whatever the connection does, each of the three settling methods moves an intent only out of
-- PENDING: one that is COMPLETED or FAILED is left exactly as it is, and none is added or removed.
pub marks-Evolves :
    (psp : PspId) (seat : ℕ) (reason : FailureReason) (event_id : ℕ) (trace : TraceId)
    (clock : Clock) (l : Link) (d : Db)
    → Evolves d.intents (mark_completed psp event_id trace clock l d).1.intents
      × Evolves d.intents (mark_failed psp reason event_id trace clock l d).1.intents
      × Evolves d.intents (mark_failed_by_seat_id seat reason event_id trace clock l d).1.intents
unfolding mark_completed mark_failed mark_failed_by_seat_id
marks-Evolves psp seat reason event_id trace clock l d = (
  mark_body-Evolves (pending_psp psp) IntentStatus.completed
      (λ i. succeeded_event i event_id trace clock.occurred) trace clock.now l d
      (λ x e. ground arith),
  mark_body-Evolves (pending_psp psp) IntentStatus.failed
      (λ i. failed_event i reason event_id trace clock.occurred) trace clock.now l d
      (λ x e. ground arith),
  mark_body-Evolves (pending_seat seat) IntentStatus.failed
      (λ i. failed_event i reason event_id trace clock.occurred) trace clock.now l d
      (λ x e. ground arith),
)

-- On a steady connection, `markCompleted` without a pending intent changes nothing, and otherwise
-- it completes every pending intent of the provider's id and appends one event, which reports the
-- amount, the hold and the user of the first of them.
pub mark_completed_outcome :
    (psp : PspId) (event_id : ℕ) (trace : TraceId) (clock : Clock) (d : Db)
    → mark_completed psp event_id trace clock steady d
      ≡ settled
          (pending_psp psp)
          IntentStatus.completed
          (λ i. succeeded_event i event_id trace clock.occurred)
          trace
          clock.now
          (first_row (select (pending_psp psp) d.intents))
          d
unfolding mark_completed
mark_completed_outcome psp event_id trace clock d =
    mark_body_outcome (pending_psp psp) IntentStatus.completed
      (λ i. succeeded_event i event_id trace clock.occurred) trace clock.now d

pub mark_failed_by_seat_id_outcome :
    (seat : ℕ) (reason : FailureReason) (event_id : ℕ) (trace : TraceId) (clock : Clock) (d : Db)
    → mark_failed_by_seat_id seat reason event_id trace clock steady d
      ≡ settled
          (pending_seat seat)
          IntentStatus.failed
          (λ i. failed_event i reason event_id trace clock.occurred)
          trace
          clock.now
          (first_row (select (pending_seat seat) d.intents))
          d
unfolding mark_failed_by_seat_id
mark_failed_by_seat_id_outcome seat reason event_id trace clock d =
    mark_body_outcome (pending_seat seat) IntentStatus.failed
      (λ i. failed_event i reason event_id trace clock.occurred) trace clock.now d

-- Where two or more intents of a seat are pending, `markFailedBySeatId` over a steady connection
-- makes each of them FAILED, leaves the other intents as they were, and appends one event.
pub mark_failed_by_seat_id_silent :
    (seat : ℕ) (reason : FailureReason) (event_id : ℕ) (trace : TraceId) (clock : Clock) (d : Db)
    → 2 ≤ count_where (pending_seat seat) d.intents
    → let d' = (mark_failed_by_seat_id seat reason event_id trace clock steady d).1 in
      (d'.intents
        ≡ update_where
            (pending_seat seat)
            (λ i. record i { status = IntentStatus.failed; completed_at = some clock.now })
            d.intents)
      × (length d'.outbox.entries ≡ suc (length d.outbox.entries))
mark_failed_by_seat_id_silent seat reason event_id trace clock d many =
    rw (mark_failed_by_seat_id_outcome seat reason event_id trace clock d)
      (elim (Option-cases (first_row (select (pending_seat seat) d.intents))) [
        | inl e ↦ absurd (omega (arith, first_row-select-none (pending_seat seat) d.intents e))
        | inr (i, e) ↦ rw e (
          refl,
          length-append_row i.id (failed_event i reason event_id trace clock.occurred)
              (record { trace_id = trace; user_id = some i.user_id; reason = none }) clock.now
              d.outbox,
        )
      ])

pub mark_failed_outcome :
    (psp : PspId) (reason : FailureReason) (event_id : ℕ) (trace : TraceId) (clock : Clock) (d : Db)
    → mark_failed psp reason event_id trace clock steady d
      ≡ settled
          (pending_psp psp)
          IntentStatus.failed
          (λ i. failed_event i reason event_id trace clock.occurred)
          trace
          clock.now
          (first_row (select (pending_psp psp) d.intents))
          d
unfolding mark_failed
mark_failed_outcome psp reason event_id trace clock d =
    mark_body_outcome (pending_psp psp) IntentStatus.failed
      (λ i. failed_event i reason event_id trace clock.occurred) trace clock.now d
