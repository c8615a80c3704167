-- ===== src/Payment/Traces.antt =====
-- The payment service at work: any interleaving of the statements and transactions that its handlers
-- send, by any number of replicas, over connections that may break.
use technical_assignment.Contracts.{PspId, TraceId, FailureReason, pi_mock}
use technical_assignment.Payment.Intents.{
  create_intent, Clock, mark_completed, mark_failed, mark_failed_by_seat_id, insert_webhook_inbox,
  mark_webhook_processed, insert_intent,
}
use technical_assignment.Payment.Intents.Settling.{
  Transition, Evolves, stays, settles, marks-Evolves,
}
use technical_assignment.Payment.Db.{
  PaymentIntentRow, Db, is_pending, with_key, IntentStatus, settled_row, WebhookEvent,
}
use technical_assignment.Common.{
  ℕ, List, ◌++◌, Link, ◌∷◌, Bool, count_where, inr, ◌≡◌, [], inl, ◌≤◌, true, ◌==◌, arith, ◌⊎◌, refl,
  Bool-cases, ◌∙◌, exists_where, false, ap, breaks, unanswered, count_where-append, suc, ==_iff,
  steady, exists_where-count, zero, settle, answer,
}

-- An INSERT of an intent, one of the settling transactions, or a write to the inbox.
pub data Step (d : Db) : Db → Type 0 where
  creates : (i : PaymentIntentRow) (l : Link) → Step d (create_intent i l d).1
  completes :
      (psp : PspId) (event_id : ℕ) (trace : TraceId) (clock : Clock) (l : Link)
      → Step d (mark_completed psp event_id trace clock l d).1
  fails :
      (psp : PspId) (reason : FailureReason) (event_id : ℕ) (trace : TraceId) (clock : Clock)
      (l : Link)
      → Step d (mark_failed psp reason event_id trace clock l d).1
  cancels :
      (seat : ℕ) (reason : FailureReason) (event_id : ℕ) (trace : TraceId) (clock : Clock)
      (l : Link)
      → Step d (mark_failed_by_seat_id seat reason event_id trace clock l d).1
  receives : (e : WebhookEvent) (now : ℕ) (l : Link) → Step d (insert_webhook_inbox e now l d).1
  marks : (e now : ℕ) (l : Link) → Step d (mark_webhook_processed e now l d).1

pub data Reach (d : Db) : Db → Type 0 where
  here : Reach d d
  next : {e f : Db} → Reach d e → Step e f → Reach d f

-- A later state of an intent: the same, or, where it is pending, one of the same deal.
abbrev pub Keeps : PaymentIntentRow → PaymentIntentRow → Type 0
Keeps i j =
    ((is_pending i.status ≡ true)
      × (j ≡ record i { status = j.status; completed_at = j.completed_at }))
    ⊎ (j ≡ i)

-- Later intents: each is still there at its place, and others may follow.
abbrev pub Grows : List PaymentIntentRow → List PaymentIntentRow → Type 0
Grows [] ys = Unit
Grows (x ∷ xs) [] = ⊥
Grows (x ∷ xs) (y ∷ ys) = Keeps x y × Grows xs ys

-- No two intents have one key, and no two have one id.
pub record IsKeyed (xs : List PaymentIntentRow) : Type 0 where
  pub keys : (k : ℕ) → count_where (with_key k) xs ≤ 1
  pub ids : (k : ℕ) → count_where (λ i. i.id == k) xs ≤ 1

Keeps-trans : {i j k : PaymentIntentRow} → Keeps i j → Keeps j k → Keeps i k
Keeps-trans (inr e) h = rw e at h
Keeps-trans {i} {j} {k} (inl (p, e)) (inr e') = inl (p, rw e' e)
Keeps-trans {i} {j} {k} (inl (p, e)) (inl (q, e')) = inl (
  p,
  e'
      ∙ ap (λ (x : PaymentIntentRow). record x { status = k.status; completed_at = k.completed_at })
          e,
)

Grows-refl : (xs : List PaymentIntentRow) → Grows xs xs
Grows-refl [] = tt
Grows-refl (x ∷ xs) = (inr refl, Grows-refl xs)

Grows-trans : (xs ys zs : List PaymentIntentRow) → Grows xs ys → Grows ys zs → Grows xs zs
Grows-trans [] ys zs h k = tt
Grows-trans (x ∷ xs) [] zs h k = absurd h
Grows-trans (x ∷ xs) (y ∷ ys) [] h k = absurd k
Grows-trans (x ∷ xs) (y ∷ ys) (z ∷ zs) h k =
    (Keeps-trans {i = x} {j = y} {k = z} h.0 k.0, Grows-trans xs ys zs h.1 k.1)

Grows-append : (xs : List PaymentIntentRow) (i : PaymentIntentRow) → Grows xs (xs ++ i ∷ [])
Grows-append [] i = tt
Grows-append (x ∷ xs) i = (inr refl, Grows-append xs i)

Transition-Keeps : {i j : PaymentIntentRow} → Transition i j → Keeps i j
Transition-Keeps (stays e) = inr e
Transition-Keeps (settles st now p e) = inl (p, rw e refl)

Evolves-Grows : (xs ys : List PaymentIntentRow) → Evolves xs ys → Grows xs ys
Evolves-Grows [] ys h = tt
Evolves-Grows (x ∷ xs) [] h = absurd h
Evolves-Grows (x ∷ xs) (y ∷ ys) h = (Transition-Keeps h.0, Evolves-Grows xs ys h.1)

-- A test that does not look at what settling writes counts the same rows.
Evolves-count :
    (p : PaymentIntentRow → Bool)
    → ((st : IntentStatus) (now : ℕ) (i : PaymentIntentRow) → p (settled_row st now i) ≡ p i)
    → (xs ys : List PaymentIntentRow) → Evolves xs ys
    → count_where p ys ≡ count_where p xs
Evolves-count p h [] [] e = refl
Evolves-count p h [] (y ∷ ys) e = absurd e
Evolves-count p h (x ∷ xs) [] e = absurd e
Evolves-count p h (x ∷ xs) (y ∷ ys) e =
    let rest = Evolves-count p h xs ys e.1 in ground (arith, rest, same e.0)
  where
    same : {i j : PaymentIntentRow} → Transition i j → p j ≡ p i
    same (stays e) = rw e refl
    same (settles st now q e) = rw e (h st now _)

Evolves-IsKeyed : (xs ys : List PaymentIntentRow) → Evolves xs ys → IsKeyed xs → IsKeyed ys
Evolves-IsKeyed xs ys e v = record {
  keys = λ k. rw (Evolves-count (with_key k) (λ st now i. refl) xs ys e) (v.keys k);
  ids = λ k. rw (Evolves-count (λ i. i.id == k) (λ st now i. refl) xs ys e) (v.ids k);
}

IsKeyed-append :
    (xs : List PaymentIntentRow) (i : PaymentIntentRow)
    → exists_where (λ r. r.id == i.id) xs ≡ false
    → exists_where (with_key i.idempotency_key) xs ≡ false
    → IsKeyed xs
    → IsKeyed (xs ++ i ∷ [])
IsKeyed-append xs i new_id new_key v = record {
  keys = λ k. one (λ r. r.idempotency_key) new_key k (v.keys k);
  ids = λ k. one (λ r. r.id) new_id k (v.ids k);
}
  where
    one :
        (f : PaymentIntentRow → ℕ)
        → exists_where (λ r. f r == f i) xs ≡ false
        → (k : ℕ) → count_where (λ r. f r == k) xs ≤ 1
        → count_where (λ r. f r == k) (xs ++ i ∷ []) ≤ 1
    one f new k few =
        rw (count_where-append (λ r. f r == k) xs (i ∷ [])) (elim (Bool-cases (f i == k)) [
          | inl same ↦
              let e : f i ≡ k = (==_iff (f i) k).0 same in
              let none_yet : count_where (λ r. f r == k) xs ≡ 0 =
                rw (← e) (exists_where-count (λ r. f r == f i) xs new) in
              ground (arith, same, none_yet)
          | inr other ↦ ground (arith, other, few)
        ])

-- What one step does to the intents.
abbrev KeepsBooks : Db → Db → Type 0
KeepsBooks d e = Grows d.intents e.intents × (IsKeyed d.intents → IsKeyed e.intents)

Evolves-KeepsBooks : (d e : Db) → Evolves d.intents e.intents → KeepsBooks d e
Evolves-KeepsBooks d e h =
    (Evolves-Grows d.intents e.intents h, Evolves-IsKeyed d.intents e.intents h)

same-KeepsBooks : (d e : Db) → e.intents ≡ d.intents → KeepsBooks d e
same-KeepsBooks d e h = rw h (Grows-refl d.intents, λ v. v)

insert_intent-KeepsBooks :
    (i : PaymentIntentRow) (l : Link) (d : Db)
    → KeepsBooks d (settle d (answer l (insert_intent i d))).1
insert_intent-KeepsBooks i l d = elim (Bool-cases (exists_where (λ r. r.id == i.id) d.intents)) [
  | inl old ↦ rw old (Grows-refl d.intents, λ v. v)
  | inr new_id ↦ elim (Bool-cases (exists_where (with_key i.idempotency_key) d.intents)) [
    | inl old ↦ rw (new_id, old) (Grows-refl d.intents, λ v. v)
    | inr new_key ↦
        rw (new_id, new_key) (Grows-append d.intents i, IsKeyed-append d.intents i new_id new_key)
  ]
]

create_intent-KeepsBooks :
    (i : PaymentIntentRow) (l : Link) (d : Db) → KeepsBooks d (create_intent i l d).1
unfolding create_intent
create_intent-KeepsBooks i steady d = insert_intent-KeepsBooks i steady d
create_intent-KeepsBooks i (breaks zero) d = (Grows-refl d.intents, λ v. v)
create_intent-KeepsBooks i (breaks (suc n)) d = insert_intent-KeepsBooks i (breaks n) d
create_intent-KeepsBooks i (unanswered zero) d = insert_intent-KeepsBooks i steady d
create_intent-KeepsBooks i (unanswered (suc n)) d = insert_intent-KeepsBooks i (unanswered n) d

Step-KeepsBooks : {d e : Db} → Step d e → KeepsBooks d e
unfolding insert_webhook_inbox mark_webhook_processed
Step-KeepsBooks {d} (creates i l) = create_intent-KeepsBooks i l d
Step-KeepsBooks {d} (completes psp event_id trace clock l) =
    Evolves-KeepsBooks d (mark_completed psp event_id trace clock l d).1
      (marks-Evolves psp 0 FailureReason.psp_failed event_id trace clock l d).0
Step-KeepsBooks {d} (fails psp reason event_id trace clock l) =
    Evolves-KeepsBooks d (mark_failed psp reason event_id trace clock l d).1
      (marks-Evolves psp 0 reason event_id trace clock l d).1
Step-KeepsBooks {d} (cancels seat reason event_id trace clock l) =
    Evolves-KeepsBooks d (mark_failed_by_seat_id seat reason event_id trace clock l d).1
      (marks-Evolves (pi_mock 0) seat reason event_id trace clock l d).2
Step-KeepsBooks {d} (receives e now l) =
    same-KeepsBooks d (insert_webhook_inbox e now l d).1 (ground arith)
Step-KeepsBooks {d} (marks e now l) =
    same-KeepsBooks d (mark_webhook_processed e now l d).1 (ground arith)

-- From a database in which no two intents have one key or one id, after any sequence of the payment
-- service's statements and transactions over connections that may break, no two have, and every
-- intent is still at its place: one that was COMPLETED or FAILED is as it was, and one that was
-- PENDING is for the same seat, hold and user at the same amount and currency, with the same id, key,
-- provider's id and secret.
pub Reach-Grows :
    {d e : Db} → Reach d e → IsKeyed d.intents → IsKeyed e.intents × Grows d.intents e.intents
Reach-Grows {d} here v = (v, Grows-refl d.intents)
Reach-Grows {d} {e} (next {e = m} r s) v =
    let (keyed, grown) = Reach-Grows r v in
    let (more, keeps) = Step-KeepsBooks s in
    (keeps keyed, Grows-trans d.intents m.intents e.intents grown more)
