-- ===== src/Outbox/Delivery.antt =====
-- What a tick of the outbox worker guarantees.
use technical_assignment.Common.{
  ℕ, ◌+◌, ◌≡◌, refl, ◌⊎◌, inl, inr, Bool, true, false, List, [], ◌∷◌, arith, ◌==◌, exists_where,
  exists_where-update_where, ◌∙◌,
}
use technical_assignment.Outbox.{OutboxRow}
use technical_assignment.Outbox.Worker.{
  row_id, recover, is_stuck, due_rows, mark_processing, Attempt, confirmed, refused, cut_before,
  cut_after, rescheduled_row, reschedule, delete_row, process_rows, run_batch, tick, marked_row,
  requeued_row, in_rows,
}

-- A row is in the table, or among those that were published.
abbrev pub KeptOrSent : ℕ → List OutboxRow × List OutboxRow → Type 0
KeptOrSent i (t, sent) = (exists_where (row_id i) t ≡ true) ⊎ (exists_where (row_id i) sent ≡ true)

pub Attempt-cases :
    (a : Attempt)
    → (a ≡ confirmed) ⊎ (((now : ℕ) × (a ≡ refused now)) ⊎ ((a ≡ cut_before) ⊎ (a ≡ cut_after)))
Attempt-cases confirmed = inl refl
Attempt-cases (refused now) = inr (inl (now, refl))
Attempt-cases cut_before = inr (inr (inl refl))
Attempt-cases cut_after = inr (inr (inr refl))

module _ (i : ℕ) where
  sent_more :
      (r : OutboxRow) (p : List OutboxRow × List OutboxRow)
      → KeptOrSent i p
      → KeptOrSent i (p.0, r ∷ p.1)
  sent_more r (t, sent) (inl h) = inl h
  sent_more r (t, sent) (inr h) = inr (ground (arith, h))

  has_row-delete_row :
      (j : ℕ) (t : List OutboxRow)
      → exists_where (row_id i) t ≡ true
      → (exists_where (row_id i) (delete_row j t) ≡ true) ⊎ ((j == i) ≡ true)
  unfolding delete_row
  has_row-delete_row j [] h = cc
  has_row-delete_row j (r ∷ t) h = ground (arith, has_row-delete_row j t)

  has_row-reschedule :
      (now : ℕ) (r : OutboxRow) (t : List OutboxRow)
      → exists_where (row_id i) (reschedule now r t) ≡ exists_where (row_id i) t
  unfolding reschedule
  has_row-reschedule now r t =
      exists_where-update_where (row_id i) (row_id r.id) (row_id i)
        (rescheduled_row now (r.attempts + 1)) t (λ x. ground arith)

  process_rows-KeptOrSent :
      (attempt : OutboxRow → Attempt) (rs t : List OutboxRow)
      → exists_where (row_id i) t ≡ true
      → KeptOrSent i (process_rows attempt rs t)
  unfolding process_rows
  process_rows-KeptOrSent attempt [] t h = inl h
  process_rows-KeptOrSent attempt (r ∷ rest) t h = elim (Attempt-cases (attempt r)) [
    | inl e ↦
        rw (e, process_rows)
          (elim (has_row-delete_row r.id t h) [
            | inl left ↦
                sent_more r _ (process_rows-KeptOrSent attempt rest (delete_row r.id t) left)
            | inr same ↦ inr (rw same)
          ])
    | inr (inl (now, e)) ↦
        rw (e, process_rows)
          (process_rows-KeptOrSent attempt rest (reschedule now r t)
            (has_row-reschedule now r t ∙ h))
    | inr (inr (inl e)) ↦ rw (e, process_rows) (inl h)
    | inr (inr (inr e)) ↦ rw (e, process_rows) (inl h)
  ]

  has_row-recover :
      (now : ℕ) (t : List OutboxRow)
      → exists_where (row_id i) (recover now t) ≡ exists_where (row_id i) t
  unfolding recover
  has_row-recover now t =
      exists_where-update_where (row_id i) (is_stuck now) (row_id i) (requeued_row now) t
        (λ x. ground arith)

  has_row-mark_processing :
      (rs t : List OutboxRow)
      → exists_where (row_id i) (mark_processing rs t) ≡ exists_where (row_id i) t
  unfolding mark_processing
  has_row-mark_processing rs t =
      exists_where-update_where (row_id i) (in_rows rs) (row_id i) marked_row t (λ x. ground arith)

  run_batch-KeptOrSent :
      (attempt : OutboxRow → Attempt) (rs t : List OutboxRow)
      → exists_where (row_id i) t ≡ true
      → KeptOrSent i (run_batch attempt rs t)
  run_batch-KeptOrSent attempt [] t h = inl h
  run_batch-KeptOrSent attempt (r ∷ rs) t h =
      process_rows-KeptOrSent attempt (r ∷ rs) (mark_processing (r ∷ rs) t)
        (has_row-mark_processing (r ∷ rs) t ∙ h)

-- No event is lost: whatever the broker does, and wherever the tick is cut off, a row that was in
-- the table is there after the tick, or was published by it.
pub tick-KeptOrSent :
    (running : Bool) (locked : ℕ → Bool) (now : ℕ) (attempt : OutboxRow → Attempt)
    (t : List OutboxRow) (i : ℕ)
    → exists_where (row_id i) t ≡ true
    → KeptOrSent i (tick running locked now attempt t)
unfolding tick
tick-KeptOrSent true locked now attempt t i h = inl h
tick-KeptOrSent false locked now attempt t i h =
    run_batch-KeptOrSent i attempt (due_rows locked now (recover now t)) (recover now t)
      (has_row-recover i now t ∙ h)
