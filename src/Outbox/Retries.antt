-- ===== src/Outbox/Retries.antt =====
-- How often and how late the outbox worker retries, and what it publishes.
use native.Mathlib.Nat.{pow-suc}
use technical_assignment.Common.{
  ℕ, zero, suc, ◌+◌, ◌*◌, ◌^◌, ◌≤◌, ◌<◌, ◌≡◌, refl, inl, inr, Bool, true, false, List, [], ◌∷◌,
  arith, leb, if◌then◌else◌, Bool-cases, All, min, All-update_where,
}
use technical_assignment.Outbox.{OutboxState, pending, processing, dead, OutboxRow}
use technical_assignment.Outbox.Delivery.{Attempt-cases}
use technical_assignment.Outbox.Worker.{
  row_id, recover, is_stuck, due_rows, mark_processing, Attempt, backoff_ms, rescheduled_row,
  reschedule, delete_row, process_rows, run_batch, tick, marked_row, requeued_row, max_attempts,
  in_rows, base_backoff_ms,
}

abbrev pub is_dead : OutboxState → Bool
is_dead pending = false
is_dead processing = false
is_dead dead = true

-- A DEAD row has used up its attempts.
abbrev pub SpentIfDead : OutboxRow → Type 0
SpentIfDead r = (if is_dead r.state then leb max_attempts r.attempts else true) ≡ true

reschedule-SpentIfDead :
    (now : ℕ) (r : OutboxRow) (t : List OutboxRow)
    → All SpentIfDead t
    → All SpentIfDead (reschedule now r t)
unfolding reschedule
reschedule-SpentIfDead now r t h =
    All-update_where SpentIfDead SpentIfDead (row_id r.id) (rescheduled_row now (r.attempts + 1)) t
      (λ x c e. ground arith) (λ x c e. c) h

delete_row-SpentIfDead :
    (i : ℕ) (t : List OutboxRow) → All SpentIfDead t → All SpentIfDead (delete_row i t)
unfolding delete_row
delete_row-SpentIfDead i [] h = tt
delete_row-SpentIfDead i (r ∷ t) h = elim (Bool-cases (row_id i r)) [
  | inl e ↦ rw e (delete_row-SpentIfDead i t h.1)
  | inr e ↦ rw e (h.0, delete_row-SpentIfDead i t h.1)
]

process_rows-SpentIfDead :
    (attempt : OutboxRow → Attempt) (rs t : List OutboxRow)
    → All SpentIfDead t
    → All SpentIfDead (process_rows attempt rs t).0
unfolding process_rows
process_rows-SpentIfDead attempt [] t h = h
process_rows-SpentIfDead attempt (r ∷ rest) t h = elim (Attempt-cases (attempt r)) [
  | inl e ↦
      rw (e, process_rows)
        (process_rows-SpentIfDead attempt rest (delete_row r.id t)
          (delete_row-SpentIfDead r.id t h))
  | inr (inl (now, e)) ↦
      rw (e, process_rows)
        (process_rows-SpentIfDead attempt rest (reschedule now r t)
          (reschedule-SpentIfDead now r t h))
  | inr (inr (inl e)) ↦ rw (e, process_rows) h
  | inr (inr (inr e)) ↦ rw (e, process_rows) h
]

run_batch-SpentIfDead :
    (attempt : OutboxRow → Attempt) (rs t : List OutboxRow)
    → All SpentIfDead t
    → All SpentIfDead (run_batch attempt rs t).0
unfolding mark_processing
run_batch-SpentIfDead attempt [] t h = h
run_batch-SpentIfDead attempt (r ∷ rs) t h =
    process_rows-SpentIfDead attempt (r ∷ rs) (mark_processing (r ∷ rs) t) (
      All-update_where SpentIfDead SpentIfDead (in_rows (r ∷ rs)) marked_row t (λ x c e. refl)
        (λ x c e. c) h)

-- If every DEAD row of the table has used up its ten attempts, the same holds after a tick, whatever
-- the broker does.
pub tick-SpentIfDead :
    (running : Bool) (locked : ℕ → Bool) (now : ℕ) (attempt : OutboxRow → Attempt)
    (t : List OutboxRow)
    → All SpentIfDead t
    → All SpentIfDead (tick running locked now attempt t).0
unfolding tick recover
tick-SpentIfDead true locked now attempt t h = h
tick-SpentIfDead false locked now attempt t h =
    run_batch-SpentIfDead attempt (due_rows locked now (recover now t)) (recover now t) (
      All-update_where SpentIfDead SpentIfDead (is_stuck now) (requeued_row now) t (λ x c e. refl)
        (λ x c e. c) h)

-- The row after a number of failed attempts, each at its own time.
unfoldable pub retried : (ℕ → ℕ) → ℕ → OutboxRow → OutboxRow
unfolding rescheduled_row
retried at' zero r = r
retried at' (suc n) r = let q = retried at' n r in rescheduled_row (at' n) (q.attempts + 1) q

attempts-retried :
    (at' : ℕ → ℕ) (n : ℕ) (r : OutboxRow) → (retried at' n r).attempts ≡ r.attempts + n
unfolding retried
attempts-retried at' zero r = omega arith
attempts-retried at' (suc n) r = ground (arith, attempts-retried at' n r)

-- A row that was never tried is retried nine times, pending after each, and is DEAD from the tenth
-- failure on; and no failure changes what it would publish.
pub retried_until_dead :
    (at' : ℕ → ℕ) (n : ℕ) (r : OutboxRow)
    → r.attempts ≡ 0
    → r.state ≡ pending
    → (is_dead (retried at' n r).state ≡ leb max_attempts n)
      × ((retried at' n r).payload ≡ r.payload)
      × ((retried at' n r).event_type ≡ r.event_type)
unfolding retried
retried_until_dead at' zero r h k = ground arith
retried_until_dead at' (suc n) r h k =
    ground (arith, attempts-retried at' n r, retried_until_dead at' n r h k)

pow_bounds : (k : ℕ) → k ≤ 8 → (1 ≤ 2 ^ k) × (2 ^ k ≤ 256)
pow_bounds zero h = omega arith
pow_bounds (suc zero) h = omega arith
pow_bounds (suc (suc zero)) h = omega arith
pow_bounds (suc (suc (suc zero))) h = omega arith
pow_bounds (suc (suc (suc (suc zero)))) h = omega arith
pow_bounds (suc (suc (suc (suc (suc zero))))) h = omega arith
pow_bounds (suc (suc (suc (suc (suc (suc zero)))))) h = omega arith
pow_bounds (suc (suc (suc (suc (suc (suc (suc zero))))))) h = omega arith
pow_bounds (suc (suc (suc (suc (suc (suc (suc (suc zero)))))))) h = omega arith
pow_bounds (suc (suc (suc (suc (suc (suc (suc (suc (suc k))))))))) h = absurd (omega arith)

-- The delay lies between 1 and 256 seconds, doubles with each of the first eight failures, and
-- stays as it is from then on.
pub backoff_ms_bounds :
    (n : ℕ)
    → (1000 ≤ backoff_ms n)
      × (backoff_ms n ≤ 256000)
      × (backoff_ms (suc n) ≡ (if leb 8 n then backoff_ms n else 2 * backoff_ms n))
unfolding backoff_ms
backoff_ms_bounds n =
    let b = pow_bounds (min n 8) (omega arith) in
    (
      omega (arith, b.0),
      omega (arith, b.1),
      elim (Bool-cases (leb 8 n)) [
        | inl e ↦ rw e (capped (ground arith))
        | inr e ↦ rw e (doubles (ground arith))
      ],
    )
  where
    capped : 8 ≤ n → base_backoff_ms * 2 ^ min (suc n) 8 ≡ base_backoff_ms * 2 ^ min n 8
    capped h =
        let this : min n 8 ≡ 8 = omega arith in
        let next : min (suc n) 8 ≡ 8 = omega arith in rw (this, next) refl

    doubles : n < 8 → base_backoff_ms * 2 ^ min (suc n) 8 ≡ 2 * (base_backoff_ms * 2 ^ min n 8)
    doubles h =
        let small : min n 8 ≡ n = omega arith in
        let next : min (suc n) 8 ≡ suc n = omega arith in
        rw (small, next) (omega (arith, pow-suc 2 n))
