-- ===== src/Seat/Sweeper.antt =====
-- apps/seat-reservation/src/holds/hold-sweeper.ts: `HoldSweeper.tick`, one transaction over a
-- batch of expired holds. The timer of `start` decides when it runs, which any sequence of steps
-- allows for.
pub mod Batch
pub mod Complete
pub mod Keeps
use technical_assignment.Common.{
  ℕ, zero, suc, ◌+◌, Bool, true, false, not, ◌&&◌, Option, none, some, List, [], ◌∷◌, ◌==◌, ltb,
  if◌then◌else◌, take, select, exists_where, Link, steady, breaks, unanswered, Tx, query, rows,
  pure, ◌>>=◌, ◌>>◌, Verdict, commit, Result, run_tx,
}
use technical_assignment.Contracts.{TraceId, ReleaseReason, sweeper}
use technical_assignment.Outbox.{Headers}
use technical_assignment.Seat.Db.{HoldRow, Db, is_held, released_row, free_seat, update_holds}
use technical_assignment.Seat.Holds.{Clock, exec, emit, released_event}
use technical_assignment.Seat.Bus.{BusEvent, released_now}

-- status = 'HELD' AND held_until < NOW()
abbrev pub run_out : ℕ → HoldRow → Bool
run_out now h = is_held h.status && ltb h.held_until now

-- SELECT id … FOR UPDATE SKIP LOCKED LIMIT $1. `locked` says which rows another transaction holds.
abbrev pub batch : ℕ → (ℕ → Bool) → ℕ → Db → List HoldRow
batch limit locked now d = take limit (select (λ h. run_out now h && not (locked h.id)) d.holds)

-- WHERE id IN (…)
abbrev pub in_batch : List HoldRow → HoldRow → Bool
in_batch hs h = exists_where (λ b. b.id == h.id) hs

-- One round of the loop; `event_id` is what `randomUUID` draws in it.
unfoldable pub sweep_row : TraceId → ℕ → Clock → HoldRow → Tx Db (Unit {0})
sweep_row trace event_id clock r = do
  exec (free_seat r.seat_id)
  exec (
      emit r.id (released_event r.seat_id sweeper event_id trace clock.occurred)
        (record { trace_id = trace; user_id = none; reason = some sweeper }) clock.now)

-- The loop over the released rows. `fresh i` is the event id drawn in round `i`.
unfoldable pub sweep_rows : TraceId → (ℕ → ℕ) → Clock → ℕ → List HoldRow → Tx Db (Unit {0})
unfolding sweep_row
sweep_rows trace fresh clock i [] = pure tt
sweep_rows trace fresh clock i (r ∷ rest) = do
  sweep_row trace (fresh i) clock r
  sweep_rows trace fresh clock (suc i) rest

-- UPDATE holds … RETURNING id, seat_id
abbrev pub release_batch : List HoldRow → ℕ → Db → Db
release_batch hs now d = update_holds (in_batch hs) (released_row now) d

unfoldable pub tick_body :
    ℕ → (ℕ → Bool) → TraceId → (ℕ → ℕ) → Clock → Tx Db (Verdict (List HoldRow))
unfolding sweep_rows
tick_body limit locked trace fresh clock = do
  found ← query (λ d.
      let hs = batch limit locked clock.now d in
      rows (select (in_batch hs) d.holds) (release_batch hs clock.now d))
  sweep_rows trace fresh clock 0 found
  pure (commit found)

-- The database after a tick, with the rows that were released.
unfoldable pub tick :
    ℕ → (ℕ → Bool) → TraceId → (ℕ → ℕ) → Clock → Link → Db → Result (List HoldRow) × Db
unfolding tick_body
tick limit locked trace fresh clock = run_tx (tick_body limit locked trace fresh clock)

-- What the loop has put on the event bus when it ends or the link breaks: each round sends two
-- statements and then emits, before COMMIT.
unfoldable pub emitted : List HoldRow → Link → List BusEvent
emitted [] l = []
emitted (r ∷ rest) steady = released_now r.seat_id ∷ emitted rest steady
emitted (r ∷ rest) (breaks zero) = []
emitted (r ∷ rest) (breaks (suc zero)) = []
emitted (r ∷ rest) (breaks (suc (suc n))) = released_now r.seat_id ∷ emitted rest (breaks n)
emitted (r ∷ rest) (unanswered zero) = []
emitted (r ∷ rest) (unanswered (suc zero)) = []
emitted (r ∷ rest) (unanswered (suc (suc n))) = released_now r.seat_id ∷ emitted rest (unanswered n)
