-- ===== src/Seat/Sweeper/Batch.antt =====
-- What one sweep does to the seat database.
use technical_assignment.Common.{
  ℕ, suc, ◌≡◌, refl, ◌∙◌, Bool, none, some, List, [], ◌∷◌, arith, select, ok, Link, steady, done,
}
use technical_assignment.Common.Robust.{
  IsRobust, LostOrSteady, robust_rules, bind-IsRobust, run_tx-LostOrSteady,
}
use technical_assignment.Contracts.{TraceId, sweeper}
use technical_assignment.Seat.Db.{HoldRow, Db, free_seat}
use technical_assignment.Seat.Holds.{Clock, emit, released_event}
use technical_assignment.Seat.Sweeper.{
  batch, in_batch, sweep_row, sweep_rows, release_batch, tick_body, tick,
}

module _ (trace : TraceId) (fresh : ℕ → ℕ) (clock : Clock) where
  -- A round, and the loop, as functions on the database.
  abbrev pub swept_row : ℕ → HoldRow → Db → Db
  swept_row i r d =
      emit r.id (released_event r.seat_id sweeper (fresh i) trace clock.occurred)
        (record { trace_id = trace; user_id = none; reason = some sweeper }) clock.now
        (free_seat r.seat_id d)

  unfoldable pub swept : ℕ → List HoldRow → Db → Db
  swept i [] d = d
  swept i (r ∷ rest) d = swept (suc i) rest (swept_row i r d)

  sweep_rows-steady :
      (i : ℕ) (hs : List HoldRow) (d : Db)
      → sweep_rows trace fresh clock i hs steady d ≡ done tt steady (swept i hs d)
  unfolding sweep_rows swept
  sweep_rows-steady i [] d = refl
  sweep_rows-steady i (r ∷ rest) d = sweep_rows-steady (suc i) rest (swept_row i r d)

  sweep_rows-IsRobust : (i : ℕ) (hs : List HoldRow) → IsRobust (sweep_rows trace fresh clock i hs)
  unfolding sweep_rows
  sweep_rows-IsRobust i [] = search robust_rules
  sweep_rows-IsRobust i (r ∷ rest) =
      bind-IsRobust (sweep_row trace (fresh i) clock r)
        (λ _. sweep_rows trace fresh clock (suc i) rest) (unfold sweep_row in search robust_rules)
        (λ _. sweep_rows-IsRobust (suc i) rest)

  pub holds-swept : (i : ℕ) (hs : List HoldRow) (d : Db) → (swept i hs d).holds ≡ d.holds
  unfolding swept
  holds-swept i [] d = refl
  holds-swept i (r ∷ rest) d = holds-swept (suc i) rest (swept_row i r d) ∙ ground arith

module _ (limit : ℕ) (locked : ℕ → Bool) (trace : TraceId) (fresh : ℕ → ℕ) (clock : Clock)
    (d : Db) where
  abbrev pub chosen : List HoldRow
  chosen = batch limit locked clock.now d

  -- On a steady connection a tick releases the holds of its batch, and then, for each in turn, makes
  -- its seat available if no active hold is left on it and appends one event.
  pub tick_outcome : tick limit locked trace fresh clock steady d ≡ (
    ok (select (in_batch chosen) d.holds),
    swept trace fresh clock 0 (select (in_batch chosen) d.holds) (release_batch chosen clock.now d),
  )
  unfolding tick
  tick_outcome = rw (
      sweep_rows-steady trace fresh clock 0 (select (in_batch chosen) d.holds)
        (release_batch chosen clock.now d))

  -- Whatever happens to the connection, a tick either does what it does on a steady one, or throws;
  -- then the database is as it was or, where the answer to COMMIT was lost, as on a steady one.
  pub tick_atomic :
      (l : Link)
      → LostOrSteady
          (tick limit locked trace fresh clock l d)
          (tick limit locked trace fresh clock steady d)
          d
  unfolding tick
  tick_atomic l =
      run_tx-LostOrSteady (tick_body limit locked trace fresh clock) l d
        (unfold tick_body in search (robust_rules, sweep_rows-IsRobust))
