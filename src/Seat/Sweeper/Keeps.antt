-- ===== src/Seat/Sweeper/Keeps.antt =====
-- A sweep keeps the seat database consistent.
use technical_assignment.Common.{
  All-map, ℕ, suc, ◌<◌, ◌≡◌, refl, ◌∙◌, inl, inr, Bool, true, List, [], ◌∷◌, arith, ◌==◌,
  if◌then◌else◌, Bool-cases, select, exists_where, count_where, All, ltb, Link,
  count_where-update_where-le, All-update_where, exists_where-count, count-exists_where,
  exists_where-uncounted,
}
use technical_assignment.Common.Robust.{LostOrSteady-keeps}
use technical_assignment.Contracts.{TraceId}
use technical_assignment.Seat.Db.{
  HoldRow, SeatStatus, SeatRow, Db, active_on, active_by, released_row, free_seat, with_status,
}
use technical_assignment.Seat.Consistent.{IsConsistent, Matches, with_id, is_held_seat}
use technical_assignment.Seat.Holds.{Clock}
use technical_assignment.Seat.Sweeper.{in_batch, release_batch, tick}
use technical_assignment.Seat.Sweeper.Batch.{
  chosen, swept, swept_row, holds-swept, tick_outcome, tick_atomic,
}

abbrev of_seat : ℕ → HoldRow → Bool
of_seat s h = h.seat_id == s

-- In the loop a seat may still be shown as held for a released row that has not been visited.
abbrev MatchesBut : List HoldRow → List HoldRow → SeatRow → Type 0
MatchesBut rest hs s =
    (if ltb 0 (count_where (active_on s.id) hs)
      then is_held_seat s.status
      else if is_held_seat s.status
      then exists_where (of_seat s.id) rest
      else true)
    ≡ true

-- UPDATE holds leaves every mismatch among the rows that it returns.
after_release :
    (hs : List HoldRow) (now : ℕ) (d : Db) (s : SeatRow)
    → Matches d.holds s
    → MatchesBut (select (in_batch hs) d.holds) (release_batch hs now d).holds s
after_release hs now d s m = ground (
  arith,
  m,
  count_where-update_where-le (active_on s.id) (in_batch hs) (released_row now) d.holds
      (λ x e k. ground arith),
  exists_where-uncounted (active_on s.id) (in_batch hs) (of_seat s.id) (released_row now) d.holds
      (λ x e. ground arith),
)

-- A round mends its own seat.
free_seat-MatchesBut :
    (r : HoldRow) (rest : List HoldRow) (d : Db)
    → All (MatchesBut (r ∷ rest) d.holds) d.seats
    → All (MatchesBut rest d.holds) (free_seat r.seat_id d).seats
free_seat-MatchesBut r rest d h = elim (Bool-cases (exists_where (active_on r.seat_id) d.holds)) [
  | inl busy ↦ rw busy (
      All-map (MatchesBut (r ∷ rest) d.holds) (MatchesBut rest d.holds) d.seats
        (λ s m. mend_busy s m (count-exists_where (active_on r.seat_id) d.holds busy)) h)
  | inr free ↦ rw free (
      All-update_where (MatchesBut (r ∷ rest) d.holds) (MatchesBut rest d.holds)
        (λ s. s.id == r.seat_id) (with_status SeatStatus.available) d.seats
        (λ s m e. ground (arith, exists_where-count (active_on r.seat_id) d.holds free, e))
        (λ s m e. ground (arith, m, e)) h)
]
  where
    mend_busy :
        (s : SeatRow)
        → MatchesBut (r ∷ rest) d.holds s
        → 0 < count_where (active_on r.seat_id) d.holds
        → MatchesBut rest d.holds s
    mend_busy s m busy = ground (arith, m, busy)

free_seat-holds : (seat : ℕ) (d : Db) → (free_seat seat d).holds ≡ d.holds
free_seat-holds seat d = ground arith

module _ (trace : TraceId) (fresh : ℕ → ℕ) (clock : Clock) where
  swept-Matches :
      (table : List HoldRow) (i : ℕ) (hs : List HoldRow) (d : Db)
      → d.holds ≡ table
      → All (MatchesBut hs table) d.seats
      → All (Matches table) (swept trace fresh clock i hs d).seats
  unfolding swept
  swept-Matches table i [] d e h =
      All-map (MatchesBut [] table) (Matches table) d.seats (λ s m. ground (arith, m)) h
  swept-Matches table i (r ∷ rest) d e h =
      swept-Matches table (suc i) rest (swept_row trace fresh clock i r d)
        (free_seat-holds r.seat_id d ∙ e) (rw (← e) (free_seat-MatchesBut r rest d (rw e h)))

module _ (limit : ℕ) (locked : ℕ → Bool) (trace : TraceId) (fresh : ℕ → ℕ) (clock : Clock) (d : Db)
    (v : IsConsistent d) where
  abbrev picked : List HoldRow
  picked = chosen limit locked trace fresh clock d

  abbrev after : Db
  after = release_batch picked clock.now d

  abbrev swept_db : Db
  swept_db = swept trace fresh clock 0 (select (in_batch picked) d.holds) after

  same_holds : swept_db.holds ≡ after.holds
  same_holds = holds-swept trace fresh clock 0 (select (in_batch picked) d.holds) after

  swept-IsConsistent : IsConsistent swept_db
  swept-IsConsistent = record {
    ids = λ i. rw same_holds (
        omega (
          arith,
          v.ids i,
          count_where-update_where-le (with_id i) (in_batch picked) (released_row clock.now) d.holds
              (λ x e k. k),
        ));
    per_seat = λ s. rw same_holds (
        omega (
          arith,
          v.per_seat s,
          count_where-update_where-le (active_on s) (in_batch picked) (released_row clock.now)
              d.holds (λ x e k. ground arith),
        ));
    per_user = λ u. rw same_holds (
        omega (
          arith,
          v.per_user u,
          count_where-update_where-le (active_by u) (in_batch picked) (released_row clock.now)
              d.holds (λ x e k. ground arith),
        ));
    seats_match = rw same_holds (
        swept-Matches trace fresh clock after.holds 0 (select (in_batch picked) d.holds) after refl
          (All-map (Matches d.holds) (MatchesBut (select (in_batch picked) d.holds) after.holds)
            d.seats (after_release picked clock.now d) v.seats_match));
  }

  -- Whatever the connection does, a tick of the sweeper keeps the database consistent.
  pub tick-IsConsistent : (l : Link) → IsConsistent (tick limit locked trace fresh clock l d).1
  tick-IsConsistent l =
      LostOrSteady-keeps IsConsistent _ _ d (tick_atomic limit locked trace fresh clock d l) v
        (rw (tick_outcome limit locked trace fresh clock d) swept-IsConsistent)
