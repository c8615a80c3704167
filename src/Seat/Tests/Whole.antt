-- ===== src/Seat/Tests/Whole.antt =====
-- A hold and a sweep, one after the other.
use technical_assignment.Seat.Traces.Excludes.{granted_hold_excludes}
use technical_assignment.Seat.Db.{Db, active_id}
use technical_assignment.Seat.Tests.{
  bob, granted_db, insert_granted, empty_db, at_time, ann, held_db, empty_db-IsConsistent,
  held_db-IsConsistent,
}
use technical_assignment.Seat.Listing.{ListedSeat, list_all, is_truthful, list_all_truthful}
use Prim.Native.String.{String}
use technical_assignment.Seat.Sweeper.Complete.{is_due, tick_complete}
use technical_assignment.Seat.Booking.Refines.{Reach-refines}
use technical_assignment.Seat.Booking.{Changes, view, passes, requests}
use technical_assignment.Seat.Traces.{Reach-IsConsistent, next, here, holds, sweeps}
use technical_assignment.Contracts.{uuid}
use technical_assignment.Seat.Consistent.{IsConsistent}
use technical_assignment.Seat.Sweeper.{tick}
use technical_assignment.Seat.Holds.{
  insert_hold_tx, insert_hold_body, insert_and_announce, new_hold, conflict, ConflictReason,
}
use technical_assignment.Seat.Holds.Insert.{granted}
use technical_assignment.Common.{
  first_row, select, some, refl, ◌∷◌, [], ℕ, ◌≡◌, Bool, List, ◌+◌, false, steady, arith, true, ok,
  ◌==◌, exists_where, count_where, ◌&&◌,
}

abbrev unlocked : ℕ → Bool
unlocked i = false

abbrev fresh_ids : ℕ → ℕ
fresh_ids i = 300 + i

Reach-IsConsistent_example :
    IsConsistent
      (tick 100 unlocked
        (uuid 9)
        fresh_ids
        (at_time 700000)
        steady
        (insert_hold_tx 600 1 ann (uuid 5) 100 200 (at_time 1000) steady empty_db).1).1
Reach-IsConsistent_example =
    Reach-IsConsistent
      (next (next here (holds 600 1 ann (uuid 5) 100 200 (at_time 1000) steady))
        (sweeps 100 unlocked (uuid 9) fresh_ids (at_time 700000) steady))
      empty_db-IsConsistent

tick_complete_example :
    exists_where
      (is_due unlocked 700000)
      (tick 100 unlocked (uuid 9) fresh_ids (at_time 700000) steady held_db).1.holds
    ≡ false
tick_complete_example =
    tick_complete 100 unlocked (uuid 9) fresh_ids (at_time 700000) held_db (omega arith)

abbrev in_any_order : String → String → Bool
in_any_order a b = true

list_all_truthful_example :
    (rs : List ListedSeat) × (list_all in_any_order steady held_db ≡ (ok rs, held_db))
    × (count_where (λ r. r.id == 1) rs ≡ 1)
    × (count_where (λ r. (r.id == 1) && is_truthful r) rs ≡ 1)
list_all_truthful_example = list_all_truthful in_any_order held_db 1 held_db-IsConsistent

Reach-refines_example : Changes (view empty_db) (passes 700000 ∷ requests 1 ann 1000 ∷ []) (
    view
      (tick 100 unlocked
        (uuid 9)
        fresh_ids
        (at_time 700000)
        steady
        (insert_hold_tx 600 1 ann (uuid 5) 100 200 (at_time 1000) steady empty_db).1).1)
Reach-refines_example =
    Reach-refines
      (next (next here (holds 600 1 ann (uuid 5) 100 200 (at_time 1000) steady))
        (sweeps 100 unlocked (uuid 9) fresh_ids (at_time 700000) steady))
      empty_db-IsConsistent

-- Ann has the first seat, and Bob has taken the second since.
abbrev both_held : Db
both_held = (insert_hold_tx 600 2 bob (uuid 6) 101 201 (at_time 1500) steady granted_db).1

ann_still :
    first_row (select (active_id 100) both_held.holds) ≡ some (new_hold 100 1 ann 601000 1000)
unfolding insert_hold_tx insert_hold_body insert_and_announce granted new_hold
ann_still = refl

granted_hold_excludes_example :
    insert_hold_tx 600 1 9 (uuid 7) 102 202 (at_time 2000) steady both_held
    ≡ (ok (conflict ConflictReason.seat_held), both_held)
unfolding new_hold
granted_hold_excludes_example =
    granted_hold_excludes 600 1 ann (uuid 5) 100 200 (at_time 1000) steady empty_db
      empty_db-IsConsistent insert_granted
      (next here (holds 600 2 bob (uuid 6) 101 201 (at_time 1500) steady)) ann_still 600 9 (uuid 7)
      102 202 (at_time 2000) (omega arith)
