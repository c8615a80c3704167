-- ===== src/Seat/Holds/Settle.antt =====
-- What `releaseHold` and `reserveHold` do, and that they keep the database consistent.
use technical_assignment.Common.{
  ℕ, ◌≡◌, refl, inl, inr, true, false, Option, none, some, List, [], ◌∷◌, ◌++◌, arith, ◌==◌,
  if◌then◌else◌, Bool-cases, Option-cases, select, update_where, exists_where, first_row, Result,
  ok, Link, steady, count_where-exists_false, exists_where-last, ==_refl,
}
use technical_assignment.Common.Robust.{LostOrSteady-keeps}
use technical_assignment.Contracts.{TraceId, ReleaseReason}
use technical_assignment.Outbox.{append}
use technical_assignment.Seat.Db.{
  HoldRow, SeatStatus, SeatRow, Db, active_on, active_id, released_row, reserved_row, with_status,
  consumed_by,
}
use technical_assignment.Seat.Consistent.{
  IsConsistent, end_hold-IsConsistent, released_row-Ends, reserved_row-Ends, seat_freed,
}
use technical_assignment.Seat.Holds.{
  Clock, ReleaseResult, ReserveResult, release_hold, reserve_hold, released_event, reserved_event,
  not_reserved,
}
use technical_assignment.Seat.Holds.Faults.{release_hold_atomic, reserve_hold_atomic}

-- The active hold with an id.
abbrev pub active_hold : ℕ → Db → Option HoldRow
active_hold i d = first_row (select (active_id i) d.holds)

abbrev set_seat : SeatStatus → ℕ → Db → List SeatRow
set_seat st seat d = update_where (λ s. s.id == seat) (with_status st) d.seats

-- The hold is RELEASED, its seat AVAILABLE, and one `seat.released` event waits in the outbox.
unfoldable pub freed : ℕ → ReleaseReason → TraceId → ℕ → Clock → HoldRow → Db → Db
freed i reason trace event_id clock h d = record d {
  holds = update_where (active_id i) (released_row clock.now) d.holds;
  seats = set_seat SeatStatus.available h.seat_id d;
  outbox =
      append i (released_event h.seat_id reason event_id trace clock.occurred)
        (record { trace_id = trace; user_id = none; reason = none }) clock.now d.outbox;
}

abbrev pub release_outcome :
    ℕ → ReleaseReason → TraceId → ℕ → Clock → Option HoldRow → Db → Result ReleaseResult × Db
release_outcome i reason trace event_id clock none d =
    (ok (record { released = false; seat_id = none }), d)
release_outcome i reason trace event_id clock (some h) d = (
  ok (record { released = true; seat_id = some h.seat_id }),
  freed i reason trace event_id clock h d,
)

module _ (i : ℕ) (reason : ReleaseReason) (trace : TraceId) (event_id : ℕ) (clock : Clock) (d : Db)
    (v : IsConsistent d) where
  nothing_left :
      {h : HoldRow}
      → active_hold i d ≡ some h
      → exists_where
          (active_on h.seat_id)
          (update_where (active_id i) (released_row clock.now) d.holds)
        ≡ false
  nothing_left {h} e =
      count_where-exists_false (active_on h.seat_id)
        (update_where (active_id i) (released_row clock.now) d.holds)
        (seat_freed d v (released_row clock.now) (released_row-Ends clock.now) i e)

  -- In a consistent database and on a steady connection `releaseHold` reports `released: false`
  -- and changes nothing if the hold is not active, and otherwise releases the hold, frees its seat
  -- and appends one event.
  pub release_hold_outcome :
      release_hold i reason trace event_id clock steady d
      ≡ release_outcome i reason trace event_id clock (active_hold i d) d
  unfolding release_hold freed
  release_hold_outcome = elim (Option-cases (active_hold i d)) [
    | inl e ↦ rw e (ground (arith, e))
    | inr (h, e) ↦ rw e (ground (arith, e, nothing_left e))
  ]

  pub release_hold-IsConsistent :
      (l : Link) → IsConsistent (release_hold i reason trace event_id clock l d).1
  unfolding freed
  release_hold-IsConsistent l =
      LostOrSteady-keeps IsConsistent _ _ d (release_hold_atomic i reason trace event_id clock l d)
        v
        (rw release_hold_outcome (elim (Option-cases (active_hold i d)) [
          | inl e ↦ rw e v
          | inr (h, e) ↦ rw e (
              end_hold-IsConsistent d v (released_row clock.now) (released_row-Ends clock.now) i e
                SeatStatus.available _ refl refl refl)
        ]))

-- The hold is RESERVED, its seat too, the event is consumed, and one `seat.reserved` event waits.
unfoldable pub sold : ℕ → ℕ → ℕ → TraceId → ℕ → Clock → HoldRow → Db → Db
sold i event_id group trace out_id clock h d = record d {
  holds = update_where (active_id i) (reserved_row clock.now) d.holds;
  seats = set_seat SeatStatus.reserved h.seat_id d;
  outbox =
      append i (reserved_event i h out_id trace clock.occurred)
        (record { trace_id = trace; user_id = none; reason = none }) clock.now d.outbox;
  consumed_events =
      d.consumed_events ++ record { event_id = event_id; consumer_group = group } ∷ [];
}

abbrev pub reserve_outcome :
    ℕ → ℕ → ℕ → TraceId → ℕ → Clock → Option HoldRow → Db → Result ReserveResult × Db
reserve_outcome i event_id group trace out_id clock none d = (ok not_reserved, d)
reserve_outcome i event_id group trace out_id clock (some h) d = (
  ok (record { reserved = true; seat_id = some h.seat_id; user_id = some h.user_id }),
  sold i event_id group trace out_id clock h d,
)

module _ (i event_id group : ℕ) (trace : TraceId) (out_id : ℕ) (clock : Clock) (d : Db) where
  -- On a steady connection `reserveHold` changes nothing and reports `reserved: false` if the event
  -- was consumed before or the hold is not active; otherwise it sells the seat, marks the event as
  -- consumed and appends one event.
  pub reserve_hold_outcome : reserve_hold i event_id group trace out_id clock steady d ≡ (
      if exists_where (consumed_by event_id group) d.consumed_events
      then (ok not_reserved, d)
      else reserve_outcome i event_id group trace out_id clock (active_hold i d) d)
  unfolding reserve_hold sold
  reserve_hold_outcome = elim (Option-cases (active_hold i d)) [
    | inl e ↦ rw e (ground (arith, e))
    | inr (h, e) ↦ rw e (ground (arith, e))
  ]

  pub reserve_hold-IsConsistent :
      IsConsistent d
      → (l : Link) → IsConsistent (reserve_hold i event_id group trace out_id clock l d).1
  unfolding sold
  reserve_hold-IsConsistent v l =
      LostOrSteady-keeps IsConsistent _ _ d
        (reserve_hold_atomic i event_id group trace out_id clock l d) v
        (rw reserve_hold_outcome
          (elim (Bool-cases (exists_where (consumed_by event_id group) d.consumed_events)) [
            | inl a ↦ rw a v
            | inr a ↦ elim (Option-cases (active_hold i d)) [
              | inl e ↦ rw (a, e) v
              | inr (h, e) ↦
                  rw (a, e)
                    (end_hold-IsConsistent d v (reserved_row clock.now)
                      (reserved_row-Ends clock.now) i e SeatStatus.reserved _ refl refl refl)
            ]
          ]))

-- A success of `reserveHold` makes any redelivery of the event to the same group a no-op,
-- whatever hold it names.
pub reserve_hold_redelivered :
    (i event_id group : ℕ) (trace : TraceId) (out_id : ℕ) (clock : Clock) (d : Db)
    {r : ReserveResult} {d' : Db} (i' : ℕ) (trace' : TraceId) (out_id' : ℕ) (clock' : Clock)
    → reserve_hold i event_id group trace out_id clock steady d ≡ (ok r, d')
    → r.reserved ≡ true
    → reserve_hold i' event_id group trace' out_id' clock' steady d' ≡ (ok not_reserved, d')
unfolding sold
reserve_hold_redelivered i event_id group trace out_id clock d {r} {d'} i' trace' out_id' clock' e
      yes' =
    ground (
      arith,
      reserve_hold_outcome i event_id group trace out_id clock d,
      reserve_hold_outcome i' event_id group trace' out_id' clock' d',
      exists_where-last (consumed_by event_id group) d.consumed_events
          (record { event_id = event_id; consumer_group = group }),
      ==_refl event_id,
      ==_refl group,
    )
