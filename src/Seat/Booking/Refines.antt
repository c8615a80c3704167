-- ===== src/Seat/Booking/Refines.antt =====
-- The transactions of the seat service are changes that the promise allows.
use technical_assignment.Seat.Booking.Sweeps.{tick-Change}
use technical_assignment.Seat.Booking.Ends.{release_hold-Change, reserve_hold-Change}
use technical_assignment.Seat.Booking.Grants.{insert_hold_tx-Change}
use technical_assignment.Contracts.{Content, garbage, json, AnyEvent, ReleaseReason, conforms}
use technical_assignment.Seat.Consistent.{IsConsistent}
use technical_assignment.Seat.Traces.{Step, Reach, Reach-IsConsistent, releases, consumes, sweeps}
use technical_assignment.Seat.Holds.{Clock, ReserveResult, ReleaseResult}
use technical_assignment.Seat.Consumer.{
  on_message, after_reserve, after_release, process, seat_service,
}
use technical_assignment.Seat.Db.{Db}
use technical_assignment.Seat.Traces.{
  Step, holds, releases, consumes, sweeps, Reach, Reach-IsConsistent,
}
use technical_assignment.Common.{
  List, [], ◌∷◌, ℕ, refl, inl, inr, Bool-cases, Link, Option, some, Result, ok, err, none,
}
use technical_assignment.Seat.Booking.{
  view, Change, Db, Changes, stays, Act, requests, ends, pays, passes, ignores,
}

-- What a message asks for, if it conforms.
abbrev pub told : Option Content → Act
told none = ignores
told (some (garbage n)) = ignores
told (some (json (AnyEvent.payment_succeeded e))) = pays e.hold_id
told (some (json (AnyEvent.payment_failed e))) = ends e.hold_id
told (some (json (AnyEvent.seat_held e))) = ignores
told (some (json (AnyEvent.seat_released e))) = ignores
told (some (json (AnyEvent.seat_reserved e))) = ignores

-- What a transaction was for, and when.
abbrev pub act_of : {d e : Db} → Step d e → Act
act_of (holds ttl seat user trace hold_id event_id clock l) = requests seat user clock.now
act_of (releases i reason trace event_id clock l) = ends i
act_of (consumes id clock l m) = told m
act_of (sweeps limit locked trace fresh clock l) = passes clock.now

abbrev pub acts : {d e : Db} → Reach d e → List Act
acts Reach.here = []
acts (Reach.next r s) = act_of s ∷ acts r

on_message-Change :
    (id : ℕ) (clock : Clock) (l : Link) (d : Db) (m : Option Content)
    → IsConsistent d
    → Change (view d) (view (on_message id clock l d m).db) (told m)
unfolding on_message
on_message-Change id clock l d none v = stays refl
on_message-Change id clock l d (some (garbage n)) v = stays refl
on_message-Change id clock l d (some (json e)) v = elim (Bool-cases (conforms e)) [
  | inr bad ↦ rw bad (stays refl)
  | inl good ↦ rw good (processed e)
]
  where
    by_reserve :
        {act : Act} (r : Result ReserveResult × Db)
        → Change (view d) (view r.1) act
        → Change (view d) (view (after_reserve r).db) act
    by_reserve (ok r, d') k = k
    by_reserve (err e, d') k = k

    by_release :
        {act : Act} (r : Result ReleaseResult × Db)
        → Change (view d) (view r.1) act
        → Change (view d) (view (after_release r).db) act
    by_release (ok r, d') k = k
    by_release (err e, d') k = k

    processed :
        (e : AnyEvent) → Change (view d) (view (process id clock l d e).db) (told (some (json e)))
    processed (AnyEvent.payment_succeeded e) =
        by_reserve _ (
          reserve_hold-Change e.hold_id e.base.event_id seat_service e.base.trace_id id clock d v l)
    processed (AnyEvent.payment_failed e) =
        by_release _ (
          release_hold-Change e.hold_id ReleaseReason.payment_failed e.base.trace_id id clock d v l)
    processed (AnyEvent.seat_held e) = stays refl
    processed (AnyEvent.seat_released e) = stays refl
    processed (AnyEvent.seat_reserved e) = stays refl

Step-Change : {d e : Db} (s : Step d e) → IsConsistent d → Change (view d) (view e) (act_of s)
Step-Change {d} (holds ttl seat user trace hold_id event_id clock l) v =
    insert_hold_tx-Change ttl seat user trace hold_id event_id clock d v l
Step-Change {d} (releases i reason trace event_id clock l) v =
    release_hold-Change i reason trace event_id clock d v l
Step-Change {d} (consumes id clock l m) v = on_message-Change id clock l d m v
Step-Change {d} (sweeps limit locked trace fresh clock l) v =
    tick-Change limit locked trace fresh clock d v l

-- From a consistent database, any sequence of transactions of the seat service over connections that
-- may break is, seen as a hall, a sequence of changes that the promise allows for what each
-- transaction was asked at its time: a request books the seat only for who asks, where the booking
-- of the seat has run out by the request's NOW() and the user has booked no other seat; a release or
-- a failed payment ends at most the booking that it names, and a payment sells at most that one; a
-- sweep takes away only what has run out by its NOW(); and only a payment raises the number of sales.
pub Reach-refines : {d e : Db} (r : Reach d e) → IsConsistent d → Changes (view d) (acts r) (view e)
Reach-refines Reach.here v = Changes.here
Reach-refines (Reach.next r s) v =
    Changes.next (Reach-refines r v) (Step-Change s (Reach-IsConsistent r v))
