-- ===== src/Seat/Tests.antt =====
-- The theorems of the seat service on a hall of two seats.
mod Messages
mod Streams
mod Whole
mod Wires
use technical_assignment.Seat.Listing.{ListedSeat, list_all, is_truthful, list_all_truthful}
use Prim.Native.String.{String}
use technical_assignment.Seat.Sweeper.Complete.{is_due, tick_complete}
use technical_assignment.Seat.Booking.Refines.{Reach-refines}
use technical_assignment.Seat.Booking.{Changes, view}
use technical_assignment.Seat.Consumer.Deliveries.{success_redelivered}
use technical_assignment.Seat.Holds.Exclusion.{insert_hold_tx_excludes, insert_hold_tx_resells}
use technical_assignment.Seat.Holds.Whole.{insert_hold_tx-AllOrNothing, AllOrNothing}
use technical_assignment.Seat.Controller.Access.{release_by_stranger}
use technical_assignment.Seat.Traces.{Reach-IsConsistent, next, here, holds, sweeps}
use technical_assignment.Seat.Holds.Settle.{reserve_outcome, reserve_hold_outcome}
use technical_assignment.Common.Robust.{LostOrSteady}
use technical_assignment.Seat.Holds.Insert.{granted, insert_hold_tx_outcome}
use technical_assignment.Contracts.{
  conforms, BaseMeta, PaymentSucceededV1, reprocess, AnyEvent, uuid, PaymentFailedV1, FailureReason,
  pi_mock, json, acked, resolve_trace_id,
}
use technical_assignment.Seat.Consumer.{on_message, seat_service}
use technical_assignment.Seat.Controller.{Env, hold, release, conflict_409, seat_unavailable}
use technical_assignment.Seat.Consistent.{IsConsistent}
use technical_assignment.Seat.Sweeper.{tick}
use technical_assignment.Seat.Holds.{
  reserve_hold, new_hold, Clock, insert_hold_tx, ConflictReason, inserted, conflict,
  insert_hold_body, insert_and_announce,
}
use technical_assignment.Common.{
  ℕ, ◌≡◌, refl, Bool, [], List, ◌+◌, none, false, steady, ◌∷◌, arith, true, ok, some, breaks,
  first_row, select, ◌==◌, exists_where, count_where, ◌&&◌, unanswered, err, connection_lost,
}
use technical_assignment.Seat.Db.{Db, HoldRow, SeatStatus, SeatRow, HoldStatus, reserved_row}

abbrev hall : List SeatRow
hall =
    record {
      id = 1;
      label = "A1";
      price_cents = 5000;
      currency = "USD";
      status = SeatStatus.available;
    }
    ∷ record {
      id = 2;
      label = "A2";
      price_cents = 7000;
      currency = "USD";
      status = SeatStatus.available;
    }
    ∷ []

abbrev empty_db : Db
empty_db = record {
  seats = hall;
  holds = [];
  outbox = record { entries = []; next_id = 1 };
  consumed_events = [];
}

abbrev at_time : ℕ → Clock
at_time t = record { date = t; now = t; occurred = t }

abbrev ann : ℕ
ann = 7

abbrev bob : ℕ
bob = 8

abbrev ann_hold : HoldRow
ann_hold = record {
  id = 100;
  seat_id = 1;
  user_id = ann;
  status = HoldStatus.held;
  held_until = 601000;
  created_at = 1000;
  released_at = none;
  reserved_at = none;
}

-- Ann holds the first seat.
abbrev held_db : Db
held_db = record {
  seats =
      record {
        id = 1;
        label = "A1";
        price_cents = 5000;
        currency = "USD";
        status = SeatStatus.held;
      }
      ∷ record {
        id = 2;
        label = "A2";
        price_cents = 7000;
        currency = "USD";
        status = SeatStatus.available;
      }
      ∷ [];
  holds = ann_hold ∷ [];
  outbox = record { entries = []; next_id = 2 };
  consumed_events = [];
}

-- The first seat has been sold.
abbrev sold_db : Db
sold_db = record {
  seats =
      record {
        id = 1;
        label = "A1";
        price_cents = 5000;
        currency = "USD";
        status = SeatStatus.reserved;
      }
      ∷ record {
        id = 2;
        label = "A2";
        price_cents = 7000;
        currency = "USD";
        status = SeatStatus.available;
      }
      ∷ [];
  holds = reserved_row 2000 ann_hold ∷ [];
  outbox = record { entries = []; next_id = 3 };
  consumed_events = [];
}

empty_db-IsConsistent : IsConsistent empty_db
empty_db-IsConsistent = record {
  ids = λ i. omega arith;
  per_seat = λ s. omega arith;
  per_user = λ u. omega arith;
  seats_match = (refl, (refl, tt));
}

held_db-IsConsistent : IsConsistent held_db
held_db-IsConsistent = record {
  ids = λ i. ground arith;
  per_seat = λ s. ground arith;
  per_user = λ u. ground arith;
  seats_match = (refl, (refl, tt));
}

abbrev granted_db : Db
granted_db = granted (new_hold 100 1 ann 601000 1000) 200 (uuid 5) (at_time 1000) empty_db

insert_hold_tx_outcome_example :
    insert_hold_tx 600 1 ann (uuid 5) 100 200 (at_time 1000) steady empty_db
    ≡ (ok (inserted (new_hold 100 1 ann 601000 1000)), granted_db)
insert_hold_tx_outcome_example =
    insert_hold_tx_outcome 600 1 ann (uuid 5) 100 200 (at_time 1000) empty_db

insert_granted :
    insert_hold_tx 600 1 ann (uuid 5) 100 200 (at_time 1000) steady empty_db
    ≡ (ok (inserted (new_hold 100 1 ann 601000 1000)), granted_db)
insert_granted = insert_hold_tx_outcome 600 1 ann (uuid 5) 100 200 (at_time 1000) empty_db

insert_hold_tx_resells_example :
    (d' : Db) × (insert_hold_tx 600 1 bob (uuid 6) 101 201 (at_time 3000) steady sold_db
      ≡ (ok (inserted (new_hold 101 1 bob 603000 3000)), d'))
    × (first_row (select (λ r. r.id == 1) d'.seats)
        ≡ some (record {
          id = 1;
          label = "A1";
          price_cents = 5000;
          currency = "USD";
          status = SeatStatus.held;
        }))
insert_hold_tx_resells_example =
    insert_hold_tx_resells 600 1 bob (uuid 6) 101 201 (at_time 3000) sold_db refl refl refl refl
      refl

-- BEGIN and six statements are answered, and the answer to COMMIT is lost.
insert_hold_tx-AllOrNothing_example :
    AllOrNothing
      (new_hold 101 2 bob 602000 2000)
      201
      (uuid 6)
      (at_time 2000)
      held_db
      (insert_hold_tx 600 2 bob (uuid 6) 101 201 (at_time 2000) (unanswered 7) held_db)
insert_hold_tx-AllOrNothing_example =
    insert_hold_tx-AllOrNothing 600 2 bob (uuid 6) 101 201 (at_time 2000) held_db (unanswered 7)

commit_unanswered :
    insert_hold_tx 600 2 bob (uuid 6) 101 201 (at_time 2000) (unanswered 7) held_db ≡ (
      err connection_lost,
      (insert_hold_tx 600 2 bob (uuid 6) 101 201 (at_time 2000) steady held_db).1,
    )
unfolding insert_hold_tx insert_hold_body insert_and_announce
commit_unanswered = refl

abbrev env : Env
env = record { hold_ttl_seconds = 600; retry_after_seconds = 5 }

refused_held :
    (hold env 1 bob none 6 101 201 (at_time 2000) steady steady held_db).response
    ≡ conflict_409 seat_unavailable 5
unfolding hold
refused_held =
    rw (insert_hold_tx_outcome 600 1 bob (resolve_trace_id none 6) 101 201 (at_time 2000) held_db)
      refl
