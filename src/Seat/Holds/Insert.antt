-- ===== src/Seat/Holds/Insert.antt =====
-- What `insertHoldTx` does, in terms of the database that it finds.
use technical_assignment.Common.{
  ℕ, ◌+◌, ◌*◌, ◌≡◌, refl, Bool, not, ◌&&◌, none, some, List, [], ◌∷◌, ◌++◌, arith, ◌==◌, ltb,
  if◌then◌else◌, select, update_where, exists_where, first_row, exists_where-update_where, ok, err,
  foreign_key_violation, steady,
}
use technical_assignment.Contracts.{TraceId}
use technical_assignment.Outbox.{append}
use technical_assignment.Seat.Db.{
  HoldRow, SeatStatus, SeatRow, Db, active_on, active_by, expired_on, released_row, with_status,
}
use technical_assignment.Seat.Consistent.{with_id}
use technical_assignment.Seat.Holds.{
  Clock, inserted, conflict, ConflictReason, held_event, lookup_price, new_hold, insert_hold_tx,
  price_of,
}

-- An active hold of the seat that has not run out.
abbrev pub live_on : ℕ → ℕ → HoldRow → Bool
live_on seat now h = active_on seat h && not (ltb h.held_until now)

-- An active hold of the user that this call does not clean up: any but an expired one of the seat.
abbrev pub blocks_user : ℕ → ℕ → ℕ → HoldRow → Bool
blocks_user user seat now h = active_by user h && not (expired_on seat now h)

abbrev pub has_seat : ℕ → Db → Bool
has_seat seat d = exists_where (λ s. s.id == seat) d.seats

abbrev pub cleaned : ℕ → ℕ → Db → List HoldRow
cleaned seat now d = update_where (expired_on seat now) (released_row now) d.holds

-- The database after a hold was granted.
unfoldable pub granted : HoldRow → ℕ → TraceId → Clock → Db → Db
granted row event_id trace clock d = record d {
  holds = cleaned row.seat_id clock.now d ++ row ∷ [];
  seats = update_where (λ s. s.id == row.seat_id) (with_status SeatStatus.held) d.seats;
  outbox =
      append row.id
        (held_event row event_id trace clock.occurred (lookup_price row.seat_id d)
          (lookup_price row.seat_id d))
        (record { trace_id = trace; user_id = some row.user_id; reason = none }) clock.now d.outbox;
}

lookup_price-marked :
    (st : SeatStatus) (seat : ℕ) (hs : List HoldRow) (d : Db)
    → lookup_price seat
        (record d { holds = hs; seats = update_where (λ s. s.id == seat) (with_status st) d.seats })
      ≡ lookup_price seat d
unfolding lookup_price
lookup_price-marked st seat hs d = go d.seats
  where
    go :
        (ss : List SeatRow)
        → price_of (
            first_row
              (select (λ s. s.id == seat) (update_where (λ s. s.id == seat) (with_status st) ss)))
          ≡ price_of (first_row (select (λ s. s.id == seat) ss))
    go [] = refl
    go (s ∷ ss) = ground (arith, go ss)

-- What the clean-up leaves, in terms of the table before it.
module _ (seat now : ℕ) (d : Db) where
  pub ids_kept :
      (i : ℕ) → exists_where (with_id i) (cleaned seat now d) ≡ exists_where (with_id i) d.holds
  ids_kept i =
      exists_where-update_where (with_id i) (expired_on seat now) (with_id i) (released_row now)
        d.holds (λ x. ground arith)

  pub live_left :
      exists_where (active_on seat) (cleaned seat now d) ≡ exists_where (live_on seat now) d.holds
  live_left =
      exists_where-update_where (active_on seat) (expired_on seat now) (live_on seat now)
        (released_row now) d.holds (λ x. ground arith)

  pub user_left :
      (user : ℕ)
      → exists_where (active_by user) (cleaned seat now d)
        ≡ exists_where (blocks_user user seat now) d.holds
  user_left user =
      exists_where-update_where (active_by user) (expired_on seat now) (blocks_user user seat now)
        (released_row now) d.holds (λ x. ground arith)

module _ (ttl seat user : ℕ) (trace : TraceId) (hold_id event_id : ℕ) (clock : Clock) (d : Db) where
  abbrev row : HoldRow
  row = new_hold hold_id seat user (clock.date + ttl * 1000) clock.now

  -- On a steady connection `insertHoldTx` has four outcomes. A hold id that is taken, or an active
  -- hold of the seat that has not run out, is a conflict `seat_held`; failing that, an active hold
  -- of the user, other than an expired one of this seat, is a conflict `user_has_hold`; an unknown
  -- seat throws; and otherwise the hold is granted. Only the last changes the database.
  pub insert_hold_tx_outcome :
      insert_hold_tx ttl seat user trace hold_id event_id clock steady d ≡ (
        if exists_where (with_id hold_id) d.holds
        then (ok (conflict ConflictReason.seat_held), d)
        else if exists_where (live_on seat clock.now) d.holds
        then (ok (conflict ConflictReason.seat_held), d)
        else if exists_where (blocks_user user seat clock.now) d.holds
        then (ok (conflict ConflictReason.user_has_hold), d)
        else if has_seat seat d
        then (ok (inserted row), granted row event_id trace clock d)
        else (err foreign_key_violation, d))
  unfolding insert_hold_tx granted
  insert_hold_tx_outcome =
      rw
        (
          ← ids_kept seat clock.now d hold_id,
          ← live_left seat clock.now d,
          ← user_left seat clock.now d user,
        )
        (ground (
          arith,
          lookup_price-marked SeatStatus.held seat (cleaned seat clock.now d ++ row ∷ []) d,
        ))
