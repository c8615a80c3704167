-- ===== src/Seat/Holds/Exclusion.antt =====
-- Who gets a seat: a granted hold shuts others out while it lasts, a sold seat is not protected.
use technical_assignment.Common.{
  if◌then◌else◌, ◌==◌, ℕ, ◌+◌, ◌*◌, ◌≤◌, ◌≡◌, arith, ==_refl, ok, steady, exists_where-last,
  first_row, select, some, false, exists_where, exists_where-mono-false, first_row-select-exists,
  first_row-select-update_where, first_row-select,
}
use technical_assignment.Contracts.{TraceId}
use technical_assignment.Seat.Db.{
  HoldRow, Db, SeatRow, SeatStatus, active_on, active_by, with_status,
}
use technical_assignment.Seat.Consistent.{with_id}
use technical_assignment.Seat.Holds.{
  Clock, inserted, conflict, ConflictReason, new_hold, insert_hold_tx,
}
use technical_assignment.Seat.Holds.Insert.{
  live_on, cleaned, granted, insert_hold_tx_outcome, blocks_user,
}

module _ (ttl seat user : ℕ) (trace : TraceId) (hold_id event_id : ℕ) (clock : Clock) (d : Db) where
  granted_form :
      {h : HoldRow} {d' : Db}
      → insert_hold_tx ttl seat user trace hold_id event_id clock steady d ≡ (ok (inserted h), d')
      → (h ≡ new_hold hold_id seat user (clock.date + ttl * 1000) clock.now)
        × (d' ≡ granted h event_id trace clock d)
  granted_form e =
      ground (arith, insert_hold_tx_outcome ttl seat user trace hold_id event_id clock d)

  -- Once `insertHoldTx` has granted a hold over a steady connection, the next call for the seat, on
  -- the database that it leaves, is refused and changes nothing as long as its NOW() is not past
  -- `held_until`, whoever asks.
  pub insert_hold_tx_excludes :
      {h : HoldRow} {d' : Db} (ttl' user' : ℕ) (trace' : TraceId) (id' event' : ℕ) (clock' : Clock)
      → insert_hold_tx ttl seat user trace hold_id event_id clock steady d ≡ (ok (inserted h), d')
      → clock'.now ≤ h.held_until
      → insert_hold_tx ttl' seat user' trace' id' event' clock' steady d'
        ≡ (ok (conflict ConflictReason.seat_held), d')
  unfolding granted new_hold
  insert_hold_tx_excludes {h} {d'} ttl' user' trace' id' event' clock' e before =
      let (eh, ed) = granted_form e in
      ground (
        arith,
        insert_hold_tx_outcome ttl' seat user' trace' id' event' clock' d',
        eh,
        ed,
        exists_where-last (live_on seat clock'.now) (cleaned seat clock.now d) h,
        ==_refl seat,
      )

  -- Once `insertHoldTx` has granted a hold, a call of the same user for another seat on the database
  -- that it leaves is a conflict and changes nothing, whatever the clock says.
  pub insert_hold_tx_one_per_user :
      {h : HoldRow} {d' : Db} (ttl' seat' : ℕ) (trace' : TraceId) (id' event' : ℕ) (clock' : Clock)
      → insert_hold_tx ttl seat user trace hold_id event_id clock steady d ≡ (ok (inserted h), d')
      → (seat' == seat) ≡ false
      → (r : ConflictReason) × (insert_hold_tx ttl' seat' user trace' id' event' clock' steady d'
          ≡ (ok (conflict r), d'))
  unfolding granted new_hold
  insert_hold_tx_one_per_user {h} {d'} ttl' seat' trace' id' event' clock' e other =
      let (eh, ed) = granted_form e in
      (
        if exists_where (with_id id') d'.holds
            then ConflictReason.seat_held
            else if exists_where (live_on seat' clock'.now) d'.holds
            then ConflictReason.seat_held
            else ConflictReason.user_has_hold,
        ground (
          arith,
          insert_hold_tx_outcome ttl' seat' user trace' id' event' clock' d',
          eh,
          ed,
          exists_where-last (blocks_user user seat' clock'.now) (cleaned seat clock.now d) h,
          ==_refl user,
        ),
      )

  -- `insertHoldTx` does not look at `seats.status`: over a steady connection and with a fresh id, a
  -- seat that is RESERVED and has no active hold is granted to a user who has no active hold, and
  -- its status becomes HELD.
  pub insert_hold_tx_resells :
      {s : SeatRow}
      → first_row (select (λ r. r.id == seat) d.seats) ≡ some s
      → s.status ≡ SeatStatus.reserved
      → exists_where (with_id hold_id) d.holds ≡ false
      → exists_where (active_on seat) d.holds ≡ false
      → exists_where (active_by user) d.holds ≡ false
      → (d' : Db) × (insert_hold_tx ttl seat user trace hold_id event_id clock steady d
          ≡ (ok (inserted (new_hold hold_id seat user (clock.date + ttl * 1000) clock.now)), d'))
        × (first_row (select (λ r. r.id == seat) d'.seats) ≡ some (with_status SeatStatus.held s))
  unfolding granted new_hold
  insert_hold_tx_resells {s} found sold fresh free idle = (
    granted (new_hold hold_id seat user (clock.date + ttl * 1000) clock.now) event_id trace clock d,
    ground (
      arith,
      insert_hold_tx_outcome ttl seat user trace hold_id event_id clock d,
      fresh,
      exists_where-mono-false (live_on seat clock.now) (active_on seat) d.holds
          (λ x e. ground arith) free,
      exists_where-mono-false (blocks_user user seat clock.now) (active_by user) d.holds
          (λ x e. ground arith) idle,
      first_row-select-exists (λ r. r.id == seat) d.seats found,
    ),
    first_row-select-update_where (λ r. r.id == seat) (with_status SeatStatus.held) d.seats found
        (first_row-select (λ r. r.id == seat) d.seats found),
  )
