-- ===== src/Seat/Booking/Ends.antt =====
-- `releaseHold` and `reserveHold` against the promise.
use technical_assignment.Seat.Booking.Grants.{holder-ended}
use technical_assignment.Seat.Holds.Faults.{release_hold_atomic, reserve_hold_atomic}
use technical_assignment.Common.Robust.{LostOrSteady-keeps}
use technical_assignment.Seat.Holds.{Clock, reserve_hold, release_hold}
use technical_assignment.Seat.Consistent.{IsConsistent, with_id}
use technical_assignment.Contracts.{TraceId, ReleaseReason}
use technical_assignment.Seat.Db.{
  Db, HoldRow, active_id, is_held, reserved_row, released_row, active_on, consumed_by,
}
use technical_assignment.Seat.Holds.Settle.{
  sold, freed, release_hold_outcome, reserve_hold_outcome, active_hold,
}
use technical_assignment.Common.{
  ℕ, ◌≡◌, refl, inl, inr, Bool-cases, Option-cases, Link, first_row, select, some, count_where,
  true, update_where, arith, false, ◌≤◌, first_row-select, first_row-select-none, exists_where,
  count_where_mono, count_where-update_where_one, count_where-update_where-eq,
  first_row-select-counted, none, ==_refl, one_row, ◌==◌, if◌then◌else◌, ==_iff,
}
use technical_assignment.Seat.Booking.{
  view, Change, ends, pays, Db, HoldRow, holder, booking, Booking, stays, sells, active_on, frees,
  put, sold_on,
}

module _ (d : Db) (v : IsConsistent d) (i : ℕ) {h : HoldRow}
    (found : first_row (select (active_id i) d.holds) ≡ some h) where
  one_active : count_where (active_id i) d.holds ≤ 1
  one_active =
      omega (arith, v.ids i, count_where_mono (active_id i) (with_id i) d.holds λ x e. ground arith)

  h_active : active_id i h ≡ true
  h_active = first_row-select (active_id i) d.holds found

  h_id : h.id ≡ i
  h_id = (==_iff h.id i).0 (ground (arith, h_active))

  h_is_holder : holder h.seat_id d ≡ some h
  h_is_holder = elim (Option-cases (holder h.seat_id d)) [
    | inl e ↦ absurd (
        omega (
          arith,
          first_row-select-none (active_on h.seat_id) d.holds e,
          first_row-select-counted (active_id i) (active_on h.seat_id) d.holds found
              (ground (arith, h_active, ==_refl h.seat_id)),
        ))
    | inr (g, e) ↦
        let same =
          one_row (active_id i) (active_on h.seat_id) d.holds (v.per_seat h.seat_id) found
            (ground (arith, h_active, ==_refl h.seat_id)) e in
        rw (e, same) refl
  ]

  abbrev ended_booking : Booking
  ended_booking = record { hold_id = h.id; user_id = h.user_id; held_until = h.held_until }

  pub was_booked : booking (holder h.seat_id d) ≡ some ended_booking
  was_booked = rw h_is_holder refl

  -- The seat of the hold is free, and the other seats are as they were.
  pub booked-ended :
      (f : HoldRow → HoldRow)
      → ((x : HoldRow) → is_held (f x).status ≡ false)
      → (s : ℕ)
      → booking (first_row (select (active_on s) (update_where (active_id i) f d.holds)))
        ≡ put h.seat_id none (λ t. booking (holder t d)) s
  booked-ended f over s =
      rw (holder-ended d (active_id i) f s v over) (elim (Bool-cases (s == h.seat_id)) [
        | inl e ↦
            let same = (==_iff s h.seat_id).0 e in
            rw (same, ==_refl h.seat_id, h_is_holder, h_active) refl
        | inr apart ↦ elim (Option-cases (holder s d)) [
          | inl e ↦ rw (apart, e) refl
          | inr (g, e) ↦ rw (apart, e) (kept g e apart)
        ]
      ])
    where
      kept :
          (g : HoldRow)
          → holder s d ≡ some g
          → (s == h.seat_id) ≡ false
          → booking (if active_id i g then none else some g) ≡ booking (some g)
      kept g e apart = elim (Bool-cases (active_id i g)) [
        | inl hit ↦
            let same = one_row (active_on s) (active_id i) d.holds one_active e hit found in
            absurd (ground (arith, first_row-select (active_on s) d.holds e, same, apart))
        | inr miss ↦ rw miss refl
      ]

  pub released-Change :
      (d' : Db) (now : ℕ)
      → d'.holds ≡ update_where (active_id i) (released_row now) d.holds
      → Change (view d) (view d') (ends i)
  released-Change d' now e =
      frees i h.seat_id ended_booking h_id was_booked
        (λ s. rw e (booked-ended (released_row now) (λ x. refl) s))
        (λ s. rw e (
          count_where-update_where-eq (sold_on s) (active_id i) (released_row now) d.holds
            (λ x k. ground arith)))

  pub sold-Change :
      (d' : Db) (now : ℕ)
      → d'.holds ≡ update_where (active_id i) (reserved_row now) d.holds
      → Change (view d) (view d') (pays i)
  sold-Change d' now e =
      sells i h.seat_id ended_booking h_id was_booked
        (λ s. rw e (booked-ended (reserved_row now) (λ x. refl) s))
        (λ s. rw e (
          ground (
            arith,
            h_active,
            count_where-update_where_one (sold_on s) (active_id i) (reserved_row now) d.holds
                one_active found,
          )))

pub release_hold-Change :
    (i : ℕ) (reason : ReleaseReason) (trace : TraceId) (event_id : ℕ) (clock : Clock) (d : Db)
    → IsConsistent d
    → (l : Link)
    → Change (view d) (view (release_hold i reason trace event_id clock l d).1) (ends i)
unfolding freed
release_hold-Change i reason trace event_id clock d v l =
    LostOrSteady-keeps (λ e. Change (view d) (view e) (ends i)) _ _ d
      (release_hold_atomic i reason trace event_id clock l d) (stays refl)
      (rw (release_hold_outcome i reason trace event_id clock d v)
        (elim (Option-cases (active_hold i d)) [
          | inl e ↦ rw e (stays refl)
          | inr (h, e) ↦
              rw e
                (released-Change d v i e (freed i reason trace event_id clock h d) clock.now refl)
        ]))

pub reserve_hold-Change :
    (i event_id group : ℕ) (trace : TraceId) (out_id : ℕ) (clock : Clock) (d : Db)
    → IsConsistent d
    → (l : Link)
    → Change (view d) (view (reserve_hold i event_id group trace out_id clock l d).1) (pays i)
unfolding sold
reserve_hold-Change i event_id group trace out_id clock d v l =
    LostOrSteady-keeps (λ e. Change (view d) (view e) (pays i)) _ _ d
      (reserve_hold_atomic i event_id group trace out_id clock l d) (stays refl)
      (rw (reserve_hold_outcome i event_id group trace out_id clock d)
        (elim (Bool-cases (exists_where (consumed_by event_id group) d.consumed_events)) [
          | inl a ↦ rw a (stays refl)
          | inr a ↦ elim (Option-cases (active_hold i d)) [
            | inl e ↦ rw (a, e) (stays refl)
            | inr (h, e) ↦
                rw (a, e)
                  (sold-Change d v i e (sold i event_id group trace out_id clock h d) clock.now
                    refl)
          ]
        ]))
