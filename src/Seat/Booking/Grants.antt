-- ===== src/Seat/Booking/Grants.antt =====
-- `insertHoldTx` against the promise.
use technical_assignment.Seat.Holds.Faults.{insert_hold_tx_atomic}
use technical_assignment.Common.Robust.{LostOrSteady-keeps}
use technical_assignment.Seat.Holds.Insert.{
  granted, blocks_user, live_on, cleaned, insert_hold_tx_outcome, has_seat,
}
use technical_assignment.Seat.Consistent.{IsConsistent, with_id}
use technical_assignment.Seat.Holds.{Clock, insert_hold_tx, new_hold}
use technical_assignment.Seat.Db.{
  Db, HoldRow, is_held, HoldStatus, active_on, expired_on, released_row,
}
use technical_assignment.Contracts.{TraceId}
use technical_assignment.Common.{
  ℕ, ◌≡◌, refl, inl, inr, Bool-cases, Option-cases, Bool, first_row, count_where, Link,
  exists_where, ◌==◌, false, select, ◌+◌, ◌*◌, update_where, ◌++◌, unless, ==_iff, none, arith,
  first_row-unless, some, ==_refl, ◌∷◌, first_row-select, [], first_row-select-absent,
  first_row-select-skip, first_row-select-last, count_where-append, count_where-update_where-eq,
  ◌∙◌,
}
use technical_assignment.Seat.Booking.{
  view, Change, requests, Db, HoldRow, HoldStatus, Booking, sold_on, HasRunOut, active_on, books,
  booking, holder, stays,
}

-- What an update that ends holds leaves of a seat.
pub holder-ended :
    (d : Db) (q : HoldRow → Bool) (f : HoldRow → HoldRow) (s : ℕ)
    → IsConsistent d
    → ((x : HoldRow) → is_held (f x).status ≡ false)
    → first_row (select (active_on s) (update_where q f d.holds)) ≡ unless q (holder s d)
holder-ended d q f s v ends =
    first_row-unless (active_on s) q f d.holds (λ x. ground (arith, ends x)) (v.per_seat s)

module _ (ttl seat user : ℕ) (trace : TraceId) (hold_id event_id : ℕ) (clock : Clock) (d : Db)
    (v : IsConsistent d) where
  abbrev row : HoldRow
  row = record {
    id = hold_id;
    seat_id = seat;
    user_id = user;
    status = HoldStatus.held;
    held_until = clock.date + ttl * 1000;
    created_at = clock.now;
    released_at = none;
    reserved_at = none;
  }

  abbrev new_booking : Booking
  new_booking = record { hold_id = hold_id; user_id = user; held_until = clock.date + ttl * 1000 }

  holder-cleaned :
      (s : ℕ)
      → first_row (select (active_on s) (cleaned seat clock.now d))
        ≡ unless (expired_on seat clock.now) (holder s d)
  holder-cleaned s =
      holder-ended d (expired_on seat clock.now) (released_row clock.now) s v (λ x. refl)

  ran_out :
      exists_where (live_on seat clock.now) d.holds ≡ false
      → HasRunOut clock.now (booking (holder seat d))
  ran_out free = elim (Option-cases (holder seat d)) [
    | inl e ↦ rw e tt
    | inr (h, e) ↦ rw e (
        ground (
          arith,
          first_row-select (active_on seat) d.holds e,
          first_row-select-absent (active_on seat) (live_on seat clock.now) d.holds e free,
        ))
  ]

  alone :
      exists_where (blocks_user user seat clock.now) d.holds ≡ false
      → (s : ℕ) (k : Booking) → (s == seat) ≡ false
      → booking (holder s d) ≡ some k
      → (k.user_id == user) ≡ false
  alone single s k apart held = elim (Option-cases (holder s d)) [
    | inl e ↦ cc
    | inr (h, e) ↦ ground (
      arith,
      first_row-select (active_on s) d.holds e,
      first_row-select-absent (active_on s) (blocks_user user seat clock.now) d.holds e single,
      held,
      e,
      apart,
    )
  ]

  booked_there :
      exists_where (live_on seat clock.now) d.holds ≡ false
      → first_row (select (active_on seat) (cleaned seat clock.now d ++ row ∷ [])) ≡ some row
  booked_there free =
      first_row-select-last (active_on seat) (cleaned seat clock.now d) row
        (rw (holder-cleaned seat) (elim (Option-cases (holder seat d)) [
          | inl e ↦ rw e refl
          | inr (h, e) ↦ rw e (
              ground (
                arith,
                first_row-select (active_on seat) d.holds e,
                first_row-select-absent (active_on seat) (live_on seat clock.now) d.holds e free,
              ))
        ]))
        (ground (arith, ==_refl seat))

  booked_elsewhere :
      (s : ℕ)
      → (s == seat) ≡ false
      → first_row (select (active_on s) (cleaned seat clock.now d ++ row ∷ [])) ≡ holder s d
  booked_elsewhere s apart =
      first_row-select-skip (active_on s) (cleaned seat clock.now d) row (ground (arith, apart))
      ∙ holder-cleaned s
      ∙ elim (Option-cases (holder s d)) [
        | inl e ↦ rw e refl
        | inr (h, e) ↦ rw e (ground (arith, first_row-select (active_on s) d.holds e, apart))
      ]

  sold_before :
      (s : ℕ)
      → count_where (sold_on s) (cleaned seat clock.now d ++ row ∷ [])
        ≡ count_where (sold_on s) d.holds
  sold_before s = ground (
    arith,
    count_where-append (sold_on s) (cleaned seat clock.now d) (row ∷ []),
    count_where-update_where-eq (sold_on s) (expired_on seat clock.now) (released_row clock.now)
        d.holds (λ x e. ground arith),
  )

  granted-Change :
      exists_where (live_on seat clock.now) d.holds ≡ false
      → exists_where (blocks_user user seat clock.now) d.holds ≡ false
      → Change (view d) (view (granted row event_id trace clock d)) (requests seat user clock.now)
  unfolding granted
  granted-Change free single =
      books seat user clock.now new_booking refl (ran_out free) (alone single)
        (λ s. elim (Bool-cases (s == seat)) [
          | inl e ↦
              let same = (==_iff s seat).0 e in rw (same, ==_refl seat, booked_there free) refl
          | inr e ↦ rw (e, booked_elsewhere s e) refl
        ])
        sold_before

  pub insert_hold_tx-Change :
      (l : Link)
      → Change
          (view d)
          (view (insert_hold_tx ttl seat user trace hold_id event_id clock l d).1)
          (requests seat user clock.now)
  unfolding new_hold
  insert_hold_tx-Change l =
      LostOrSteady-keeps (λ e. Change (view d) (view e) (requests seat user clock.now)) _ _ d
        (insert_hold_tx_atomic ttl seat user trace hold_id event_id clock l d) (stays refl)
        (rw (insert_hold_tx_outcome ttl seat user trace hold_id event_id clock d)
          (elim (Bool-cases (exists_where (with_id hold_id) d.holds)) [
            | inl e ↦ rw e (stays refl)
            | inr a ↦ elim (Bool-cases (exists_where (live_on seat clock.now) d.holds)) [
              | inl e ↦ rw (a, e) (stays refl)
              | inr b ↦ elim (Bool-cases (exists_where (blocks_user user seat clock.now) d.holds)) [
                | inl e ↦ rw (a, b, e) (stays refl)
                | inr c ↦ elim (Bool-cases (has_seat seat d)) [
                  | inl e ↦ rw (a, b, c, e) (granted-Change b c)
                  | inr e ↦ rw (a, b, c, e) (stays refl)
                ]
              ]
            ]
          ]))
