-- ===== src/Seat/Holds/Whole.antt =====
-- `insertHoldTx` on a connection that breaks, at COMMIT too.
use technical_assignment.Common.Robust.{LostOrSteady}
use technical_assignment.Contracts.{TraceId}
use technical_assignment.Seat.Db.{Db, HoldRow}
use technical_assignment.Seat.Consistent.{with_id}
use technical_assignment.Seat.Holds.{
  Clock, InsertResult, inserted, conflict, new_hold, insert_hold_tx,
}
use technical_assignment.Seat.Holds.Faults.{insert_hold_tx_atomic}
use technical_assignment.Seat.Holds.Insert.{
  live_on, blocks_user, has_seat, granted, insert_hold_tx_outcome,
}
use technical_assignment.Common.{
  ℕ, Bool, true, false, ◌≡◌, ◌⊎◌, ◌+◌, ◌*◌, refl, inl, inr, Bool-cases, Link, Result, ok, err,
  connection_lost, steady, exists_where,
}

abbrev pub grants : Result InsertResult → Bool
grants (ok (inserted h)) = true
grants (ok (conflict c)) = false
grants (err e) = false

-- Nothing is written and no hold is reported; or the hold, the status of its seat and its event are
-- all written, which was allowed, and either the hold is reported or the answer was lost.
abbrev pub AllOrNothing : HoldRow → ℕ → TraceId → Clock → Db → Result InsertResult × Db → Type 0
AllOrNothing h event_id trace clock d r =
    ((r.1 ≡ d) × (grants r.0 ≡ false))
    ⊎ ((r.1 ≡ granted h event_id trace clock d)
        × (exists_where (live_on h.seat_id clock.now) d.holds ≡ false)
        × (exists_where (blocks_user h.user_id h.seat_id clock.now) d.holds ≡ false)
        × ((r.0 ≡ ok (inserted h)) ⊎ (r.0 ≡ err connection_lost)))

module _ (ttl seat user : ℕ) (trace : TraceId) (hold_id event_id : ℕ) (clock : Clock) (d : Db) where
  abbrev row : HoldRow
  row = new_hold hold_id seat user (clock.date + ttl * 1000) clock.now

  steady_call :
      AllOrNothing row event_id trace clock d
        (insert_hold_tx ttl seat user trace hold_id event_id clock steady d)
  unfolding new_hold
  steady_call =
      rw (insert_hold_tx_outcome ttl seat user trace hold_id event_id clock d)
        (elim (Bool-cases (exists_where (with_id hold_id) d.holds)) [
          | inl e ↦ rw e (inl (refl, refl))
          | inr a ↦ elim (Bool-cases (exists_where (live_on seat clock.now) d.holds)) [
            | inl e ↦ rw (a, e) (inl (refl, refl))
            | inr b ↦ elim (Bool-cases (exists_where (blocks_user user seat clock.now) d.holds)) [
              | inl e ↦ rw (a, b, e) (inl (refl, refl))
              | inr c ↦ elim (Bool-cases (has_seat seat d)) [
                | inl e ↦ rw (a, b, c, e) (inr (refl, refl, refl, inl refl))
                | inr e ↦ rw (a, b, c, e) (inl (refl, refl))
              ]
            ]
          ]
        ])

  -- Whatever happens to the connection, and where the answer to COMMIT is lost too, `insertHoldTx`
  -- writes nothing and reports no hold, or it writes the hold, the status of the seat and the event,
  -- all three, and reports the hold unless the connection was lost; and it writes them only where
  -- no unexpired hold of the seat and no other active hold of the user was there.
  pub insert_hold_tx-AllOrNothing :
      (l : Link)
      → AllOrNothing row event_id trace clock d
          (insert_hold_tx ttl seat user trace hold_id event_id clock l d)
  insert_hold_tx-AllOrNothing l =
      by_link _ _ (insert_hold_tx_atomic ttl seat user trace hold_id event_id clock l d) steady_call
    where
      by_link :
          (r s : Result InsertResult × Db)
          → LostOrSteady r s d
          → AllOrNothing row event_id trace clock d s
          → AllOrNothing row event_id trace clock d r
      by_link r s (inl e) k = inl (rw e (refl, refl))
      by_link r s (inr (inl e)) (inl k) = inl (rw (e, k.0) (refl, refl))
      by_link r s (inr (inl e)) (inr k) = inr (rw e (k.0, k.1, k.2, inr refl))
      by_link r s (inr (inr e)) k = rw e k
