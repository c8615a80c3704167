-- ===== src/Seat/Holds/Keeps.antt =====
-- `insertHoldTx` keeps the seat database consistent.
use technical_assignment.Common.{
  ℕ, ◌+◌, ◌*◌, ◌≤◌, ◌≡◌, inl, inr, false, List, [], ◌∷◌, ◌++◌, arith, ◌==◌, Bool-cases,
  exists_where, exists_where-count, count_where-append, count_where-update_where-le,
  count_where-update_where-eq, count_where, All-update_where, Link, ◌∙◌,
}
use technical_assignment.Contracts.{TraceId}
use technical_assignment.Seat.Db.{
  HoldRow, SeatStatus, Db, active_on, active_by, expired_on, released_row, with_status,
}
use technical_assignment.Seat.Consistent.{IsConsistent, Matches, with_id}
use technical_assignment.Seat.Holds.{Clock, new_hold, insert_hold_tx}
use technical_assignment.Seat.Holds.Faults.{insert_hold_tx_atomic}
use technical_assignment.Seat.Holds.Insert.{
  live_on, blocks_user, has_seat, cleaned, granted, insert_hold_tx_outcome, ids_kept, live_left,
  user_left,
}
use technical_assignment.Common.Robust.{LostOrSteady-keeps}

module _ (ttl seat user : ℕ) (trace : TraceId) (hold_id event_id : ℕ) (clock : Clock) (d : Db)
    (v : IsConsistent d) where
  abbrev row : HoldRow
  row = new_hold hold_id seat user (clock.date + ttl * 1000) clock.now

  abbrev kept : List HoldRow
  kept = cleaned seat clock.now d

  module _ (fresh : exists_where (with_id hold_id) d.holds ≡ false)
      (free : exists_where (live_on seat clock.now) d.holds ≡ false)
      (idle : exists_where (blocks_user user seat clock.now) d.holds ≡ false) where
    no_id : count_where (with_id hold_id) kept ≡ 0
    no_id = exists_where-count (with_id hold_id) kept (ids_kept seat clock.now d hold_id ∙ fresh)

    no_live : count_where (active_on seat) kept ≡ 0
    no_live = exists_where-count (active_on seat) kept (live_left seat clock.now d ∙ free)

    no_user : count_where (active_by user) kept ≡ 0
    no_user = exists_where-count (active_by user) kept (user_left seat clock.now d user ∙ idle)

    kept_ids : (i : ℕ) → count_where (with_id i) kept ≤ count_where (with_id i) d.holds
    kept_ids i =
        count_where-update_where-le (with_id i) (expired_on seat clock.now) (released_row clock.now)
          d.holds (λ x e k. k)

    kept_seats : (s : ℕ) → count_where (active_on s) kept ≤ count_where (active_on s) d.holds
    kept_seats s =
        count_where-update_where-le (active_on s) (expired_on seat clock.now)
          (released_row clock.now) d.holds (λ x e k. ground arith)

    kept_users : (u : ℕ) → count_where (active_by u) kept ≤ count_where (active_by u) d.holds
    kept_users u =
        count_where-update_where-le (active_by u) (expired_on seat clock.now)
          (released_row clock.now) d.holds (λ x e k. ground arith)

    other_seats :
        (s : ℕ)
        → (s == seat) ≡ false
        → count_where (active_on s) kept ≡ count_where (active_on s) d.holds
    other_seats s ne =
        count_where-update_where-eq (active_on s) (expired_on seat clock.now)
          (released_row clock.now) d.holds (λ x e. ground arith)

    granted-IsConsistent : IsConsistent (granted row event_id trace clock d)
    unfolding granted new_hold
    granted-IsConsistent = record {
      ids = λ i.
          ground
            (arith, count_where-append (with_id i) kept (row ∷ []), no_id, kept_ids i, v.ids i);
      per_seat = λ s. ground (
        arith,
        count_where-append (active_on s) kept (row ∷ []),
        no_live,
        kept_seats s,
        v.per_seat s,
      );
      per_user = λ u. ground (
        arith,
        count_where-append (active_by u) kept (row ∷ []),
        no_user,
        kept_users u,
        v.per_user u,
      );
      seats_match =
          All-update_where (Matches d.holds) (Matches (kept ++ row ∷ [])) (λ s. s.id == seat)
            (with_status SeatStatus.held) d.seats
            (λ s m e. ground (arith, count_where-append (active_on s.id) kept (row ∷ []), e))
            (λ s m e. ground (
              arith,
              count_where-append (active_on s.id) kept (row ∷ []),
              other_seats s.id e,
              m,
              e,
            ))
            v.seats_match;
    }

  -- Whatever the connection does, `insertHoldTx` keeps the database consistent.
  pub insert_hold_tx-IsConsistent :
      (l : Link) → IsConsistent (insert_hold_tx ttl seat user trace hold_id event_id clock l d).1
  insert_hold_tx-IsConsistent l =
      LostOrSteady-keeps IsConsistent _ _ d
        (insert_hold_tx_atomic ttl seat user trace hold_id event_id clock l d) v
        (rw (insert_hold_tx_outcome ttl seat user trace hold_id event_id clock d)
          (elim (Bool-cases (exists_where (with_id hold_id) d.holds)) [
            | inl a ↦ rw a v
            | inr a ↦ elim (Bool-cases (exists_where (live_on seat clock.now) d.holds)) [
              | inl b ↦ rw (a, b) v
              | inr b ↦ elim (Bool-cases (exists_where (blocks_user user seat clock.now) d.holds)) [
                | inl c ↦ rw (a, b, c) v
                | inr c ↦ elim (Bool-cases (has_seat seat d)) [
                  | inl e ↦ rw (a, b, c, e) (granted-IsConsistent a b c)
                  | inr e ↦ rw (a, b, c, e) v
                ]
              ]
            ]
          ]))
