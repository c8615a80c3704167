-- ===== src/Seat/Traces/Excludes.antt =====
-- A granted hold shuts others out while it lasts, whatever else the service does.
use technical_assignment.Contracts.{TraceId}
use technical_assignment.Seat.Db.{Db, HoldRow, active_id}
use technical_assignment.Seat.Consistent.{IsConsistent, with_id}
use technical_assignment.Seat.Holds.{
  Clock, inserted, conflict, ConflictReason, insert_hold_tx, new_hold,
}
use technical_assignment.Seat.Holds.Keeps.{insert_hold_tx-IsConsistent}
use technical_assignment.Seat.Holds.Insert.{granted, cleaned, live_on, insert_hold_tx_outcome}
use technical_assignment.Seat.Holds.Whole.{AllOrNothing, insert_hold_tx-AllOrNothing}
use technical_assignment.Seat.Traces.{Reach, Reach-IsConsistent}
use technical_assignment.Seat.Traces.Rows.{Has, same_hold, Reach-Has}
use technical_assignment.Common.{
  ℕ, ◌+◌, ◌*◌, ◌≤◌, ◌≡◌, true, inl, inr, Bool-cases, Option-cases, Link, some, ok, steady,
  exists_where, exists_where-last, first_row, select, first_row-select, first_row-select-none,
  first_row-select-absent, one_row, arith, ==_refl, count_where-exists_false,
  first_row-select-counted, sym, ◌∙◌, ap,
}

-- A row of the table with the id of a row that it has is that row, in seat and end.
kept_row :
    (h g : HoldRow) (d : Db)
    → IsConsistent d
    → Has h d
    → first_row (select (active_id h.id) d.holds) ≡ some g
    → same_hold h g ≡ true
kept_row h g d v k found = elim (Option-cases (first_row (select (same_hold h) d.holds))) [
  | inl e ↦ absurd (
      ground (
        arith,
        k,
        count_where-exists_false (same_hold h) d.holds
            (first_row-select-none (same_hold h) d.holds e),
      ))
  | inr (x, e) ↦ elim (Option-cases (first_row (select (with_id h.id) d.holds))) [
    | inl e' ↦ absurd (
        omega (
          arith,
          first_row-select-none (with_id h.id) d.holds e',
          first_row-select-counted (same_hold h) (with_id h.id) d.holds e
              (ground (arith, first_row-select (same_hold h) d.holds e)),
        ))
    | inr (w, e') ↦
        let a : x ≡ w =
          one_row (same_hold h) (with_id h.id) d.holds (v.ids h.id) e
            (ground (arith, first_row-select (same_hold h) d.holds e)) e' in
        let b : g ≡ w =
          one_row (active_id h.id) (with_id h.id) d.holds (v.ids h.id) found
            (ground (arith, first_row-select (active_id h.id) d.holds found)) e' in
        rw (b ∙ sym a) (first_row-select (same_hold h) d.holds e)
  ]
]

-- Over whatever connections, once `insertHoldTx` has answered with a hold in a consistent database,
-- and after any further transactions of the service, as long as the hold is active and NOW() is not
-- past its `held_until`, a call for the seat over a steady connection is refused and changes nothing,
-- whoever asks.
pub granted_hold_excludes :
    (ttl seat user : ℕ) (trace : TraceId) (hold_id event_id : ℕ) (clock : Clock) (l : Link) (d : Db)
    {h g : HoldRow} {d' e : Db}
    → IsConsistent d
    → insert_hold_tx ttl seat user trace hold_id event_id clock l d ≡ (ok (inserted h), d')
    → Reach d' e
    → first_row (select (active_id h.id) e.holds) ≡ some g
    → (ttl' user' : ℕ) (trace' : TraceId) (id' event' : ℕ) (clock' : Clock)
    → clock'.now ≤ h.held_until
    → insert_hold_tx ttl' seat user' trace' id' event' clock' steady e
      ≡ (ok (conflict ConflictReason.seat_held), e)
unfolding granted new_hold
granted_hold_excludes ttl seat user trace hold_id event_id clock l d {h} {g} {d'} {e} v got r active
      ttl' user' trace' id' event' clock' before =
    let v' : IsConsistent d' =
      rw got at (insert_hold_tx-IsConsistent ttl seat user trace hold_id event_id clock d v l) in
    let (on, has) =
      there
        (rw got at (insert_hold_tx-AllOrNothing ttl seat user trace hold_id event_id clock d l)) in
    let same = kept_row h g e (Reach-IsConsistent r v') (Reach-Has h r v' has) active in
    elim (Bool-cases (exists_where (live_on seat clock'.now) e.holds)) [
      | inl live ↦
          ground (arith, live, insert_hold_tx_outcome ttl' seat user' trace' id' event' clock' e)
      | inr none_live ↦ absurd (
          ground (
            arith,
            on,
            same,
            ==_refl seat,
            first_row-select (active_id h.id) e.holds active,
            first_row-select-absent (active_id h.id) (live_on seat clock'.now) e.holds active
                none_live,
          ))
    ]
  where
    there :
        AllOrNothing
          (new_hold hold_id seat user (clock.date + ttl * 1000) clock.now)
          event_id
          trace
          clock
          d
          (ok (inserted h), d')
        → (h.seat_id ≡ seat) × Has h d'
    there (inl nothing) = absurd (cc)
    there (inr (written, free, single, inl is)) =
        let row = new_hold hold_id seat user (clock.date + ttl * 1000) clock.now in
        let eh : h ≡ row = ground arith in
        (
          ap (λ (y : HoldRow). y.seat_id) eh,
          rw (written, eh)
              (exists_where-last (same_hold row) (cleaned seat clock.now d) row
                (ground (arith, ==_refl row.id, ==_refl row.seat_id, ==_refl row.held_until))),
        )
    there (inr (written, free, single, inr lost)) = absurd (cc)
