-- ===== src/Seat/Controller/Access.antt =====
-- Who may end a hold through the API, and what a client is told.
use technical_assignment.Seat.Holds.Insert.{insert_hold_tx_outcome}
use technical_assignment.Seat.Holds.Faults.{insert_hold_tx_atomic}
use technical_assignment.Common.{
  ℕ, ◌≡◌, refl, inl, inr, false, Option, some, [], arith, ◌==◌, Result, ok, err, Link, first_row,
  select, ◌≢◌,
}
use technical_assignment.Contracts.{TraceId, resolve_trace_id}
use technical_assignment.Seat.Db.{Db, HoldRow, active_on}
use technical_assignment.Seat.Holds.{
  Clock, insert_hold_tx, InsertResult, inserted, conflict, find_active_hold_for_seat,
  ConflictReason, Price,
}
use technical_assignment.Seat.Controller.{
  Env, hold, release, conflict_409, ConflictError, find_active_hold_for_seat, ConflictReason,
  hold_answer, Price, priced, get_price,
}

-- A user who asks to release a seat that another user holds changes nothing: the answer is 204, or
-- 500 where the look-up fails, and the database is what other transactions made of it.
pub release_by_stranger :
    (seat user : ℕ) (header : Option TraceId) (trace_id event_id : ℕ) (clock : Clock) (l l' : Link)
    (meanwhile : Db → Db) (d : Db) {h : HoldRow}
    → first_row (select (active_on seat) d.holds) ≡ some h
    → (h.user_id == user) ≡ false
    → ((release seat user header trace_id event_id clock l l' meanwhile d).db ≡ meanwhile d)
      × ((release seat user header trace_id event_id clock l l' meanwhile d).bus ≡ [])
unfolding release find_active_hold_for_seat
release_by_stranger seat user header trace_id event_id clock l l' meanwhile d found other =
    (ground arith, ground arith)

conflict_keeps :
    (ttl seat user : ℕ) (trace : TraceId) (hold_id event_id : ℕ) (clock : Clock) (l : Link) (d : Db)
    {r : ConflictReason}
    → (insert_hold_tx ttl seat user trace hold_id event_id clock l d).0 ≡ ok (conflict r)
    → (insert_hold_tx ttl seat user trace hold_id event_id clock l d).1 ≡ d
conflict_keeps ttl seat user trace hold_id event_id clock l d e =
    elim (insert_hold_tx_atomic ttl seat user trace hold_id event_id clock l d) [
      | inl lost ↦ ground (arith, lost)
      | inr (inl lost) ↦ ground (arith, lost)
      | inr (inr same) ↦
          ground (arith, same, insert_hold_tx_outcome ttl seat user trace hold_id event_id clock d)
    ]

conflict_answer :
    (env : Env) (seat user : ℕ) (l : Link) (d : Db) (r : Result InsertResult × Db)
    (error : ConflictError) (after : ℕ)
    → ((c : ConflictReason) → r.0 ≡ ok (conflict c) → r.1 ≡ d)
    → (hold_answer env seat user l r).response ≡ conflict_409 error after
    → (after ≡ env.retry_after_seconds)
      × ((hold_answer env seat user l r).db ≡ d)
      × ((hold_answer env seat user l r).bus ≡ [])
conflict_answer env seat user l d (err e, d') error after k h = cc
conflict_answer env seat user l d (ok (conflict c), d') error after k h = (cc, k c refl, refl)
conflict_answer env seat user l d (ok (inserted x), d') error after k h =
    absurd (priced_is_not_409 x seat (get_price seat l d') h)
  where
    priced_is_not_409 :
        (x : HoldRow) (s : ℕ) (p : Result (Option Price) × Db)
        → priced x s p ≢ conflict_409 error after
    priced_is_not_409 x s (ok p, d) q = cc
    priced_is_not_409 x s (err e, d) q = cc

-- A 409 never comes with a change: a conflict leaves the database and the bus alone.
pub conflict_changes_nothing :
    (env : Env) (seat user : ℕ) (header : Option TraceId) (trace_id hold_id event_id : ℕ)
    (clock : Clock) (l l' : Link) (d : Db) (error : ConflictError) (after : ℕ)
    → (hold env seat user header trace_id hold_id event_id clock l l' d).response
      ≡ conflict_409 error after
    → (after ≡ env.retry_after_seconds)
      × ((hold env seat user header trace_id hold_id event_id clock l l' d).db ≡ d)
      × ((hold env seat user header trace_id hold_id event_id clock l l' d).bus ≡ [])
unfolding hold
conflict_changes_nothing env seat user header trace_id hold_id event_id clock l l' d error after e =
    conflict_answer env seat user l' d
      (insert_hold_tx env.hold_ttl_seconds seat user (resolve_trace_id header trace_id) hold_id
        event_id clock l d)
      error after
      (λ c.
        conflict_keeps env.hold_ttl_seconds seat user (resolve_trace_id header trace_id) hold_id
          event_id clock l d {r = c})
      e
