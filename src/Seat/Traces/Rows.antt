-- ===== src/Seat/Traces/Rows.antt =====
-- A hold, once it is in the table, keeps its id, its seat and its end, whatever the service does.
use technical_assignment.Common.Robust.{LostOrSteady-keeps}
use technical_assignment.Contracts.{
  Content, AnyEvent, garbage, json, conforms, ReleaseReason, TraceId,
}
use technical_assignment.Seat.Db.{
  Db, HoldRow, released_row, reserved_row, active_id, consumed_by, expired_on,
}
use technical_assignment.Seat.Consistent.{IsConsistent}
use technical_assignment.Seat.Holds.{
  Clock, ReserveResult, ReleaseResult, InsertResult, release_hold, reserve_hold, insert_hold_tx,
}
use technical_assignment.Seat.Holds.Faults.{release_hold_atomic, reserve_hold_atomic}
use technical_assignment.Seat.Holds.Settle.{
  freed, sold, release_hold_outcome, reserve_hold_outcome, active_hold,
}
use technical_assignment.Seat.Holds.Insert.{granted, cleaned}
use technical_assignment.Seat.Holds.Whole.{AllOrNothing, insert_hold_tx-AllOrNothing}
use technical_assignment.Seat.Sweeper.{tick, in_batch, release_batch}
use technical_assignment.Seat.Sweeper.Batch.{chosen, tick_atomic, holds-swept, tick_outcome}
use technical_assignment.Seat.Consumer.{
  on_message, after_reserve, after_release, process, seat_service,
}
use technical_assignment.Seat.Traces.{
  Step, Reach, holds, releases, consumes, sweeps, Reach-IsConsistent,
}
use technical_assignment.Common.{
  ℕ, Bool, true, ◌&&◌, ◌==◌, ◌≡◌, ◌∙◌, inl, inr, Bool-cases, Option-cases, Link, Option, none, some,
  Result, ok, err, exists_where, exists_where-append, exists_where-update_where, update_where,
  arith, [], ◌∷◌, select,
}

-- The hold with this id, seat and end, whatever its status.
abbrev pub same_hold : HoldRow → HoldRow → Bool
same_hold h x = (x.id == h.id) && ((x.seat_id == h.seat_id) && (x.held_until == h.held_until))

abbrev pub Has : HoldRow → Db → Type 0
Has h d = exists_where (same_hold h) d.holds ≡ true

module _ (h : HoldRow) where
  released-same :
      (p : HoldRow → Bool) (now : ℕ) (d : Db)
      → Has h d
      → exists_where (same_hold h) (update_where p (released_row now) d.holds) ≡ true
  released-same p now d k =
      exists_where-update_where (same_hold h) p (same_hold h) (released_row now) d.holds
        (λ x. ground arith)
      ∙ k

  reserved-same :
      (p : HoldRow → Bool) (now : ℕ) (d : Db)
      → Has h d
      → exists_where (same_hold h) (update_where p (reserved_row now) d.holds) ≡ true
  reserved-same p now d k =
      exists_where-update_where (same_hold h) p (same_hold h) (reserved_row now) d.holds
        (λ x. ground arith)
      ∙ k

  insert_hold_tx-Has :
      (ttl seat user : ℕ) (trace : TraceId) (hold_id event_id : ℕ) (clock : Clock) (l : Link)
      (d : Db)
      → Has h d
      → Has h (insert_hold_tx ttl seat user trace hold_id event_id clock l d).1
  unfolding granted
  insert_hold_tx-Has ttl seat user trace hold_id event_id clock l d k =
      written (insert_hold_tx-AllOrNothing ttl seat user trace hold_id event_id clock d l)
    where
      written :
          {x : HoldRow} {r : Result InsertResult × Db}
          → AllOrNothing x event_id trace clock d r
          → Has h r.1
      written (inl same) = rw same.0 k
      written {x} (inr new) = rw new.0 (
          ground (
            arith,
            exists_where-append (same_hold h) (cleaned x.seat_id clock.now d) (x ∷ []),
            released-same (expired_on x.seat_id clock.now) clock.now d k,
          ))

  release_hold-Has :
      (i : ℕ) (reason : ReleaseReason) (trace : TraceId) (event_id : ℕ) (clock : Clock) (l : Link)
      (d : Db)
      → IsConsistent d
      → Has h d
      → Has h (release_hold i reason trace event_id clock l d).1
  unfolding freed
  release_hold-Has i reason trace event_id clock l d v k =
      LostOrSteady-keeps (Has h) _ _ d (release_hold_atomic i reason trace event_id clock l d) k (
        rw (release_hold_outcome i reason trace event_id clock d v)
          (elim (Option-cases (active_hold i d)) [
            | inl e ↦ rw e k
            | inr (g, e) ↦ rw e (released-same (active_id i) clock.now d k)
          ]))

  reserve_hold-Has :
      (i event_id group : ℕ) (trace : TraceId) (out_id : ℕ) (clock : Clock) (l : Link) (d : Db)
      → Has h d
      → Has h (reserve_hold i event_id group trace out_id clock l d).1
  unfolding sold
  reserve_hold-Has i event_id group trace out_id clock l d k =
      LostOrSteady-keeps (Has h) _ _ d (reserve_hold_atomic i event_id group trace out_id clock l d)
        k
        (rw (reserve_hold_outcome i event_id group trace out_id clock d)
          (elim (Bool-cases (exists_where (consumed_by event_id group) d.consumed_events)) [
            | inl a ↦ rw a k
            | inr a ↦ elim (Option-cases (active_hold i d)) [
              | inl e ↦ rw (a, e) k
              | inr (g, e) ↦ rw (a, e) (reserved-same (active_id i) clock.now d k)
            ]
          ]))

  tick-Has :
      (limit : ℕ) (locked : ℕ → Bool) (trace : TraceId) (fresh : ℕ → ℕ) (clock : Clock) (l : Link)
      (d : Db)
      → Has h d
      → Has h (tick limit locked trace fresh clock l d).1
  tick-Has limit locked trace fresh clock l d k =
      let picked = chosen limit locked trace fresh clock d in
      LostOrSteady-keeps (Has h) _ _ d (tick_atomic limit locked trace fresh clock d l) k (
        rw
          (
            tick_outcome limit locked trace fresh clock d,
            holds-swept trace fresh clock 0 (select (in_batch picked) d.holds)
                (release_batch picked clock.now d),
          )
          (released-same (in_batch picked) clock.now d k))

  on_message-Has :
      (id : ℕ) (clock : Clock) (l : Link) (d : Db) (m : Option Content)
      → IsConsistent d
      → Has h d
      → Has h (on_message id clock l d m).db
  unfolding on_message
  on_message-Has id clock l d none v k = k
  on_message-Has id clock l d (some (garbage n)) v k = k
  on_message-Has id clock l d (some (json e)) v k = elim (Bool-cases (conforms e)) [
    | inr bad ↦ rw bad k
    | inl good ↦ rw good (processed e)
  ]
    where
      by_reserve : (r : Result ReserveResult × Db) → Has h r.1 → Has h (after_reserve r).db
      by_reserve (ok r, d') p = p
      by_reserve (err x, d') p = p

      by_release : (r : Result ReleaseResult × Db) → Has h r.1 → Has h (after_release r).db
      by_release (ok r, d') p = p
      by_release (err x, d') p = p

      processed : (e : AnyEvent) → Has h (process id clock l d e).db
      processed (AnyEvent.payment_succeeded e) =
          by_reserve _
            (reserve_hold-Has e.hold_id e.base.event_id seat_service e.base.trace_id id clock l d k)
      processed (AnyEvent.payment_failed e) =
          by_release _ (
            release_hold-Has e.hold_id ReleaseReason.payment_failed e.base.trace_id id clock l d v
              k)
      processed (AnyEvent.seat_held e) = k
      processed (AnyEvent.seat_released e) = k
      processed (AnyEvent.seat_reserved e) = k

  Step-Has : {d e : Db} → Step d e → IsConsistent d → Has h d → Has h e
  Step-Has {d} (holds ttl seat user trace hold_id event_id clock l) v k =
      insert_hold_tx-Has ttl seat user trace hold_id event_id clock l d k
  Step-Has {d} (releases i reason trace event_id clock l) v k =
      release_hold-Has i reason trace event_id clock l d v k
  Step-Has {d} (consumes id clock l m) v k = on_message-Has id clock l d m v k
  Step-Has {d} (sweeps limit locked trace fresh clock l) v k =
      tick-Has limit locked trace fresh clock l d k

  pub Reach-Has : {d e : Db} → Reach d e → IsConsistent d → Has h d → Has h e
  Reach-Has Reach.here v k = k
  Reach-Has (Reach.next r s) v k = Step-Has s (Reach-IsConsistent r v) (Reach-Has r v k)
