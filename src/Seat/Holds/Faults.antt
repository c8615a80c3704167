-- ===== src/Seat/Holds/Faults.antt =====
-- `HoldsRepository` on a connection that breaks.
use technical_assignment.Common.{
  true, false, ℕ, Option, none, some, ◌≡◌, refl, failed, Exn, unique_violation,
  uniq_active_hold_per_user, Link, steady, connection_lost, Bool,
}
use technical_assignment.Common.Robust.{
  IsRobust, LostOrSteady, robust_rules, run_tx-LostOrSteady, catching-IsRobust, pure-IsRobust,
  throw-IsRobust,
}
use technical_assignment.Contracts.{TraceId, ReleaseReason}
use technical_assignment.Seat.Db.{Db, HoldRow}
use technical_assignment.Seat.Holds.{
  Clock, conflict_of, insert_and_announce, insert_hold_body, insert_hold_tx, release_found,
  release_hold_body, release_hold, reserve_hold_body, reserve_found, reserve_fresh, reserve_hold,
}

conflict_of-IsRobust : (e : Exn) → IsRobust (conflict_of e)
unfolding conflict_of
conflict_of-IsRobust (unique_violation uniq_active_hold_per_user) = pure-IsRobust _
conflict_of-IsRobust (unique_violation c) = pure-IsRobust _
conflict_of-IsRobust e = throw-IsRobust _

conflict_of-connection_lost :
    (l : Link) (d : Db) → conflict_of connection_lost l d ≡ failed connection_lost l
unfolding conflict_of
conflict_of-connection_lost l d = refl

insert_and_announce-IsRobust :
    (row : HoldRow) (event_id : ℕ) (trace : TraceId) (clock : Clock)
    → IsRobust (insert_and_announce row event_id trace clock)
unfolding insert_and_announce
insert_and_announce-IsRobust row event_id trace clock = search robust_rules depth 12

insert_hold_body-IsRobust :
    (ttl seat user : ℕ) (trace : TraceId) (hold_id event_id : ℕ) (clock : Clock)
    → IsRobust (insert_hold_body ttl seat user trace hold_id event_id clock)
unfolding insert_hold_body
insert_hold_body-IsRobust ttl seat user trace hold_id event_id clock = search (
  robust_rules, catching-IsRobust, insert_and_announce-IsRobust, conflict_of-IsRobust,
  conflict_of-connection_lost,
)

-- Whatever happens to the connection, `insertHoldTx` either returns and writes what it does on a
-- steady connection, or throws; then it leaves the database as it was or, where the answer to COMMIT
-- was lost, as on a steady connection.
pub insert_hold_tx_atomic :
    (ttl seat user : ℕ) (trace : TraceId) (hold_id event_id : ℕ) (clock : Clock) (l : Link) (d : Db)
    → LostOrSteady
        (insert_hold_tx ttl seat user trace hold_id event_id clock l d)
        (insert_hold_tx ttl seat user trace hold_id event_id clock steady d)
        d
unfolding insert_hold_tx
insert_hold_tx_atomic ttl seat user trace hold_id event_id clock l d =
    run_tx-LostOrSteady (insert_hold_body ttl seat user trace hold_id event_id clock) l d
      (insert_hold_body-IsRobust ttl seat user trace hold_id event_id clock)

release_found-IsRobust :
    (hold_id : ℕ) (reason : ReleaseReason) (trace : TraceId) (event_id : ℕ) (clock : Clock)
    (found : Option HoldRow)
    → IsRobust (release_found hold_id reason trace event_id clock found)
unfolding release_found
release_found-IsRobust hold_id reason trace event_id clock none = search robust_rules
release_found-IsRobust hold_id reason trace event_id clock (some h) = search robust_rules depth 9

release_hold_body-IsRobust :
    (hold_id : ℕ) (reason : ReleaseReason) (trace : TraceId) (event_id : ℕ) (clock : Clock)
    → IsRobust (release_hold_body hold_id reason trace event_id clock)
unfolding release_hold_body
release_hold_body-IsRobust hold_id reason trace event_id clock =
    search (robust_rules, release_found-IsRobust)

pub release_hold_atomic :
    (hold_id : ℕ) (reason : ReleaseReason) (trace : TraceId) (event_id : ℕ) (clock : Clock)
    (l : Link) (d : Db)
    → LostOrSteady
        (release_hold hold_id reason trace event_id clock l d)
        (release_hold hold_id reason trace event_id clock steady d)
        d
unfolding release_hold
release_hold_atomic hold_id reason trace event_id clock l d =
    run_tx-LostOrSteady (release_hold_body hold_id reason trace event_id clock) l d
      (release_hold_body-IsRobust hold_id reason trace event_id clock)

reserve_found-IsRobust :
    (hold_id : ℕ) (trace : TraceId) (out_id : ℕ) (clock : Clock) (found : Option HoldRow)
    → IsRobust (reserve_found hold_id trace out_id clock found)
unfolding reserve_found
reserve_found-IsRobust hold_id trace out_id clock none = search robust_rules
reserve_found-IsRobust hold_id trace out_id clock (some h) = search robust_rules depth 9

reserve_fresh-IsRobust :
    (hold_id : ℕ) (trace : TraceId) (out_id : ℕ) (clock : Clock) (is_new : Bool)
    → IsRobust (reserve_fresh hold_id trace out_id clock is_new)
unfolding reserve_fresh
reserve_fresh-IsRobust hold_id trace out_id clock false = search robust_rules
reserve_fresh-IsRobust hold_id trace out_id clock true =
    search (robust_rules, reserve_found-IsRobust)

reserve_hold_body-IsRobust :
    (hold_id event_id group : ℕ) (trace : TraceId) (out_id : ℕ) (clock : Clock)
    → IsRobust (reserve_hold_body hold_id event_id group trace out_id clock)
unfolding reserve_hold_body
reserve_hold_body-IsRobust hold_id event_id group trace out_id clock =
    search (robust_rules, reserve_fresh-IsRobust)

pub reserve_hold_atomic :
    (hold_id event_id group : ℕ) (trace : TraceId) (out_id : ℕ) (clock : Clock) (l : Link) (d : Db)
    → LostOrSteady
        (reserve_hold hold_id event_id group trace out_id clock l d)
        (reserve_hold hold_id event_id group trace out_id clock steady d)
        d
unfolding reserve_hold
reserve_hold_atomic hold_id event_id group trace out_id clock l d =
    run_tx-LostOrSteady (reserve_hold_body hold_id event_id group trace out_id clock) l d
      (reserve_hold_body-IsRobust hold_id event_id group trace out_id clock)
