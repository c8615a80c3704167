-- ===== src/Seat/Traces.antt =====
-- The seat service at work: any interleaving of its transactions, by any number of replicas, over
-- connections that may break.
pub mod Rows
pub mod Excludes
use technical_assignment.Common.{ℕ, Link, Option, Bool}
use technical_assignment.Contracts.{TraceId, ReleaseReason, Content}
use technical_assignment.Seat.Db.{Db}
use technical_assignment.Seat.Consistent.{IsConsistent}
use technical_assignment.Seat.Holds.{Clock, insert_hold_tx, release_hold}
use technical_assignment.Seat.Holds.Keeps.{insert_hold_tx-IsConsistent}
use technical_assignment.Seat.Holds.Settle.{release_hold-IsConsistent}
use technical_assignment.Seat.Sweeper.{tick}
use technical_assignment.Seat.Sweeper.Keeps.{tick-IsConsistent}
use technical_assignment.Seat.Consumer.{on_message}
use technical_assignment.Seat.Consumer.Deliveries.{on_message-IsConsistent}

-- One transaction: a hold request, a release, a message of the payment service, or a sweep.
pub data Step (d : Db) : Db → Type 0 where
  holds :
      (ttl seat user : ℕ) (trace : TraceId) (hold_id event_id : ℕ) (clock : Clock) (l : Link)
      → Step d (insert_hold_tx ttl seat user trace hold_id event_id clock l d).1
  releases :
      (i : ℕ) (reason : ReleaseReason) (trace : TraceId) (event_id : ℕ) (clock : Clock) (l : Link)
      → Step d (release_hold i reason trace event_id clock l d).1
  consumes :
      (id : ℕ) (clock : Clock) (l : Link) (m : Option Content)
      → Step d (on_message id clock l d m).db
  sweeps :
      (limit : ℕ) (locked : ℕ → Bool) (trace : TraceId) (fresh : ℕ → ℕ) (clock : Clock) (l : Link)
      → Step d (tick limit locked trace fresh clock l d).1

pub data Reach (d : Db) : Db → Type 0 where
  here : Reach d d
  next : {e f : Db} → Reach d e → Step e f → Reach d f

Step-IsConsistent : {d e : Db} → Step d e → IsConsistent d → IsConsistent e
Step-IsConsistent {d} (holds ttl seat user trace hold_id event_id clock l) v =
    insert_hold_tx-IsConsistent ttl seat user trace hold_id event_id clock d v l
Step-IsConsistent {d} (releases i reason trace event_id clock l) v =
    release_hold-IsConsistent i reason trace event_id clock d v l
Step-IsConsistent {d} (consumes id clock l m) v = on_message-IsConsistent id clock l d m v
Step-IsConsistent {d} (sweeps limit locked trace fresh clock l) v =
    tick-IsConsistent limit locked trace fresh clock d v l

-- From a consistent database, after any sequence of transactions of the seat service, hold ids are
-- unique, no seat and no user has two active holds, and a seat is shown as held exactly when it has
-- an active hold.
pub Reach-IsConsistent : {d e : Db} → Reach d e → IsConsistent d → IsConsistent e
Reach-IsConsistent here v = v
Reach-IsConsistent (next r s) v = Step-IsConsistent s (Reach-IsConsistent r v)
