-- ===== src/Outbox.antt =====
-- The transactional outbox: the table of the migrations, packages/be-core/src/outbox.ts, and the
-- worker of apps/seat-reservation/src/outbox/outbox.worker.ts, which
-- apps/payment/src/outbox/outbox.worker.ts repeats but for the choice of the exchange.
mod Tests
pub mod Worker
pub mod Delivery
pub mod Retries
use technical_assignment.Common.{
  ℕ, suc, Option, List, [], ◌∷◌, ◌++◌, length, ◌≡◌, arith, length-append,
}
use technical_assignment.Contracts.{AnyEvent, TraceId, EventType, ReleaseReason, schema}

pub data OutboxState : Type 0 where
  pending processing dead : OutboxState

-- JSON.stringify({ traceId, userId?, reason? })
pub record Headers : Type 0 where
  pub trace_id : TraceId
  pub user_id : Option ℕ
  pub reason : Option ReleaseReason

pub record OutboxRow : Type 0 where
  pub id : ℕ
  pub aggregate_id : ℕ
  pub event_type : EventType
  pub payload : AnyEvent
  pub headers : Headers
  pub state : OutboxState
  pub attempts : ℕ
  pub next_attempt_at : ℕ

-- The table with its BIGSERIAL counter.
pub record Outbox : Type 0 where
  pub entries : List OutboxRow
  pub next_id : ℕ

-- INSERT INTO outbox (aggregate_id, event_type, payload, headers): the other columns take their
-- defaults, `now` is NOW().
abbrev pub new_row : ℕ → ℕ → AnyEvent → Headers → ℕ → OutboxRow
new_row id aggregate event headers now = record {
  id = id;
  aggregate_id = aggregate;
  event_type = schema event;
  payload = event;
  headers = headers;
  state = pending;
  attempts = 0;
  next_attempt_at = now;
}

abbrev pub append : ℕ → AnyEvent → Headers → ℕ → Outbox → Outbox
append aggregate event headers now o = record {
  entries = o.entries ++ new_row o.next_id aggregate event headers now ∷ [];
  next_id = suc o.next_id;
}

pub length-append_row :
    (aggregate : ℕ) (event : AnyEvent) (headers : Headers) (now : ℕ) (o : Outbox)
    → length (append aggregate event headers now o).entries ≡ suc (length o.entries)
length-append_row aggregate event headers now o =
    omega (arith, length-append o.entries (new_row o.next_id aggregate event headers now ∷ []))
