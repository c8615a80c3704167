-- ===== src/Outbox/Worker.antt =====
-- `OutboxWorker.tick` and `processRow` of apps/seat-reservation/src/outbox/outbox.worker.ts; the
-- worker of apps/payment/src/outbox/outbox.worker.ts is the same with the other choice of exchange.
-- The broker and the crashes of a tick are an argument, `Attempt`.
use technical_assignment.Common.{
  ℕ, ◌+◌, ◌*◌, ◌^◌, min, Bool, true, false, not, ◌&&◌, List, [], ◌∷◌, ◌==◌, ltb, leb, if◌then◌else◌,
  take, select, update_where, exists_where,
}
use technical_assignment.Contracts.{AnyEvent, EventType, Exchange, RoutingKey, routing_key}
use technical_assignment.Outbox.{OutboxState, pending, processing, dead, OutboxRow, Headers}

abbrev pub max_attempts : ℕ
max_attempts = 10

abbrev pub base_backoff_ms : ℕ
base_backoff_ms = 1000

abbrev pub is_pending : OutboxState → Bool
is_pending pending = true
is_pending processing = false
is_pending dead = false

abbrev is_processing : OutboxState → Bool
is_processing pending = false
is_processing processing = true
is_processing dead = false

abbrev pub row_id : ℕ → OutboxRow → Bool
row_id i r = r.id == i

-- WHERE state = 'PROCESSING' AND next_attempt_at < NOW() - interval '5 minutes'
abbrev pub is_stuck : ℕ → OutboxRow → Bool
is_stuck now r = is_processing r.state && ltb (r.next_attempt_at + 300000) now

abbrev pub requeued_row : ℕ → OutboxRow → OutboxRow
requeued_row now r = record r { state = pending; next_attempt_at = now }

unfoldable pub recover : ℕ → List OutboxRow → List OutboxRow
recover now = update_where (is_stuck now) (requeued_row now)

-- WHERE state = 'PENDING' AND next_attempt_at <= NOW(), without the rows that others have locked
abbrev is_due : (ℕ → Bool) → ℕ → OutboxRow → Bool
is_due locked now r = is_pending r.state && (leb r.next_attempt_at now && not (locked r.id))

-- ORDER BY next_attempt_at
unfoldable insert_by_next : OutboxRow → List OutboxRow → List OutboxRow
insert_by_next r [] = r ∷ []
insert_by_next r (x ∷ xs) =
    let rest = insert_by_next r xs in
    if leb r.next_attempt_at x.next_attempt_at then r ∷ x ∷ xs else x ∷ rest

unfoldable order_by_next : List OutboxRow → List OutboxRow
unfolding insert_by_next
order_by_next [] = []
order_by_next (r ∷ rs) = insert_by_next r (order_by_next rs)

unfoldable pub due_rows : (ℕ → Bool) → ℕ → List OutboxRow → List OutboxRow
unfolding order_by_next
due_rows locked now t = take 100 (order_by_next (select (is_due locked now) t))

abbrev pub in_rows : List OutboxRow → OutboxRow → Bool
in_rows rs r = exists_where (row_id r.id) rs

abbrev pub marked_row : OutboxRow → OutboxRow
marked_row r = record r { state = processing }

-- UPDATE outbox SET state = 'PROCESSING' WHERE id = ANY($1)
unfoldable pub mark_processing : List OutboxRow → List OutboxRow → List OutboxRow
mark_processing rs = update_where (in_rows rs) marked_row

-- What happens to one row: the broker confirms and the row is deleted; the broker does not confirm,
-- or `publish` throws, and the row is updated at `now`; or the tick ends there, before or after
-- the broker has confirmed.
pub data Attempt : Type 0 where
  confirmed : Attempt
  refused : (now : ℕ) → Attempt
  cut_before cut_after : Attempt

unfoldable pub backoff_ms : ℕ → ℕ
backoff_ms attempts = base_backoff_ms * 2 ^ min attempts 8

-- The UPDATE after a failed attempt, of a row whose snapshot had `attempts - 1`.
unfoldable pub rescheduled_row : ℕ → ℕ → OutboxRow → OutboxRow
unfolding backoff_ms
rescheduled_row now attempts r =
    if leb max_attempts attempts
    then record r { state = dead; attempts = attempts; next_attempt_at = now + 3600000 }
    else record r {
      state = pending;
      attempts = attempts;
      next_attempt_at = now + backoff_ms attempts;
    }

unfoldable pub reschedule : ℕ → OutboxRow → List OutboxRow → List OutboxRow
unfolding rescheduled_row
reschedule now row = update_where (row_id row.id) (rescheduled_row now (row.attempts + 1))

-- DELETE FROM outbox WHERE id = $1
unfoldable pub delete_row : ℕ → List OutboxRow → List OutboxRow
delete_row i = select (λ r. not (row_id i r))

-- The loop of `tick` over `processRow`: the table after it, and the rows that were published.
unfoldable pub process_rows :
    (OutboxRow → Attempt) → List OutboxRow → List OutboxRow → List OutboxRow × List OutboxRow
unfolding delete_row reschedule
process_rows attempt [] t = (t, [])
process_rows attempt (r ∷ rest) t = elim (attempt r) [
  | confirmed ↦ let (t', sent) = process_rows attempt rest (delete_row r.id t) in (t', r ∷ sent)
  | refused now ↦ process_rows attempt rest (reschedule now r t)
  | cut_before ↦ (t, [])
  | cut_after ↦ (t, r ∷ [])
]

abbrev pub run_batch :
    (OutboxRow → Attempt) → List OutboxRow → List OutboxRow → List OutboxRow × List OutboxRow
run_batch attempt [] t = (t, [])
run_batch attempt (r ∷ rs) t = process_rows attempt (r ∷ rs) (mark_processing (r ∷ rs) t)

-- `running` is the flag that keeps ticks of one process apart.
unfoldable pub tick :
    Bool → (ℕ → Bool) → ℕ → (OutboxRow → Attempt) → List OutboxRow → List OutboxRow × List OutboxRow
unfolding recover due_rows process_rows mark_processing
tick running locked now attempt t =
    if running
    then (t, [])
    else run_batch attempt (due_rows locked now (recover now t)) (recover now t)

pub record Message : Type 0 where
  pub exchange : Exchange
  pub routing : RoutingKey
  pub payload : AnyEvent
  pub headers : Headers

-- What is handed to `rabbit.publish` for a row.
unfoldable pub message : (EventType → Exchange) → OutboxRow → Message
message exchange r = record {
  exchange = exchange r.event_type;
  routing = routing_key r.event_type;
  payload = r.payload;
  headers = r.headers;
}
