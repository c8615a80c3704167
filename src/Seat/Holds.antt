-- ===== src/Seat/Holds.antt =====
-- apps/seat-reservation/src/holds/holds.repository.ts: `HoldsRepository`. A method takes the ids
-- that it draws by `randomUUID`, the clocks, the link to the database and the database.
pub mod Faults
pub mod Whole
pub mod Insert
pub mod Exclusion
pub mod Settle
pub mod Keeps
pub mod Typed
use Prim.Native.String.{String}
use technical_assignment.Common.{
  ℕ, ◌+◌, ◌*◌, Bool, true, false, Option, none, some, [], ◌∷◌, ◌++◌, ◌==◌, if◌then◌else◌, select,
  first_row, exists_where, uniq_active_hold_per_user, Exn, unique_violation, Link, Answer, rows, Tx,
  query, pure, throw, ◌>>=◌, ◌>>◌, catching, Verdict, commit, rollback, Result, run_tx, run_query,
}
use technical_assignment.Contracts.{TraceId, AnyEvent, ReleaseReason}
use technical_assignment.Outbox.{Headers, append}
use technical_assignment.Seat.Db.{
  HoldStatus, HoldRow, SeatStatus, SeatRow, Db, active_on, active_id, expired_on, released_row,
  reserved_row, mark_seat, free_seat, insert_row, update_holds, consumed_by,
}

pub data ConflictReason : Type 0 where
  seat_held user_has_hold : ConflictReason

-- InsertHoldResult | InsertHoldConflict
pub data InsertResult : Type 0 where
  inserted : HoldRow → InsertResult
  conflict : ConflictReason → InsertResult

-- `Date.now()` of the process, NOW() of the transaction, and the later `new Date()` of an event.
pub record Clock : Type 0 where
  pub date : ℕ
  pub now : ℕ
  pub occurred : ℕ

pub record Price : Type 0 where
  pub price_cents : ℕ
  pub currency : String

price_of : Option SeatRow → Option Price
price_of none = none
price_of (some s) = some (record { price_cents = s.price_cents; currency = s.currency })

-- SELECT price_cents, currency FROM seats WHERE id = $1
unfoldable pub lookup_price : ℕ → Db → Option Price
unfolding price_of
lookup_price seat d = price_of (first_row (select (λ s. s.id == seat) d.seats))

cents_or_zero : Option Price → ℕ
cents_or_zero none = 0
cents_or_zero (some p) = p.price_cents

currency_or_usd : Option Price → String
currency_or_usd none = "USD"
currency_or_usd (some p) = p.currency

unfoldable pub held_event : HoldRow → ℕ → TraceId → ℕ → Option Price → Option Price → AnyEvent
unfolding cents_or_zero currency_or_usd
held_event hold event_id trace occurred price price' = AnyEvent.seat_held (record {
  base = record { event_id = event_id; trace_id = trace; occurred_at = occurred };
  seat_id = hold.seat_id;
  user_id = hold.user_id;
  hold_id = hold.id;
  held_until = hold.held_until;
  price_cents = cents_or_zero price;
  currency = currency_or_usd price';
})

-- The statement that appends to the outbox.
abbrev pub emit : ℕ → AnyEvent → Headers → ℕ → Db → Db
emit aggregate event headers now d = record d {
  outbox = append aggregate event headers now d.outbox;
}

abbrev pub exec : (Db → Db) → Tx Db (Unit {0})
exec f = query (λ d. rows tt (f d))

unfoldable pub new_hold : ℕ → ℕ → ℕ → ℕ → ℕ → HoldRow
new_hold id seat user until now = record {
  id = id;
  seat_id = seat;
  user_id = user;
  status = HoldStatus.held;
  held_until = until;
  created_at = now;
  released_at = none;
  reserved_at = none;
}

-- catch (e) of the inner block: 23505 is a conflict, anything else is thrown on.
unfoldable pub conflict_of : Exn → Tx Db (Verdict InsertResult)
conflict_of (unique_violation uniq_active_hold_per_user) = pure (rollback (conflict user_has_hold))
conflict_of (unique_violation c) = pure (rollback (conflict ConflictReason.seat_held))
conflict_of e = throw e

-- The inner `try` block.
unfoldable pub insert_and_announce : HoldRow → ℕ → TraceId → Clock → Tx Db (Verdict InsertResult)
unfolding held_event lookup_price
insert_and_announce row event_id trace clock = do
  hold ← query (insert_row row)
  exec (mark_seat SeatStatus.held row.seat_id)
  price ← query (λ d. rows (lookup_price row.seat_id d) d)
  price' ← query (λ d. rows (lookup_price row.seat_id d) d)
  exec (
      emit hold.id (held_event hold event_id trace clock.occurred price price')
        (record { trace_id = trace; user_id = some row.user_id; reason = none }) clock.now)
  pure (commit (inserted hold))

unfoldable pub insert_hold_body : ℕ → ℕ → ℕ → TraceId → ℕ → ℕ → Clock → Tx Db (Verdict InsertResult)
unfolding new_hold insert_and_announce conflict_of
insert_hold_body hold_ttl_seconds seat user trace hold_id event_id clock = do
  exec (update_holds (expired_on seat clock.now) (released_row clock.now))
  catching
      (insert_and_announce
        (new_hold hold_id seat user (clock.date + hold_ttl_seconds * 1000) clock.now) event_id trace
        clock)
      conflict_of

-- insertHoldTx
unfoldable pub insert_hold_tx :
    ℕ → ℕ → ℕ → TraceId → ℕ → ℕ → Clock → Link → Db → Result InsertResult × Db
unfolding insert_hold_body
insert_hold_tx hold_ttl_seconds seat user trace hold_id event_id clock =
    run_tx (insert_hold_body hold_ttl_seconds seat user trace hold_id event_id clock)

pub record ReleaseResult : Type 0 where
  pub released : Bool
  pub seat_id : Option ℕ

unfoldable pub released_event : ℕ → ReleaseReason → ℕ → TraceId → ℕ → AnyEvent
released_event seat reason event_id trace occurred = AnyEvent.seat_released (record {
  base = record { event_id = event_id; trace_id = trace; occurred_at = occurred };
  seat_id = seat;
  user_id = none;
  reason = reason;
})

-- UPDATE holds SET … WHERE … RETURNING, and `rows[0]`. The callers read columns of the row that
-- the update leaves alone, so the row is taken before it.
abbrev returning : (HoldRow → Bool) → (HoldRow → HoldRow) → Tx Db (Option HoldRow)
returning p f = query (λ d. rows (first_row (select p d.holds)) (update_holds p f d))

release_found :
    ℕ → ReleaseReason → TraceId → ℕ → Clock → Option HoldRow → Tx Db (Verdict ReleaseResult)
unfolding released_event
release_found hold_id reason trace event_id clock none =
    pure (rollback (record { released = false; seat_id = none }))
release_found hold_id reason trace event_id clock (some h) = do
  exec (free_seat h.seat_id)
  exec (
      emit hold_id (released_event h.seat_id reason event_id trace clock.occurred)
        (record { trace_id = trace; user_id = none; reason = none }) clock.now)
  pure (commit (record { released = true; seat_id = some h.seat_id }))

unfoldable pub release_hold_body :
    ℕ → ReleaseReason → TraceId → ℕ → Clock → Tx Db (Verdict ReleaseResult)
unfolding release_found
release_hold_body hold_id reason trace event_id clock = do
  found ← returning (active_id hold_id) (released_row clock.now)
  release_found hold_id reason trace event_id clock found

-- releaseHold
unfoldable pub release_hold :
    ℕ → ReleaseReason → TraceId → ℕ → Clock → Link → Db → Result ReleaseResult × Db
unfolding release_hold_body
release_hold hold_id reason trace event_id clock =
    run_tx (release_hold_body hold_id reason trace event_id clock)

pub record ReserveResult : Type 0 where
  pub reserved : Bool
  pub seat_id : Option ℕ
  pub user_id : Option ℕ

abbrev pub not_reserved : ReserveResult
not_reserved = record { reserved = false; seat_id = none; user_id = none }

-- INSERT INTO consumed_events … ON CONFLICT DO NOTHING, with `rowCount > 0`.
abbrev consume_event : ℕ → ℕ → Db → Answer Db Bool
consume_event event_id group d =
    if exists_where (consumed_by event_id group) d.consumed_events
    then rows false d
    else rows true (record d {
      consumed_events =
          d.consumed_events ++ record { event_id = event_id; consumer_group = group } ∷ [];
    })

unfoldable pub reserved_event : ℕ → HoldRow → ℕ → TraceId → ℕ → AnyEvent
reserved_event hold_id h event_id trace occurred = AnyEvent.seat_reserved (record {
  base = record { event_id = event_id; trace_id = trace; occurred_at = occurred };
  seat_id = h.seat_id;
  user_id = h.user_id;
  hold_id = hold_id;
})

reserve_found : ℕ → TraceId → ℕ → Clock → Option HoldRow → Tx Db (Verdict ReserveResult)
unfolding reserved_event
reserve_found hold_id trace out_id clock none = pure (rollback not_reserved)
reserve_found hold_id trace out_id clock (some h) = do
  exec (mark_seat SeatStatus.reserved h.seat_id)
  exec (
      emit hold_id (reserved_event hold_id h out_id trace clock.occurred)
        (record { trace_id = trace; user_id = none; reason = none }) clock.now)
  pure (commit (record { reserved = true; seat_id = some h.seat_id; user_id = some h.user_id }))

reserve_fresh : ℕ → TraceId → ℕ → Clock → Bool → Tx Db (Verdict ReserveResult)
unfolding reserve_found
reserve_fresh hold_id trace out_id clock false = pure (rollback not_reserved)
reserve_fresh hold_id trace out_id clock true = do
  found ← returning (active_id hold_id) (reserved_row clock.now)
  reserve_found hold_id trace out_id clock found

unfoldable pub reserve_hold_body : ℕ → ℕ → ℕ → TraceId → ℕ → Clock → Tx Db (Verdict ReserveResult)
unfolding reserve_fresh
reserve_hold_body hold_id event_id consumer_group trace out_id clock = do
  is_new ← query (consume_event event_id consumer_group)
  reserve_fresh hold_id trace out_id clock is_new

-- reserveHold
unfoldable pub reserve_hold :
    ℕ → ℕ → ℕ → TraceId → ℕ → Clock → Link → Db → Result ReserveResult × Db
unfolding reserve_hold_body
reserve_hold hold_id event_id consumer_group trace out_id clock =
    run_tx (reserve_hold_body hold_id event_id consumer_group trace out_id clock)

-- SELECT * FROM holds WHERE seat_id = $1 AND status = 'HELD' LIMIT 1
unfoldable pub find_active_hold_for_seat : ℕ → Link → Db → Result (Option HoldRow) × Db
find_active_hold_for_seat seat =
    run_query (query (λ d. rows (first_row (select (active_on seat) d.holds)) d))
