-- ===== src/Seat/Controller.antt =====
-- apps/seat-reservation/src/seats/seats.controller.ts and seats.repository.ts: the handlers
-- behind JwtAuthGuard and RateLimitGuard, which have given them the user. The metrics counters and
-- the log are left out; the SSE stream only forwards the bus.
pub mod Access
use technical_assignment.Seat.Consumer.{released_bus}
use Prim.Native.String.{String}
use technical_assignment.Common.{
  ℕ, Bool, true, false, Option, none, some, List, [], ◌∷◌, ◌==◌, if◌then◌else◌, Result, ok, err,
  Link, run_query, query, rows,
}
use technical_assignment.Contracts.{TraceId, resolve_trace_id, ReleaseReason, user_cancelled}
use technical_assignment.Seat.Db.{Db, HoldRow}
use technical_assignment.Seat.Bus.{BusEvent, held_now, released_now}
use technical_assignment.Seat.Holds.{
  Clock, InsertResult, inserted, conflict, ConflictReason, Price, insert_hold_tx, release_hold,
  ReleaseResult, find_active_hold_for_seat, lookup_price,
}

pub record Env : Type 0 where
  pub hold_ttl_seconds : ℕ
  pub retry_after_seconds : ℕ

-- The `error` of the 409 body.
pub data ConflictError : Type 0 where
  user_already_has_hold seat_unavailable : ConflictError

pub record HoldBody : Type 0 where
  pub hold_id : ℕ
  pub seat_id : ℕ
  pub held_until : ℕ
  pub price : Option Price

-- 200, 409 with its Retry-After, 204, and the 500 of an exception that nothing catches.
pub data Response : Type 0 where
  held_200 : HoldBody → Response
  conflict_409 : ConflictError → ℕ → Response
  no_content_204 : Response
  internal_error_500 : Response

pub record Outcome : Type 0 where
  pub response : Response
  pub db : Db
  pub bus : List BusEvent

abbrev error_of : ConflictReason → ConflictError
error_of ConflictReason.user_has_hold = user_already_has_hold
error_of ConflictReason.seat_held = seat_unavailable

-- The price in the answer is read by a second query, which may fail after the hold is committed.
abbrev pub priced : HoldRow → ℕ → Result (Option Price) × Db → Response
priced h seat (ok p, d) =
    held_200 (record { hold_id = h.id; seat_id = seat; held_until = h.held_until; price = p })
priced h seat (err e, d) = internal_error_500

abbrev pub get_price : ℕ → Link → Db → Result (Option Price) × Db
get_price seat = run_query (query (λ d. rows (lookup_price seat d) d))

abbrev pub hold_answer : Env → ℕ → ℕ → Link → Result InsertResult × Db → Outcome
hold_answer env seat user l (err e, d) = record { response = internal_error_500; db = d; bus = [] }
hold_answer env seat user l (ok (conflict r), d) = record {
  response = conflict_409 (error_of r) env.retry_after_seconds;
  db = d;
  bus = [];
}
hold_answer env seat user l (ok (inserted h), d) = record {
  response = priced h seat (get_price seat l d);
  db = d;
  bus = held_now seat user h.held_until ∷ [];
}

-- POST :id/hold. `trace_id` is drawn by `resolveTraceId` where the header gives none; `l` and `l'`
-- are the links of the two methods.
unfoldable pub hold : Env → ℕ → ℕ → Option TraceId → ℕ → ℕ → ℕ → Clock → Link → Link → Db → Outcome
hold env seat user header trace_id hold_id event_id clock l l' d = hold_answer env seat user l' (
    insert_hold_tx env.hold_ttl_seconds seat user (resolve_trace_id header trace_id) hold_id
      event_id clock l d)

abbrev pub release_answer : Result ReleaseResult × Db → Outcome
release_answer (err e, d) = record { response = internal_error_500; db = d; bus = [] }
release_answer (ok r, d) = record {
  response = no_content_204;
  db = d;
  bus = released_bus r.seat_id;
}

-- The lines after the look-up, on the database as it then is.
unfoldable pub release_found :
    ℕ → TraceId → ℕ → Clock → Link → Result (Option HoldRow) × Db → Db → Outcome
release_found user trace event_id clock l (err e, _) d = record {
  response = internal_error_500;
  db = d;
  bus = [];
}
release_found user trace event_id clock l (ok none, _) d = record {
  response = no_content_204;
  db = d;
  bus = [];
}
release_found user trace event_id clock l (ok (some h), _) d =
    if h.user_id == user
    then release_answer (release_hold h.id user_cancelled trace event_id clock l d)
    else record { response = no_content_204; db = d; bus = [] }

-- POST :id/release. `meanwhile` is what other transactions do between the look-up and the release.
unfoldable pub release :
    ℕ → ℕ → Option TraceId → ℕ → ℕ → Clock → Link → Link → (Db → Db) → Db → Outcome
unfolding release_found
release seat user header trace_id event_id clock l l' meanwhile d =
    release_found user (resolve_trace_id header trace_id) event_id clock l'
      (find_active_hold_for_seat seat l d) (meanwhile d)
