-- ===== src/Seat/Wire.antt =====
-- The events that the seat service puts in its outbox, as the contracts would have them: what its
-- handlers and its sweeper write, each with the trace that its own code gives it.
use Prim.Native.String.{String}
use technical_assignment.Contracts.Tracing.{resolve_trace_id-IsUuid}
use technical_assignment.Contracts.{
  TraceId, uuid, is_uuid, resolve_trace_id, Content, AnyEvent, parse, conforms, ReleaseReason,
  sweeper, user_cancelled, garbage, json,
}
use technical_assignment.Seat.Db.{Db, HoldRow, free_seat}
use technical_assignment.Seat.Typed.{
  IsWired, Any, exec-Ensures, free_seat-IsWired, emit-IsWired, same-IsWired,
}
use technical_assignment.Seat.Holds.{
  Clock, release_hold, InsertResult, ReleaseResult, ReserveResult, conflict, inserted,
}
use technical_assignment.Seat.Holds.Typed.{
  insert_hold_tx-IsWired, release_hold-IsWired, reserve_hold-IsWired, released_event-IsSeatEvent,
}
use technical_assignment.Seat.Controller.{Env, hold, release_found, hold_answer, release_answer}
use technical_assignment.Seat.Consumer.{
  on_message, process, after_reserve, after_release, seat_service,
}
use technical_assignment.Seat.Sweeper.{
  tick, tick_body, sweep_rows, sweep_row, batch, in_batch, release_batch,
}
use technical_assignment.Common.Hoare.{
  Ensures, query-Ensures, bind-Ensures, pure-Ensures, run_tx-keeps,
}
use technical_assignment.Common.{
  ℕ, suc, Option, some, none, Result, ok, err, List, [], ◌∷◌, Link, Bool, true, Bool-cases, inl,
  inr, ◌≡◌, refl, ◌==◌, rows, select, arith,
}

-- One handler or one tick at work: a request to hold, the end of a request to release after
-- whatever its look-up answered, a message of the broker, or a sweep, whose trace is a random UUID.
pub data Serves (d : Db) : Db → Type 0 where
  holds :
      (env : Env) (seat user : ℕ) (header : Option TraceId) (trace hold_id event_id : ℕ)
      (clock : Clock) (l l' : Link)
      → Serves d (hold env seat user header trace hold_id event_id clock l l' d).db
  releases :
      (user : ℕ) (header : Option TraceId) (trace event_id : ℕ) (clock : Clock) (l : Link)
      (found : Result (Option HoldRow) × Db)
      → Serves d (release_found user (resolve_trace_id header trace) event_id clock l found d).db
  consumes :
      (id : ℕ) (clock : Clock) (l : Link) (m : Option Content)
      → Serves d (on_message id clock l d m).db
  sweeps :
      (limit : ℕ) (locked : ℕ → Bool) (trace : ℕ) (fresh : ℕ → ℕ) (clock : Clock) (l : Link)
      → Serves d (tick limit locked (uuid trace) fresh clock l d).1

pub data Runs (d : Db) : Db → Type 0 where
  here : Runs d d
  next : {e f : Db} → Runs d e → Serves e f → Runs d f

module _ {ps : List (ℕ × ℕ × String)} where
  sweep_rows-Ensures :
      (trace : ℕ) (fresh : ℕ → ℕ) (clock : Clock) (i : ℕ) (rs : List HoldRow)
      → Ensures (IsWired ps) Any (sweep_rows (uuid trace) fresh clock i rs)
  unfolding sweep_rows sweep_row
  sweep_rows-Ensures trace fresh clock i [] = pure-Ensures (IsWired ps) Any tt tt
  sweep_rows-Ensures trace fresh clock i (r ∷ rest) =
      bind-Ensures (IsWired ps) Any Any _ _
        (bind-Ensures (IsWired ps) Any Any _ _
          (exec-Ensures (free_seat r.seat_id) (free_seat-IsWired r.seat_id))
          (λ t k. exec-Ensures _ (λ d. emit-IsWired r.id _ _ clock.now d (
            released_event-IsSeatEvent r.seat_id sweeper (fresh i) (uuid trace) clock.occurred refl
              refl))))
        (λ t k. sweep_rows-Ensures trace fresh clock (suc i) rest)

  tick-IsWired :
      (limit : ℕ) (locked : ℕ → Bool) (trace : ℕ) (fresh : ℕ → ℕ) (clock : Clock) (l : Link)
      (d : Db)
      → IsWired ps d
      → IsWired ps (tick limit locked (uuid trace) fresh clock l d).1
  unfolding tick tick_body
  tick-IsWired limit locked trace fresh clock l d =
      run_tx-keeps (IsWired ps) Any (tick_body limit locked (uuid trace) fresh clock) l d (
        bind-Ensures (IsWired ps) Any Any _ _
          (query-Ensures (IsWired ps) Any
            (λ e.
              let hs = batch limit locked clock.now e in
              rows (select (in_batch hs) e.holds) (release_batch hs clock.now e))
            (λ e v. (
              same-IsWired e (release_batch (batch limit locked clock.now e) clock.now e) refl refl
                  v,
              tt,
            )))
          (λ found k.
            bind-Ensures (IsWired ps) Any Any _ _ (sweep_rows-Ensures trace fresh clock 0 found)
              (λ t k'. pure-Ensures (IsWired ps) Any _ tt)))

  hold-IsWired :
      (env : Env) (seat user : ℕ) (l' : Link) (r : Result InsertResult × Db)
      → IsWired ps r.1
      → IsWired ps (hold_answer env seat user l' r).db
  hold-IsWired env seat user l' (err e, d) v = v
  hold-IsWired env seat user l' (ok (conflict c), d) v = v
  hold-IsWired env seat user l' (ok (inserted h), d) v = v

  release_answer-IsWired :
      (r : Result ReleaseResult × Db) → IsWired ps r.1 → IsWired ps (release_answer r).db
  release_answer-IsWired (err e, d) v = v
  release_answer-IsWired (ok r, d) v = v

  release_found-IsWired :
      (user : ℕ) (trace : TraceId) (event_id : ℕ) (clock : Clock) (l : Link)
      (found : Result (Option HoldRow) × Db) (d : Db)
      → is_uuid trace ≡ true
      → IsWired ps d
      → IsWired ps (release_found user trace event_id clock l found d).db
  unfolding release_found
  release_found-IsWired user trace event_id clock l (err e, s) d u v = v
  release_found-IsWired user trace event_id clock l (ok none, s) d u v = v
  release_found-IsWired user trace event_id clock l (ok (some h), s) d u v =
      elim (Bool-cases (h.user_id == user)) [
        | inl own ↦ rw own (
            release_answer-IsWired (release_hold h.id user_cancelled trace event_id clock l d)
              (release_hold-IsWired h.id user_cancelled trace event_id clock l d u refl v))
        | inr other ↦ rw other v
      ]

  after_reserve-IsWired :
      (r : Result ReserveResult × Db) → IsWired ps r.1 → IsWired ps (after_reserve r).db
  after_reserve-IsWired (err e, d) v = v
  after_reserve-IsWired (ok r, d) v = v

  after_release-IsWired :
      (r : Result ReleaseResult × Db) → IsWired ps r.1 → IsWired ps (after_release r).db
  after_release-IsWired (err e, d) v = v
  after_release-IsWired (ok r, d) v = v

  process-IsWired :
      (id : ℕ) (clock : Clock) (l : Link) (d : Db) (e : AnyEvent)
      → conforms e ≡ true
      → IsWired ps d
      → IsWired ps (process id clock l d e).db
  unfolding process conforms
  process-IsWired id clock l d (AnyEvent.payment_succeeded e) good v = after_reserve-IsWired _ (
      reserve_hold-IsWired e.hold_id e.base.event_id seat_service e.base.trace_id id clock l d
        (ground (arith, good)) v)
  process-IsWired id clock l d (AnyEvent.payment_failed e) good v = after_release-IsWired _ (
      release_hold-IsWired e.hold_id ReleaseReason.payment_failed e.base.trace_id id clock l d good
        refl v)
  process-IsWired id clock l d (AnyEvent.seat_held e) good v = v
  process-IsWired id clock l d (AnyEvent.seat_released e) good v = v
  process-IsWired id clock l d (AnyEvent.seat_reserved e) good v = v

  on_message-IsWired :
      (id : ℕ) (clock : Clock) (l : Link) (d : Db) (m : Option Content)
      → IsWired ps d
      → IsWired ps (on_message id clock l d m).db
  unfolding on_message parse
  on_message-IsWired id clock l d none v = v
  on_message-IsWired id clock l d (some (garbage n)) v = v
  on_message-IsWired id clock l d (some (json e)) v = elim (Bool-cases (conforms e)) [
    | inl good ↦ rw good (process-IsWired id clock l d e good v)
    | inr bad ↦ rw bad v
  ]

  Serves-IsWired : {d e : Db} → Serves d e → IsWired ps d → IsWired ps e
  unfolding hold
  Serves-IsWired {d} (holds env seat user header trace hold_id event_id clock l l') v =
      hold-IsWired env seat user l' _ (
        insert_hold_tx-IsWired env.hold_ttl_seconds seat user (resolve_trace_id header trace)
          hold_id event_id clock l d (resolve_trace_id-IsUuid header trace) v)
  Serves-IsWired {d} (releases user header trace event_id clock l found) v =
      release_found-IsWired user (resolve_trace_id header trace) event_id clock l found d
        (resolve_trace_id-IsUuid header trace) v
  Serves-IsWired {d} (consumes id clock l m) v = on_message-IsWired id clock l d m v
  Serves-IsWired {d} (sweeps limit locked trace fresh clock l) v =
      tick-IsWired limit locked trace fresh clock l d v

-- From a database whose seats have currencies of three code units and whose outbox holds only rows
-- of the type of their payload, which a consumer parses back and the worker publishes to the
-- exchange of the seat events, the same holds after any sequence of hold requests, release requests,
-- messages of the broker and sweeps, where the seat ids in the requests are written as PostgreSQL
-- prints them, whatever trace ids the clients send, whatever the messages are and whatever happens
-- to the connections; and every seat still has its price.
pub outbox_typed : {ps : List (ℕ × ℕ × String)} {d e : Db} → Runs d e → IsWired ps d → IsWired ps e
outbox_typed here v = v
outbox_typed (next r s) v = Serves-IsWired s (outbox_typed r v)
