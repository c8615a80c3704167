-- ===== src/Seat/Holds/Typed.antt =====
-- What `HoldsRepository` writes keeps the outbox typed, over any connection.
use Prim.Native.String.{String}
use technical_assignment.Common.Hoare.{
  Ensures, query-Ensures, bind-Ensures, pure-Ensures, throw-Ensures, catching-Ensures, run_tx-keeps,
}
use technical_assignment.Contracts.{
  utf16_length, TraceId, is_uuid, conforms, seat_exchange, ReleaseReason, known_reason,
}
use technical_assignment.Seat.Db.{
  consumed_by, Db, HoldRow, SeatStatus, mark_seat, free_seat, insert_row, update_holds,
  released_row, expired_on, active_id, reserved_row,
}
use technical_assignment.Seat.Typed.{
  IsWired, Any, IsSeatEvent, emit-IsWired, mark_seat-IsWired, free_seat-IsWired, same-IsWired,
  exec-Ensures, insert_row-IsWired,
}
use technical_assignment.Seat.Holds.{
  Clock, Price, exec, lookup_price, held_event, insert_and_announce, conflict_of, insert_hold_body,
  insert_hold_tx, released_event, release_found, release_hold_body, release_hold, reserved_event,
  reserve_found, reserve_fresh, reserve_hold_body, reserve_hold, consume_event, returning,
}
use technical_assignment.Common.{
  ℕ, ◌≡◌, refl, Bool, true, false, Option, none, some, ◌==◌, Bool-cases, Option-cases, inl, inr,
  All-first_row, exists_where, first_row, select, rows, query, Link, Exn, unique_violation,
  foreign_key_violation, rt_not_found, argon2_rejected, connection_lost, uniq_active_hold_per_user,
  uniq_active_hold_per_seat, primary_key, idempotency_key, email_key, token_hash_key, List,
}

-- What a look-up of the price may give: nothing, or a currency of three code units.
abbrev IsPriced : Option Price → Type 0
IsPriced none = Unit
IsPriced (some p) = (utf16_length p.currency == 3) ≡ true

held_event-IsSeatEvent :
    (h : HoldRow) (event_id : ℕ) (trace : TraceId) (occurred : ℕ) (price price' : Option Price)
    → is_uuid trace ≡ true
    → IsPriced price'
    → IsSeatEvent (held_event h event_id trace occurred price price')
unfolding held_event conforms seat_exchange utf16_length
held_event-IsSeatEvent h event_id trace occurred price none u p = (rw u refl, refl)
held_event-IsSeatEvent h event_id trace occurred price (some x) u p = (rw (u, p) refl, refl)

pub released_event-IsSeatEvent :
    (seat : ℕ) (reason : ReleaseReason) (event_id : ℕ) (trace : TraceId) (occurred : ℕ)
    → is_uuid trace ≡ true
    → known_reason reason ≡ true
    → IsSeatEvent (released_event seat reason event_id trace occurred)
unfolding released_event conforms seat_exchange
released_event-IsSeatEvent seat reason event_id trace occurred u known = (rw (u, known) refl, refl)

reserved_event-IsSeatEvent :
    (hold_id : ℕ) (h : HoldRow) (event_id : ℕ) (trace : TraceId) (occurred : ℕ)
    → is_uuid trace ≡ true
    → IsSeatEvent (reserved_event hold_id h event_id trace occurred)
unfolding reserved_event conforms seat_exchange
reserved_event-IsSeatEvent hold_id h event_id trace occurred u = (u, refl)

module _ {ps : List (ℕ × ℕ × String)} where
  lookup_price-IsPriced : (seat : ℕ) (d : Db) → IsWired ps d → IsPriced (lookup_price seat d)
  unfolding lookup_price
  lookup_price-IsPriced seat d v =
      elim (Option-cases (first_row (select (λ s. s.id == seat) d.seats))) [
        | inl missing ↦ rw missing tt
        | inr (s, found) ↦ rw found (
            All-first_row (λ s. (utf16_length s.currency == 3) ≡ true) (λ s. s.id == seat) d.seats
              v.currencies found)
      ]

  insert_and_announce-Ensures :
      (row : HoldRow) (event_id : ℕ) (trace : TraceId) (clock : Clock)
      → is_uuid trace ≡ true
      → Ensures (IsWired ps) Any (insert_and_announce row event_id trace clock)
  unfolding insert_and_announce
  insert_and_announce-Ensures row event_id trace clock u =
      bind-Ensures (IsWired ps) Any Any _ _
        (query-Ensures (IsWired ps) Any (insert_row row) (insert_row-IsWired row))
        (λ h k.
          bind-Ensures (IsWired ps) Any Any _ _
            (exec-Ensures _ (mark_seat-IsWired SeatStatus.held row.seat_id))
            (λ t k'. bind-Ensures (IsWired ps) IsPriced Any _ _ price (λ p q.
              bind-Ensures (IsWired ps) IsPriced Any _ _ price (λ p' q'.
                bind-Ensures (IsWired ps) Any Any _ _
                  (exec-Ensures _ (λ d.
                    emit-IsWired h.id _ _ clock.now d
                      (held_event-IsSeatEvent h event_id trace clock.occurred p p' u q')))
                  (λ t' k''. pure-Ensures (IsWired ps) Any _ tt)))))
    where
      price : Ensures (IsWired ps) IsPriced (query (λ d. rows (lookup_price row.seat_id d) d))
      price =
          query-Ensures (IsWired ps) IsPriced (λ d. rows (lookup_price row.seat_id d) d)
            (λ d v. (v, lookup_price-IsPriced row.seat_id d v))

  conflict_of-Ensures : (e : Exn) → Ensures (IsWired ps) Any (conflict_of e)
  unfolding conflict_of
  conflict_of-Ensures (unique_violation uniq_active_hold_per_user) =
      pure-Ensures (IsWired ps) Any _ tt
  conflict_of-Ensures (unique_violation uniq_active_hold_per_seat) =
      pure-Ensures (IsWired ps) Any _ tt
  conflict_of-Ensures (unique_violation primary_key) = pure-Ensures (IsWired ps) Any _ tt
  conflict_of-Ensures (unique_violation idempotency_key) = pure-Ensures (IsWired ps) Any _ tt
  conflict_of-Ensures (unique_violation email_key) = pure-Ensures (IsWired ps) Any _ tt
  conflict_of-Ensures (unique_violation token_hash_key) = pure-Ensures (IsWired ps) Any _ tt
  conflict_of-Ensures foreign_key_violation = throw-Ensures (IsWired ps) Any _
  conflict_of-Ensures rt_not_found = throw-Ensures (IsWired ps) Any _
  conflict_of-Ensures argon2_rejected = throw-Ensures (IsWired ps) Any _
  conflict_of-Ensures connection_lost = throw-Ensures (IsWired ps) Any _

  update_holds-Ensures :
      (p : HoldRow → Bool) (f : HoldRow → HoldRow)
      → Ensures (IsWired ps) Any (exec (update_holds p f))
  update_holds-Ensures p f =
      exec-Ensures (update_holds p f) (λ d. same-IsWired d (update_holds p f d) refl refl)

  pub insert_hold_tx-IsWired :
      (ttl seat user : ℕ) (trace : TraceId) (hold_id event_id : ℕ) (clock : Clock) (l : Link)
      (d : Db)
      → is_uuid trace ≡ true
      → IsWired ps d
      → IsWired ps (insert_hold_tx ttl seat user trace hold_id event_id clock l d).1
  unfolding insert_hold_tx insert_hold_body
  insert_hold_tx-IsWired ttl seat user trace hold_id event_id clock l d u =
      run_tx-keeps (IsWired ps) Any (insert_hold_body ttl seat user trace hold_id event_id clock) l
        d
        (bind-Ensures (IsWired ps) Any Any _ _
          (update_holds-Ensures (expired_on seat clock.now) (released_row clock.now))
          (λ t k.
            catching-Ensures (IsWired ps) Any _ conflict_of
              (insert_and_announce-Ensures _ event_id trace clock u) conflict_of-Ensures))

  returning-Ensures :
      (p : HoldRow → Bool) (f : HoldRow → HoldRow) → Ensures (IsWired ps) Any (returning p f)
  returning-Ensures p f =
      query-Ensures (IsWired ps) Any (λ x. rows (first_row (select p x.holds)) (update_holds p f x))
        (λ d v. (same-IsWired d (update_holds p f d) refl refl v, tt))

  release_found-Ensures :
      (hold_id : ℕ) (reason : ReleaseReason) (trace : TraceId) (event_id : ℕ) (clock : Clock)
      (found : Option HoldRow)
      → is_uuid trace ≡ true
      → known_reason reason ≡ true
      → Ensures (IsWired ps) Any (release_found hold_id reason trace event_id clock found)
  unfolding release_found
  release_found-Ensures hold_id reason trace event_id clock none u known =
      pure-Ensures (IsWired ps) Any _ tt
  release_found-Ensures hold_id reason trace event_id clock (some h) u known =
      bind-Ensures (IsWired ps) Any Any _ _
        (exec-Ensures (free_seat h.seat_id) (free_seat-IsWired h.seat_id))
        (λ t k.
          bind-Ensures (IsWired ps) Any Any _ _
            (exec-Ensures _ (λ d.
              emit-IsWired hold_id _ _ clock.now d (
                released_event-IsSeatEvent h.seat_id reason event_id trace clock.occurred u known)))
            (λ t' k'. pure-Ensures (IsWired ps) Any _ tt))

  pub release_hold-IsWired :
      (hold_id : ℕ) (reason : ReleaseReason) (trace : TraceId) (event_id : ℕ) (clock : Clock)
      (l : Link) (d : Db)
      → is_uuid trace ≡ true
      → known_reason reason ≡ true
      → IsWired ps d
      → IsWired ps (release_hold hold_id reason trace event_id clock l d).1
  unfolding release_hold release_hold_body
  release_hold-IsWired hold_id reason trace event_id clock l d u known =
      run_tx-keeps (IsWired ps) Any (release_hold_body hold_id reason trace event_id clock) l d (
        bind-Ensures (IsWired ps) Any Any _ _
          (returning-Ensures (active_id hold_id) (released_row clock.now))
          (λ found k. release_found-Ensures hold_id reason trace event_id clock found u known))

  reserve_found-Ensures :
      (hold_id : ℕ) (trace : TraceId) (out_id : ℕ) (clock : Clock) (found : Option HoldRow)
      → is_uuid trace ≡ true
      → Ensures (IsWired ps) Any (reserve_found hold_id trace out_id clock found)
  unfolding reserve_found
  reserve_found-Ensures hold_id trace out_id clock none u = pure-Ensures (IsWired ps) Any _ tt
  reserve_found-Ensures hold_id trace out_id clock (some h) u =
      bind-Ensures (IsWired ps) Any Any _ _
        (exec-Ensures (mark_seat SeatStatus.reserved h.seat_id)
          (mark_seat-IsWired SeatStatus.reserved h.seat_id))
        (λ t k.
          bind-Ensures (IsWired ps) Any Any _ _
            (exec-Ensures _ (λ d.
              emit-IsWired hold_id _ _ clock.now d
                (reserved_event-IsSeatEvent hold_id h out_id trace clock.occurred u)))
            (λ t' k'. pure-Ensures (IsWired ps) Any _ tt))

  reserve_fresh-Ensures :
      (hold_id : ℕ) (trace : TraceId) (out_id : ℕ) (clock : Clock) (is_new : Bool)
      → is_uuid trace ≡ true
      → Ensures (IsWired ps) Any (reserve_fresh hold_id trace out_id clock is_new)
  unfolding reserve_fresh
  reserve_fresh-Ensures hold_id trace out_id clock false u = pure-Ensures (IsWired ps) Any _ tt
  reserve_fresh-Ensures hold_id trace out_id clock true u =
      bind-Ensures (IsWired ps) Any Any _ _
        (returning-Ensures (active_id hold_id) (reserved_row clock.now))
        (λ found k. reserve_found-Ensures hold_id trace out_id clock found u)

  consume_event-Ensures :
      (event_id group : ℕ) → Ensures (IsWired ps) Any (query (consume_event event_id group))
  consume_event-Ensures event_id group =
      query-Ensures (IsWired ps) Any (consume_event event_id group) (λ d v.
        elim (Bool-cases (exists_where (consumed_by event_id group) d.consumed_events)) [
          | inl old ↦ rw old (v, tt)
          | inr new ↦ rw new (
            record { prices = v.prices; currencies = v.currencies; rows_typed = v.rows_typed },
            tt,
          )
        ])

  pub reserve_hold-IsWired :
      (hold_id event_id group : ℕ) (trace : TraceId) (out_id : ℕ) (clock : Clock) (l : Link)
      (d : Db)
      → is_uuid trace ≡ true
      → IsWired ps d
      → IsWired ps (reserve_hold hold_id event_id group trace out_id clock l d).1
  unfolding reserve_hold reserve_hold_body
  reserve_hold-IsWired hold_id event_id group trace out_id clock l d u =
      run_tx-keeps (IsWired ps) Any (reserve_hold_body hold_id event_id group trace out_id clock) l
        d
        (bind-Ensures (IsWired ps) Any Any _ _ (consume_event-Ensures event_id group)
          (λ is_new k. reserve_fresh-Ensures hold_id trace out_id clock is_new u))
