-- ===== src/Seat/Typed.antt =====
-- The events that the seat service puts in its outbox, as the contracts would have them.
use Prim.Native.String.{String}
use technical_assignment.Common.Hoare.{Ensures, GoodAnswer, query-Ensures}
use technical_assignment.Contracts.{
  utf16_length, AnyEvent, conforms, schema, parse, seat_exchange, seat_events, json,
}
use technical_assignment.Outbox.{Headers, OutboxRow}
use technical_assignment.Seat.Db.{
  Db, HoldRow, SeatStatus, active_on, active_by, with_status, mark_seat, free_seat, insert_row,
  SeatRow,
}
use technical_assignment.Seat.Holds.{emit, exec}
use technical_assignment.Common.{
  ◌∷◌, ℕ, ◌≡◌, refl, true, some, ◌==◌, Bool-cases, inl, inr, All, All-append, All-update_where,
  exists_where, rows, List, map, ◌∙◌, Bool, update_where, [],
}

-- A row is of the type of its payload, a consumer that parses the payload gets it back, and the
-- worker publishes it to the exchange of the seat events.
pub record IsTyped (r : OutboxRow) : Type 0 where
  pub type_matches : r.event_type ≡ schema r.payload
  pub parses : parse (json r.payload) ≡ some r.payload
  pub exchange : seat_exchange r.event_type ≡ seat_events

-- What the table says of a seat and no handler changes.
abbrev pub priced : SeatRow → ℕ × ℕ × String
priced s = (s.id, s.price_cents, s.currency)

-- The seats have these prices, every currency has three code units, and every row of the outbox is
-- typed.
pub record IsWired (ps : List (ℕ × ℕ × String)) (d : Db) : Type 0 where
  pub prices : map priced d.seats ≡ ps
  pub currencies : All (λ s. (utf16_length s.currency == 3) ≡ true) d.seats
  pub rows_typed : All IsTyped d.outbox.entries

abbrev pub Any : {A : Type 0} → A → Type 0
Any a = Unit

-- An event of the seat service that conforms.
abbrev pub IsSeatEvent : AnyEvent → Type 0
IsSeatEvent e = (conforms e ≡ true) × (seat_exchange (schema e) ≡ seat_events)

pub priced-update_where :
    (p : SeatRow → Bool) (st : SeatStatus) (xs : List SeatRow)
    → map priced (update_where p (with_status st) xs) ≡ map priced xs
priced-update_where p st [] = refl
priced-update_where p st (x ∷ xs) =
    rw (priced-update_where p st xs)
      (elim (Bool-cases (p x)) [ inl hit ↦ rw hit refl | inr other ↦ rw other refl ])

module _ {ps : List (ℕ × ℕ × String)} where
  pub emit-IsWired :
      (aggregate : ℕ) (e : AnyEvent) (headers : Headers) (now : ℕ) (d : Db)
      → IsSeatEvent e
      → IsWired ps d
      → IsWired ps (emit aggregate e headers now d)
  emit-IsWired aggregate e headers now d (good, out) v = record {
    prices = v.prices;
    currencies = v.currencies;
    rows_typed =
        All-append IsTyped d.outbox.entries _ v.rows_typed (
          record { type_matches = refl; parses = unfold parse in rw good refl; exchange = out },
          tt,
        );
  }

  pub mark_seat-IsWired :
      (st : SeatStatus) (seat : ℕ) (d : Db) → IsWired ps d → IsWired ps (mark_seat st seat d)
  mark_seat-IsWired st seat d v = record {
    prices = priced-update_where (λ s. s.id == seat) st d.seats ∙ v.prices;
    currencies =
        All-update_where (λ s. (utf16_length s.currency == 3) ≡ true)
          (λ s. (utf16_length s.currency == 3) ≡ true) (λ s. s.id == seat) (with_status st) d.seats
          (λ s h e. h) (λ s h e. h) v.currencies;
    rows_typed = v.rows_typed;
  }

  pub free_seat-IsWired : (seat : ℕ) (d : Db) → IsWired ps d → IsWired ps (free_seat seat d)
  free_seat-IsWired seat d v = elim (Bool-cases (exists_where (active_on seat) d.holds)) [
    | inl taken ↦ rw taken v
    | inr free ↦ rw free (mark_seat-IsWired SeatStatus.available seat d v)
  ]

  -- A change of the other tables.
  pub same-IsWired :
      (d e : Db) → e.seats ≡ d.seats → e.outbox ≡ d.outbox → IsWired ps d → IsWired ps e
  same-IsWired d e s o v = record {
    prices = rw s v.prices;
    currencies = rw s v.currencies;
    rows_typed = rw o v.rows_typed;
  }

  pub exec-Ensures :
      (f : Db → Db)
      → ((d : Db) → IsWired ps d → IsWired ps (f d))
      → Ensures (IsWired ps) Any (exec f)
  exec-Ensures f h = query-Ensures (IsWired ps) Any (λ d. rows tt (f d)) (λ d v. (h d v, tt))

  pub insert_row-IsWired :
      (h : HoldRow) (d : Db) → IsWired ps d → GoodAnswer (IsWired ps) Any (insert_row h d)
  insert_row-IsWired h d v = elim (Bool-cases (exists_where (λ r. r.id == h.id) d.holds)) [
    | inl a ↦ rw a tt
    | inr a ↦ elim (Bool-cases (exists_where (active_on h.seat_id) d.holds)) [
      | inl b ↦ rw (a, b) tt
      | inr b ↦ elim (Bool-cases (exists_where (active_by h.user_id) d.holds)) [
        | inl c ↦ rw (a, b, c) tt
        | inr c ↦ elim (Bool-cases (exists_where (λ s. s.id == h.seat_id) d.seats)) [
          | inl e ↦
              rw (a, b, c, e)
                (
                  record {
                    prices = v.prices;
                    currencies = v.currencies;
                    rows_typed = v.rows_typed;
                  },
                  tt,
                )
          | inr e ↦ rw (a, b, c, e) tt
        ]
      ]
    ]
  ]
