-- ===== src/Seeds/Prices.antt =====
-- That the payment service charges what the seat service shows.
use Prim.Native.String.{String}
use technical_assignment.Seat.Db.{SeatRow}
use technical_assignment.Seat.Db.{Db as SeatDb}
use technical_assignment.Payment.Db.{SeatPrice, PaymentIntentRow}
use technical_assignment.Payment.Db.{Db as PaymentDb}
use technical_assignment.Seat.Typed.{IsWired, priced}
use technical_assignment.Seat.Wire.{Runs, outbox_typed}
use technical_assignment.Seat.Holds.{lookup_price}
use technical_assignment.Payment.Charges.{Charges, IsCharged, IsPricedBy}
use technical_assignment.Payment.Charges.Amounts.{Charges-IsCharged}
use technical_assignment.Common.{
  ℕ, some, List, [], ◌∷◌, ◌≡◌, refl, ap, ◌∙◌, ◌==◌, map, All, All-map, select, first_row,
  Bool-cases, inl, inr, arith,
}

abbrev pub price_key : SeatPrice → ℕ × ℕ × String
price_key p = (p.seat_id, p.price_cents, p.currency)

-- The seat of a price, in two tables that say the same.
seat_of_price :
    (k : ℕ) (xs : List SeatRow) (ps : List SeatPrice) {p : SeatPrice}
    → map priced xs ≡ map price_key ps
    → first_row (select (λ q. q.seat_id == k) ps) ≡ some p
    → (s : SeatRow) × (first_row (select (λ s. s.id == k) xs) ≡ some s)
      × (s.price_cents ≡ p.price_cents)
      × (s.currency ≡ p.currency)
seat_of_price k [] [] same found = absurd (cc)
seat_of_price k [] (q ∷ ps) same found = absurd (cc)
seat_of_price k (x ∷ xs) [] same found = absurd (cc)
seat_of_price k (x ∷ xs) (q ∷ ps) {p} same found =
    let head : priced x ≡ price_key q = cc in
    let tail : map priced xs ≡ map price_key ps = cc in
    let id : x.id ≡ q.seat_id = ap (λ t. t.0) head in
    elim (Bool-cases (q.seat_id == k)) [
      | inl hit ↦
          let is : q ≡ p = ground (arith, found, hit) in
          (
            x,
            rw (id, hit) refl,
            ap (λ t. t.1) head ∙ ap (λ (y : SeatPrice). y.price_cents) is,
            ap (λ t. t.2) head ∙ ap (λ (y : SeatPrice). y.currency) is,
          )
      | inr other ↦
          let (s, at, cents, currency) = seat_of_price k xs ps tail (rw other at found) in
          (s, rw (id, other) at, cents, currency)
    ]

-- Where to begin with the tables of the two services agree on the prices of the seats, the currencies
-- have three code units, the outbox of the seat service is typed and each payment intent is for the
-- amount and the currency that the payment service has for its seat, then after any work of the two
-- services, whole checkouts that overlap among it, every payment intent is for the price and the
-- currency that the seat service has for its seat, whatever happens to the connections in between.
pub charged_as_shown :
    {ps : List SeatPrice} {d e : SeatDb} {p q : PaymentDb}
    → Runs d e
    → Charges p q
    → IsWired (map price_key ps) d
    → IsCharged ps p
    → All
        (λ i.
          lookup_price i.seat_id e
          ≡ some (record { price_cents = i.amount_cents; currency = i.currency }))
        q.intents
unfolding lookup_price
charged_as_shown {ps} {e = e} {q = q} r c wired charged =
    All-map (IsPricedBy ps) _ q.intents (λ i h. shown i h) (Charges-IsCharged c charged).amounts
  where
    shown :
        (i : PaymentIntentRow)
        → IsPricedBy ps i
        → lookup_price i.seat_id e
          ≡ some (record { price_cents = i.amount_cents; currency = i.currency })
    shown i (p, found, cents, currency) =
        let (s, at, cents', currency') =
          seat_of_price i.seat_id e.seats ps (outbox_typed r wired).prices found in
        rw (at, cents, currency, cents', currency') refl
