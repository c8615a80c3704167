-- ===== src/Seeds.antt =====
-- scripts/seed.ts, which puts the three seats into the seat database, and
-- apps/payment/src/migrations/20240101000001_seed_seat_prices.sql, which puts their prices into that of
-- the payment service. Ids are numbers.
mod Tests
pub mod Prices
use Prim.Native.String.{String}
use technical_assignment.Seat.Db.{SeatRow, SeatStatus}
use technical_assignment.Seat.Db.{Db as SeatDb}
use technical_assignment.Payment.Db.{SeatPrice}
use technical_assignment.Payment.Db.{Db as PaymentDb}
use technical_assignment.Common.{
  ℕ, Bool, true, false, Option, some, none, List, [], ◌∷◌, ◌++◌, ◌==◌, if◌then◌else◌, exists_where,
  Link, run_query, query, rows, Result, ok, err, leb, ltb, ◌&&◌,
}

abbrev seat : ℕ → String → ℕ → SeatRow
seat id label price_cents = record {
  id = id;
  label = label;
  price_cents = price_cents;
  currency = "USD";
  status = SeatStatus.available;
}

abbrev price : ℕ → String → ℕ → SeatPrice
price id label price_cents = record {
  seat_id = id;
  price_cents = price_cents;
  currency = "USD";
  label = label;
}

abbrev pub demo_seats : List SeatRow
demo_seats = seat 1 "A1" 1900 ∷ seat 2 "A2" 2900 ∷ seat 3 "A3" 3900 ∷ []

abbrev pub demo_prices : List SeatPrice
demo_prices = price 1 "A1" 1900 ∷ price 2 "A2" 2900 ∷ price 3 "A3" 3900 ∷ []

-- INSERT … ON CONFLICT DO NOTHING, row by row: `key` is the column of the primary key.
unfoldable pub insert_missing : {A : Type 0} → (A → ℕ) → List A → List A → List A
insert_missing key [] table = table
insert_missing key (r ∷ rs) table =
    insert_missing key rs
      (if exists_where (λ x. key x == key r) table then table else table ++ r ∷ [])

unfoldable pub seed_seats : SeatDb → SeatDb
seed_seats d = record d { seats = insert_missing (λ s. s.id) demo_seats d.seats }

unfoldable pub seed_prices : PaymentDb → PaymentDb
seed_prices d = record d { seat_prices = insert_missing (λ p. p.seat_id) demo_prices d.seat_prices }

-- What the script says of the demo user before it ends well, or that it ended with code 1.
pub data Ended : Type 0 where
  registered already_exists skipped exit_1 : Ended
  register_failed : (status : ℕ) → Ended

-- The answer to the request to register, or `none` where it is not sent.
unfoldable pub demo_user : Option ℕ → Ended
demo_user none = exit_1
demo_user (some status) =
    if leb 200 status && ltb status 300
    then registered
    else if status == 400
    then already_exists
    else register_failed status

after_seats : Bool → Bool → Option ℕ → Result (Unit {0}) × SeatDb → Ended × SeatDb
unfolding demo_user
after_seats pool_ends wants_user status (err e, d) = (exit_1, d)
after_seats pool_ends wants_user status (ok u, d) =
    (if pool_ends then (if wants_user then demo_user status else skipped) else exit_1, d)

-- main: `pool_ends` says whether the pool is closed without an error, and `wants_user` whether
-- SEED_DEMO_USER is '1'.
unfoldable pub main : Link → Bool → Bool → Option ℕ → SeatDb → Ended × SeatDb
unfolding after_seats
main l pool_ends wants_user status d =
    after_seats pool_ends wants_user status (run_query (query (λ e. rows tt (seed_seats e))) l d)
