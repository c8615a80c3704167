-- ===== src/Seat/Tests/Wires.antt =====
-- The rows that a hold, a message that is no event, and a sweep leave in the outbox.
use technical_assignment.Seat.Tests.{empty_db, at_time, ann}
use technical_assignment.Contracts.{utf16_length, uuid, other_text, garbage}
use technical_assignment.Seat.Controller.{Env, hold}
use technical_assignment.Seat.Consumer.{on_message}
use technical_assignment.Seat.Sweeper.{tick}
use technical_assignment.Seat.Db.{Db}
use technical_assignment.Seat.Typed.{IsWired}
use technical_assignment.Seat.Holds.{insert_hold_tx}
use technical_assignment.Seat.Wire.{here, next, holds, consumes, sweeps, outbox_typed}
use Prim.Native.String.{String}
use technical_assignment.Common.{List, ◌∷◌, [], some, steady, false, refl, length, ◌≡◌, ℕ}

abbrev env : Env
env = record { hold_ttl_seconds = 600; retry_after_seconds = 5 }

-- The client's trace is no UUID.
abbrev after_hold : Db
after_hold =
    (hold env 1 ann (some (other_text 3)) 50 100 200 (at_time 1000) steady steady empty_db).db

abbrev after_message : Db
after_message = (on_message 300 (at_time 2000) steady after_hold (some (garbage 1))).db

abbrev after_sweep : Db
after_sweep = (tick 10 (λ i. false) (uuid 60) (λ i. 400) (at_time 700000) steady after_message).1

two_rows : length after_sweep.outbox.entries ≡ 2
unfolding hold insert_hold_tx on_message tick
two_rows = refl

abbrev prices : List (ℕ × ℕ × String)
prices = (1, 5000, "USD") ∷ (2, 7000, "USD") ∷ []

empty_db-IsWired : IsWired prices empty_db
unfolding utf16_length
empty_db-IsWired = record { prices = refl; currencies = (refl, (refl, tt)); rows_typed = tt }

outbox_typed_example : IsWired prices after_sweep
outbox_typed_example =
    outbox_typed
      (next
        (next
          (next here
            (holds env 1 ann (some (other_text 3)) 50 100 200 (at_time 1000) steady steady))
          (consumes 300 (at_time 2000) steady (some (garbage 1))))
        (sweeps 10 (λ i. false) 60 (λ i. 400) (at_time 700000) steady))
      empty_db-IsWired
