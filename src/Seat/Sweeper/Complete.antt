-- ===== src/Seat/Sweeper/Complete.antt =====
-- A sweep that is given enough room misses no hold.
use technical_assignment.Seat.Sweeper.Batch.{tick_outcome, holds-swept, chosen}
use technical_assignment.Seat.Holds.{Clock}
use technical_assignment.Contracts.{TraceId}
use technical_assignment.Seat.Sweeper.{run_out, Clock, tick, in_batch, release_batch}
use technical_assignment.Seat.Db.{HoldRow, Db, released_row}
use technical_assignment.Common.{
  ℕ, Bool, List, length, All, select, ◌≤◌, ◌≡◌, ◌&&◌, false, count_where, not, take, ◌⊎◌,
  exists_where, ◌∷◌, arith, steady, true, [], suc, update_where, ap, refl, zero, Bool-cases, inl,
  inr, ==_refl, length-select,
}

-- A hold that has run out and that no other transaction has locked.
abbrev pub is_due : (ℕ → Bool) → ℕ → HoldRow → Bool
is_due locked now h = run_out now h && not (locked h.id)

module _ {A : Type 0} where
  take-length : (n : ℕ) (xs : List A) → length xs ≤ n → take n xs ≡ xs
  take-length zero [] h = refl
  take-length zero (x ∷ xs) h = absurd (omega (arith, h))
  take-length (suc n) [] h = refl
  take-length (suc n) (x ∷ xs) h = ap (λ r. x ∷ r) (take-length n xs (omega (arith, h)))

-- A row that is not selected, or is in a batch.
abbrev Taken : (HoldRow → Bool) → List HoldRow → HoldRow → Type 0
Taken p bs x = (p x ≡ false) ⊎ (in_batch bs x ≡ true)

-- Every selected row is in a batch that has the selected rows.
select-Taken :
    (p : HoldRow → Bool) (bs xs : List HoldRow)
    → ((x : HoldRow) → in_batch (select p xs) x ≡ true → in_batch bs x ≡ true)
    → All (Taken p bs) xs
select-Taken p bs [] h = tt
select-Taken p bs (x ∷ xs) h = (
  elim (Bool-cases (p x)) [
    | inl hit ↦ inr (h x (ground (arith, hit, ==_refl x.id)))
    | inr miss ↦ inl miss
  ],
  select-Taken p bs xs (λ y k. h y (ground (arith, k))),
)

-- Releasing a batch that has all the due holds leaves none that is due.
none_due_after :
    (locked : ℕ → Bool) (now : ℕ) (bs xs : List HoldRow)
    → All (Taken (is_due locked now) bs) xs
    → exists_where (is_due locked now) (update_where (in_batch bs) (released_row now) xs) ≡ false
none_due_after locked now bs [] h = refl
none_due_after locked now bs (x ∷ xs) h = ground (arith, h.0, none_due_after locked now bs xs h.1)

-- On a steady connection, a tick whose batch limit is at least the number of the holds that have run
-- out and are not locked leaves no such hold active.
pub tick_complete :
    (limit : ℕ) (locked : ℕ → Bool) (trace : TraceId) (fresh : ℕ → ℕ) (clock : Clock) (d : Db)
    → count_where (is_due locked clock.now) d.holds ≤ limit
    → exists_where (is_due locked clock.now) (tick limit locked trace fresh clock steady d).1.holds
      ≡ false
tick_complete limit locked trace fresh clock d room =
    let p = is_due locked clock.now in
    let whole : take limit (select p d.holds) ≡ select p d.holds =
      take-length limit (select p d.holds) (rw (length-select p d.holds) room) in
    rw
      (
        tick_outcome limit locked trace fresh clock d,
        holds-swept trace fresh clock 0
            (select (in_batch (chosen limit locked trace fresh clock d)) d.holds)
            (release_batch (chosen limit locked trace fresh clock d) clock.now d),
        whole,
      )
      (none_due_after locked clock.now (select p d.holds) d.holds
        (select-Taken p (select p d.holds) d.holds (λ x k. k)))
