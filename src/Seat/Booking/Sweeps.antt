-- ===== src/Seat/Booking/Sweeps.antt =====
-- The sweeper against the promise.
use technical_assignment.Common.Robust.{LostOrSteady-keeps}
use technical_assignment.Seat.Sweeper.{tick, in_batch, release_batch, run_out}
use technical_assignment.Seat.Booking.Grants.{holder-ended}
use technical_assignment.Seat.Sweeper.Batch.{swept, chosen, tick_atomic, holds-swept, tick_outcome}
use technical_assignment.Seat.Consistent.{IsConsistent, with_id}
use technical_assignment.Seat.Db.{Db, HoldRow, released_row, active_on}
use technical_assignment.Seat.Holds.{Clock}
use technical_assignment.Contracts.{TraceId}
use technical_assignment.Common.{
  ℕ, ◌≡◌, refl, inl, inr, Option-cases, Bool, List, Option, Link, update_where, false, true, some,
  select, none, exists_where-take, arith, ◌<◌, ◌&&◌, not, exists_where, exists_where-select,
  count_where, ◌+◌, ==_refl, ◌≤◌, All, ◌||◌, ◌∷◌, All-map, All-first_row, [],
  count_where-update_where-All, exists_where-mono-false, count_where-exists_false,
}
use technical_assignment.Seat.Booking.{
  view, Change, passes, Db, holder, HoldRow, Booking, booking, stays, sold_on, active_on, lapse,
}

-- Where ids are keys, a row whose id is that of a good row is good.
same_id :
    (r : HoldRow → Bool) (before rest : List HoldRow)
    → ((i : ℕ) → count_where (with_id i) before + count_where (with_id i) rest ≤ 1)
    → All
        (λ x.
          (exists_where (λ b. r b && with_id x.id b) before
              || exists_where (λ b. r b && with_id x.id b) rest)
            ≡ true
          → r x ≡ true)
        rest
same_id r before [] ids = tt
same_id r before (x ∷ rest) ids = (
  λ e. ground (
    arith,
    e,
    exists_where-mono-false (λ b. r b && with_id x.id b) (with_id x.id) before
        (λ b k. ground (arith, k))
        (count_where-exists_false (with_id x.id) before (ground (arith, ids x.id, ==_refl x.id))),
    exists_where-mono-false (λ b. r b && with_id x.id b) (with_id x.id) rest
        (λ b k. ground (arith, k))
        (count_where-exists_false (with_id x.id) rest (ground (arith, ids x.id, ==_refl x.id))),
  ),
  All-map _ _ rest (λ y h e. h (ground (arith, e)))
      (same_id r (x ∷ before) rest (λ i. ground (arith, ids i))),
)

module _ (limit : ℕ) (locked : ℕ → Bool) (trace : TraceId) (fresh : ℕ → ℕ) (clock : Clock) (d : Db)
    (v : IsConsistent d) where
  abbrev picked : List HoldRow
  picked = chosen limit locked trace fresh clock d

  abbrev taken : Option HoldRow → Bool
  taken none = false
  taken (some h) = in_batch picked h

  abbrev is_picked : HoldRow → Bool
  is_picked x = run_out clock.now x && not (locked x.id)

  -- Only holds that have run out are picked.
  picked_ran_out : All (λ x. in_batch picked x ≡ true → run_out clock.now x ≡ true) d.holds
  picked_ran_out =
      All-map _ _ d.holds
        (λ x h e. picked_is x (
          h (
            rw (← exists_where-select (with_id x.id) is_picked d.holds)
              (exists_where-take (with_id x.id) limit (select is_picked d.holds) e))))
        (same_id is_picked [] d.holds (λ i. omega (arith, v.ids i)))
    where
      picked_is : (x : HoldRow) → is_picked x ≡ true → run_out clock.now x ≡ true
      picked_is x e = ground (arith, e)

  abbrev swept_db : Db
  swept_db =
      swept trace fresh clock 0 (select (in_batch picked) d.holds)
        (release_batch picked clock.now d)

  same_holds : swept_db.holds ≡ update_where (in_batch picked) (released_row clock.now) d.holds
  same_holds =
      holds-swept trace fresh clock 0 (select (in_batch picked) d.holds)
        (release_batch picked clock.now d)

  gone_ran_out :
      (s : ℕ)
      → taken (holder s d) ≡ true
      → (k : Booking) × (booking (holder s d) ≡ some k) × (k.held_until < clock.now)
  gone_ran_out s = elim (Option-cases (holder s d)) [
    | inl e ↦ rw e (λ k. absurd (ground (arith, k)))
    | inr (h, e) ↦ rw e (λ k. (
      record { hold_id = h.id; user_id = h.user_id; held_until = h.held_until },
      refl,
      ground (arith, All-first_row _ (active_on s) d.holds picked_ran_out e k),
    ))
  ]

  swept-Change : Change (view d) (view swept_db) (passes clock.now)
  swept-Change =
      lapse clock.now (λ s. taken (holder s d)) gone_ran_out
        (λ s.
          rw (same_holds, holder-ended d (in_batch picked) (released_row clock.now) s v (λ x. refl))
            (elim (Option-cases (holder s d)) [
              | inl e ↦ rw e refl
              | inr (h, e) ↦ rw e (ground arith)
            ]))
        (λ s. rw same_holds (
          count_where-update_where-All (sold_on s) (in_batch picked) (released_row clock.now)
            d.holds (All-map _ _ d.holds (λ x h e. ground (arith, h e)) picked_ran_out)))

  pub tick-Change :
      (l : Link)
      → Change (view d) (view (tick limit locked trace fresh clock l d).1) (passes clock.now)
  tick-Change l =
      LostOrSteady-keeps (λ e. Change (view d) (view e) (passes clock.now)) _ _ d
        (tick_atomic limit locked trace fresh clock d l) (stays refl)
        (rw (tick_outcome limit locked trace fresh clock d) swept-Change)
