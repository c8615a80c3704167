-- ===== src/Rabbit/Connection/Stuck.antt =====
-- How long the service tries to connect, and what a failed attempt leaves behind.
use technical_assignment.Common.{refl, ℕ, ◌≡◌, Bool, ◌≤◌, true, arith, false, Bool-cases, inl, inr}
use technical_assignment.Rabbit.Connection.{
  out_of_fuel, dial, Dialled, connected, gave_up, do_connect, connect, publish, Weather, init,
  threw, after_dial,
}

-- How the loop may end after `waited` milliseconds and before its eleventh round.
abbrev pub EndsWell : (ℕ → Bool) → Dialled → Type 0
EndsWell answers (connected n t) = (answers n ≡ true) × (1 ≤ n) × (n ≤ 10) × (t ≤ 90000)
EndsWell answers (gave_up n t) = (n ≡ 10) × (t ≡ 90000)
EndsWell answers out_of_fuel = ⊥

-- The loop ends, however the broker answers: with a connection that the broker has given, after ten
-- attempts and ninety seconds of waiting at most, or after exactly that many with the error.
pub dial_ends : (answers : ℕ → Bool) → EndsWell answers (dial 10 answers 1 0)
unfolding dial
dial_ends answers = ground arith

-- When the first call of `connect` leaves no confirm channel, since the loop gave up or the channel
-- did not open, the service never publishes again: every later call of `publish` throws and leaves
-- the service as it is, whatever the broker then does.
pub stuck_after_failure :
    (w w' : Weather) (confirms : Bool)
    → (connect w init).1.pub_channel ≡ false
    → publish w' confirms (connect w init).1 ≡ (threw, (connect w init).1)
unfolding do_connect connect publish
stuck_after_failure w w' confirms failed = from (dial 10 w.answers 1 0) (dial_ends w.answers) failed
  where
    from :
        (x : Dialled)
        → EndsWell w.answers x
        → (after_dial w init x).1.pub_channel ≡ false
        → publish w' confirms (after_dial w init x).1 ≡ (threw, (after_dial w init x).1)
    from (connected n t) ends bad = elim (Bool-cases w.opens) [
      | inl opened ↦ absurd (ground (arith, bad, opened))
      | inr closed ↦ rw closed refl
    ]
    from (gave_up n t) ends bad = refl
    from out_of_fuel ends bad = absurd ends
