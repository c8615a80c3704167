-- ===== src/Workers/Overlap.antt =====
-- Whether two ticks of one worker are under way at once.
use technical_assignment.Workers.{
  Worker, idle, Event, starts, fires, settles, destroys, begin_tick, end_tick, step, run,
}
use technical_assignment.Common.{
  ℕ, zero, suc, ◌≤◌, ◌≡◌, refl, true, false, List, [], ◌∷◌, sym, ◌∙◌, one_if, arith,
}

-- The flag is set exactly while a tick is under way.
abbrev IsGuarded : Worker → Type 0
IsGuarded w = w.under_way ≡ one_if w.running

step-IsGuarded : (e : Event) (w : Worker) → IsGuarded w → IsGuarded (step begin_tick e w)
unfolding step begin_tick end_tick
step-IsGuarded starts w h = h
step-IsGuarded fires w h = ground (arith, h)
step-IsGuarded settles w h = ended w.under_way refl
  where
    ended : (n : ℕ) → w.under_way ≡ n → IsGuarded (end_tick w)
    ended zero e = rw e (sym e ∙ h)
    ended (suc n) e = rw e (ground (arith, h, e))
step-IsGuarded destroys w h = h

run-IsGuarded : (es : List Event) (w : Worker) → IsGuarded w → IsGuarded (run begin_tick es w)
unfolding run
run-IsGuarded [] w h = h
run-IsGuarded (e ∷ es) w h = run-IsGuarded es (step begin_tick e w) (step-IsGuarded e w h)

-- Whatever happens to a worker with a flag, from its creation on, at most one of its ticks is under
-- way; where its interval is set and none is, the next firing begins one, so that a tick that threw
-- does not stop the worker; and where its interval is not set, a firing does nothing.
pub one_tick_at_a_time :
    (es : List Event)
    → let w = run begin_tick es idle in
      (w.under_way ≤ 1)
      × (w.timer ≡ true → w.under_way ≡ 0 → (step begin_tick fires w).under_way ≡ 1)
      × (w.timer ≡ false → step begin_tick fires w ≡ w)
unfolding step begin_tick
one_tick_at_a_time es =
    let w = run begin_tick es idle in
    let h = run-IsGuarded es idle refl in
    (ground (arith, h), λ set none_now. ground (arith, h, set, none_now), λ unset. rw unset refl)
