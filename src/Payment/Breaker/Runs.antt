-- ===== src/Payment/Breaker/Runs.antt =====
-- The circuit breaker over any interleaving of the starts and ends of calls.
use technical_assignment.Common.{
  Option-cases, inl, inr, ℕ, suc, ◌+◌, ◌*◌, ◌≤◌, ◌<◌, ◌≡◌, Bool, true, false, Option, none, some,
  List, [], ◌∷◌, arith, ltb,
}
use technical_assignment.Payment.Breaker.{
  State, closed, open_circuit, half_open, Breaker, Env, enter, Call, with_timeout, leave, exec,
}

pub data Event : Type 0 where
  starts : (now : ℕ) → Event
  succeeds : (now : ℕ) → Event
  fails : (now : ℕ) → Event

abbrev or_same : Option Breaker → Breaker → Breaker
or_same none b = b
or_same (some b') b = b'

unfoldable pub step : Env → Breaker → Event → Breaker
unfolding enter leave
step env b (starts now) = or_same (enter env now b) b
step env b (succeeds now) = leave {A = Unit {0}} env now (some tt) b
step env b (fails now) = leave {A = Unit {0}} env now none b

unfoldable pub run : Env → List Event → Breaker → Breaker
unfolding step
run env [] b = b
run env (e ∷ es) b = run env es (step env b e)

abbrev is_closed : State → Bool
is_closed closed = true
is_closed open_circuit = false
is_closed half_open = false

-- How many calls have failed since the last that succeeded, where `n` had before these events.
unfoldable pub failures_since : List Event → (n : ℕ) → ℕ
failures_since [] n = n
failures_since (starts now ∷ es) n = failures_since es n
failures_since (succeeds now ∷ es) n = failures_since es 0
failures_since (fails now ∷ es) n = failures_since es (suc n)

-- After `n` failures since the last success, the breaker has counted them, and it is closed exactly
-- while they are too few.
abbrev pub CountsFailures : Env → ℕ → Breaker → Type 0
CountsFailures env n b =
    (b.failures ≡ n) × (is_closed b.state ≡ ltb (n * 2) env.psp_cb_error_threshold)

-- While the circuit is open and the reset time has not passed, a call is refused at once: nothing
-- is called, whatever the provider would have said, and the breaker stays as it is.
pub exec_open :
    {A : Type 0} (env : Env) (now now' : ℕ) (call : Call A) (b : Breaker)
    → b.state ≡ open_circuit
    → now ≤ b.opened_at + env.psp_cb_reset_ms
    → exec env now now' call b ≡ (none, b)
unfolding exec enter
exec_open env now now' call b is_open early = ground arith

-- What a probe makes of the breaker.
abbrev probed : {A : Type 0} → ℕ → Breaker → Option A → Breaker
probed now' b none = record { state = open_circuit; failures = suc b.failures; opened_at = now' }
probed now' b (some a) = record { state = closed; failures = 0; opened_at = b.opened_at }

-- Once the reset time has passed, an open circuit that has reached its threshold lets one call
-- through: if it fails or is too slow the circuit is open again from then on, and if it answers in
-- time the circuit is closed with no failure counted.
pub exec_probe :
    {A : Type 0} (env : Env) (now now' : ℕ) (call : Call A) (b : Breaker)
    → b.state ≡ open_circuit
    → env.psp_cb_error_threshold ≤ b.failures * 2
    → b.opened_at + env.psp_cb_reset_ms < now
    → exec env now now' call b
      ≡ (with_timeout env.psp_timeout_ms call, probed now' b (with_timeout env.psp_timeout_ms call))
unfolding exec enter leave
exec_probe env now now' call b is_open spent late =
    elim (Option-cases (with_timeout env.psp_timeout_ms call)) [
      | inl e ↦ rw e (ground arith)
      | inr (a, e) ↦ rw e (ground arith)
    ]
