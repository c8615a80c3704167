-- ===== src/Payment/Breaker.antt =====
-- apps/payment/src/psps/circuit-breaker.ts: `CircuitBreaker.exec` and `withTimeout`. A call is two
-- events, what `exec` does before it awaits and what it does when the call ends, so that calls may
-- overlap.
pub mod Runs
use technical_assignment.Common.{
  ℕ, zero, suc, ◌+◌, ◌-◌, ◌*◌, Bool, true, false, Option, none, some, ltb, leb, if◌then◌else◌,
}

pub data State : Type 0 where
  closed open_circuit half_open : State

pub record Breaker : Type 0 where
  pub state : State
  pub failures : ℕ
  pub opened_at : ℕ

pub record Env : Type 0 where
  pub psp_cb_error_threshold : ℕ
  pub psp_cb_reset_ms : ℕ
  pub psp_timeout_ms : ℕ

abbrev pub init : Breaker
init = record { state = closed; failures = 0; opened_at = 0 }

-- Before the call: `none` is the error 'circuit_open', which changes nothing. The test
-- `Date.now() - this.openedAt > PSP_CB_RESET_MS` is written as a sum.
enter_state : Env → ℕ → Breaker → State → Option Breaker
enter_state env now b open_circuit =
    if ltb (b.opened_at + env.psp_cb_reset_ms) now
    then some (record b { state = half_open })
    else none
enter_state env now b closed = some b
enter_state env now b half_open = some b

unfoldable pub enter : Env → ℕ → Breaker → Option Breaker
unfolding enter_state
enter env now b = enter_state env now b b.state

-- The call, raced against the timer: how long it takes, and whether it resolves or rejects.
pub data Call (A : Type 0) : Type 0 where
  resolves : A → ℕ → Call A
  rejects : ℕ → Call A
  hangs : Call A

-- withTimeout: `none` is a rejection, by the call or by 'psp_timeout'.
unfoldable pub with_timeout : {A : Type 0} → ℕ → Call A → Option A
with_timeout ms (resolves a t) = if ltb t ms then some a else none
with_timeout ms (rejects t) = none
with_timeout ms hangs = none

-- After the call.
unfoldable pub leave : {A : Type 0} → Env → ℕ → Option A → Breaker → Breaker
leave env now (some a) b = record b { failures = 0; state = closed }
leave env now none b =
    if leb env.psp_cb_error_threshold (suc b.failures * 2)
    then record b { failures = suc b.failures; state = open_circuit; opened_at = now }
    else record b { failures = suc b.failures }

exec_entered : {A : Type 0} → Env → ℕ → Call A → Option Breaker → Breaker → Option A × Breaker
unfolding leave with_timeout
exec_entered env now' call none b = (none, b)
exec_entered env now' call (some b') b =
    let r = with_timeout env.psp_timeout_ms call in (r, leave env now' r b')

-- A call with no other in flight: it starts at `now` and ends at `now'`.
unfoldable pub exec : {A : Type 0} → Env → ℕ → ℕ → Call A → Breaker → Option A × Breaker
unfolding enter exec_entered
exec env now now' call b = exec_entered env now' call (enter env now b) b
