-- ===== src/Workers.antt =====
-- The life of a background worker: `start`, the flag `running` round `tick`, and `onModuleDestroy` of
-- apps/seat-reservation/src/outbox/outbox.worker.ts, apps/payment/src/outbox/outbox.worker.ts and
-- apps/payment/src/webhooks/webhook-reprocessor.ts; and apps/seat-reservation/src/holds/hold-sweeper.ts,
-- which has no flag. What a tick does is the matter of Outbox, Payment/Webhooks and Seat/Sweeper.
pub mod Overlap
use technical_assignment.Common.{ℕ, zero, suc, Bool, true, false, if◌then◌else◌, List, [], ◌∷◌}

-- Whether the interval is set, the flag, and how many ticks are under way.
pub record Worker : Type 0 where
  pub timer : Bool
  pub running : Bool
  pub under_way : ℕ

abbrev pub idle : Worker
idle = record { timer = false; running = false; under_way = 0 }

-- `start` is called, the interval is over, a tick that is under way ends or throws, or the module is
-- destroyed.
pub data Event : Type 0 where
  starts fires settles destroys : Event

-- tick up to its first await: with the flag set it returns at once.
unfoldable pub begin_tick : Worker → Worker
begin_tick w = if w.running then w else record w { running = true; under_way = suc w.under_way }

-- The sweeper's tick, which asks for no flag.
unfoldable pub begin_sweep : Worker → Worker
begin_sweep w = record w { under_way = suc w.under_way }

-- } finally { this.running = false; }
unfoldable pub end_tick : Worker → Worker
end_tick w = elim w.under_way [ zero ↦ w | suc n ↦ record w { running = false; under_way = n } ]

-- `begin` is the worker's own way to begin a tick.
unfoldable pub step : (Worker → Worker) → Event → Worker → Worker
unfolding end_tick
step begin starts w = record w { timer = true }
step begin fires w = if w.timer then begin w else w
step begin settles w = end_tick w
step begin destroys w = record w { timer = false }

unfoldable pub run : (Worker → Worker) → List Event → Worker → Worker
run begin [] w = w
run begin (e ∷ es) w = run begin es (step begin e w)
