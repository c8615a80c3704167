-- ===== src/Outbox/Tests.antt =====
-- The theorems of the outbox on one waiting event.
use technical_assignment.Outbox.Delivery.{KeptOrSent, tick-KeptOrSent}
use technical_assignment.Contracts.{AnyEvent, uuid}
use technical_assignment.Outbox.Worker.{Attempt, refused, tick}
use technical_assignment.Common.{ℕ, refl, Bool, false, none, ◌∷◌, []}
use technical_assignment.Outbox.{OutboxRow, AnyEvent, new_row}

abbrev event : AnyEvent
event = AnyEvent.seat_reserved (record {
  base = record { event_id = 300; trace_id = uuid 5; occurred_at = 1500 };
  seat_id = 1;
  user_id = 7;
  hold_id = 100;
})

abbrev waiting : OutboxRow
waiting = new_row 1 100 event (record { trace_id = uuid 5; user_id = none; reason = none }) 1000

abbrev unlocked : ℕ → Bool
unlocked i = false

abbrev no_answer : OutboxRow → Attempt
no_answer r = refused 2000

tick-KeptOrSent_example : KeptOrSent 1 (tick false unlocked 2000 no_answer (waiting ∷ []))
tick-KeptOrSent_example = tick-KeptOrSent false unlocked 2000 no_answer (waiting ∷ []) 1 refl
