-- ===== src/Seat/Stream.antt =====
-- apps/seat-reservation/src/seats/seats.controller.ts: `SeatsController.stream`, over the bus. A
-- subscriber is a number; what it has been sent is the list of the frames, the earliest first.
pub mod Order
use technical_assignment.Seat.Bus.{BusEvent, on, off, emit}
use technical_assignment.Common.{ℕ, List, true, [], Bool, false, if◌then◌else◌, ◌∷◌, ◌==◌, ◌++◌}

-- { type: 'hello', at }, { type: 'ping', at } and what comes over the bus, each under `data`.
pub data Frame : Type 0 where
  hello ping : (at : ℕ) → Frame
  changed : BusEvent → Frame

-- The listeners of the bus, what each subscriber has been sent, and whose interval runs.
pub record Server : Type 0 where
  pub listeners : List ℕ
  pub frames : ℕ → List Frame
  pub beating : ℕ → Bool

abbrev pub start : Server
start = record { listeners = []; frames = λ n. []; beating = λ n. false }

-- subscriber.next(…)
unfoldable pub send : Frame → ℕ → (ℕ → List Frame) → ℕ → List Frame
send x n frames m = if m == n then frames m ++ x ∷ [] else frames m

abbrev set_beating : ℕ → Bool → (ℕ → Bool) → ℕ → Bool
set_beating n b beating m = if m == n then b else beating m

-- A client subscribes, a handler emits on the bus, 25 seconds of a subscriber's interval are over,
-- or a client goes away.
pub data Event : Type 0 where
  subscribes : (n at : ℕ) → Event
  emits : BusEvent → Event
  elapses : (n at : ℕ) → Event
  unsubscribes : (n : ℕ) → Event

unfoldable pub step : Event → Server → Server
step (subscribes n at) s = record {
  listeners = on n s.listeners;
  frames = send (hello at) n s.frames;
  beating = set_beating n true s.beating;
}
step (emits e) s = record s { frames = emit (send (changed e)) s.listeners s.frames }
step (elapses n at) s = record s {
  frames = if s.beating n then send (ping at) n s.frames else s.frames;
}
step (unsubscribes n) s = record s {
  listeners = off n s.listeners;
  beating = set_beating n false s.beating;
}

unfoldable pub run : List Event → Server → Server
run [] s = s
run (e ∷ es) s = run es (step e s)
