-- ===== src/Seat/Bus.antt =====
-- apps/seat-reservation/src/seats/seat-event.bus.ts: the messages on `SeatEventBus`, and the emitter
-- behind it, which is the list of its listeners. A listener is the number of its subscriber.
use technical_assignment.Common.{ℕ, List, [], ◌∷◌, ◌++◌, ◌==◌, not, select}

pub data BusEvent : Type 0 where
  held_now : (seat user until : ℕ) → BusEvent
  released_now : (seat : ℕ) → BusEvent
  reserved_now : (seat user : ℕ) → BusEvent

-- this.emitter.on(this.CHANNEL, listener)
abbrev pub on : ℕ → List ℕ → List ℕ
on n listeners = listeners ++ n ∷ []

-- this.emitter.off(this.CHANNEL, listener). A subscription has a function of its own, which is in
-- the list once.
abbrev pub off : ℕ → List ℕ → List ℕ
off n listeners = select (λ m. not (m == n)) listeners

-- this.emitter.emit(this.CHANNEL, payload), where `call` is what a listener does to the state: each
-- is called, in the order in which they were added.
unfoldable pub emit : {S : Type 0} → (ℕ → S → S) → List ℕ → S → S
emit call [] s = s
emit call (n ∷ ns) s = emit call ns (call n s)
