-- ===== src/Rabbit/Topology.antt =====
-- The declarations of `RabbitService.doConnect` in the two services, in their order.
use technical_assignment.Common.{List, [], ◌∷◌, none, some}
use technical_assignment.Contracts.{
  key_payment_failed, seat_events, payment_events, key_payment_succeeded, key_seat_released,
}
use technical_assignment.Rabbit.{
  Command, Broker, assert_exchange, plain, dlx, assert_queue, seat_payment_events,
  payment_seat_events, bind_queue, exactly, payment_seat_events_dlq, any_words,
  seat_payment_events_dlq,
}

pub data Service : Type 0 where
  seat_service payment_service : Service

-- apps/seat-reservation/src/events/rabbit.service.ts
unfoldable pub seat_topology : List Command
seat_topology =
    assert_exchange (plain seat_events)
    ∷ assert_exchange (plain payment_events)
    ∷ assert_exchange (dlx payment_events)
    ∷ assert_queue seat_payment_events (some (dlx payment_events))
    ∷ bind_queue seat_payment_events (plain payment_events) (exactly key_payment_succeeded)
    ∷ bind_queue seat_payment_events (plain payment_events) (exactly key_payment_failed)
    ∷ assert_queue seat_payment_events_dlq none
    ∷ bind_queue seat_payment_events_dlq (dlx payment_events) any_words
    ∷ []

-- apps/payment/src/events/rabbit.service.ts
unfoldable pub payment_topology : List Command
payment_topology =
    assert_exchange (plain seat_events)
    ∷ assert_exchange (plain payment_events)
    ∷ assert_exchange (dlx seat_events)
    ∷ assert_queue payment_seat_events (some (dlx seat_events))
    ∷ bind_queue payment_seat_events (plain seat_events) (exactly key_seat_released)
    ∷ assert_queue payment_seat_events_dlq none
    ∷ bind_queue payment_seat_events_dlq (dlx seat_events) any_words
    ∷ []

unfoldable pub topology : Service → List Command
unfolding seat_topology payment_topology
topology seat_service = seat_topology
topology payment_service = payment_topology

module _ (b : Broker) where
  unfoldable pub run_all : List Command → b.State → b.State
  run_all [] s = s
  run_all (c ∷ cs) s = run_all cs (b.run c s)

  -- The broker after these starts of the services, each of which declares its part again.
  unfoldable pub connects : List Service → b.State → b.State
  unfolding run_all topology
  connects [] s = s
  connects (v ∷ vs) s = connects vs (run_all (topology v) s)
