-- ===== src/Rabbit.antt =====
-- events/rabbit.service.ts of apps/seat-reservation/src and apps/payment/src: what the services ask
-- of the RabbitMQ broker, and what they rely on it for.
mod Tests
pub mod Ledger
pub mod Topology
pub mod Routing
pub mod Connection
use technical_assignment.Common.{Bool, true, false, Option, ℕ, ◌≡◌, ◌==◌, ◌&&◌, ◌||◌}
use technical_assignment.Contracts.{
  key_payment_failed, Exchange, RoutingKey, seat_events, payment_events, key_seat_held,
  key_seat_released, key_seat_reserved, key_payment_succeeded,
}

-- The two exchanges of the contracts, and `${exchange}.dlx`.
pub data BrokerExchange : Type 0 where
  plain dlx : Exchange → BrokerExchange

-- QUEUES, and `${queue}.dlq`.
pub data Queue : Type 0 where
  seat_payment_events payment_seat_events : Queue
  seat_payment_events_dlq payment_seat_events_dlq : Queue

-- A binding key: a routing key, or '#'.
pub data Pattern : Type 0 where
  exactly : RoutingKey → Pattern
  any_words : Pattern

-- assertExchange(name, 'topic', …), assertQueue(name, { 'x-dead-letter-exchange' }), bindQueue
pub data Command : Type 0 where
  assert_exchange : BrokerExchange → Command
  assert_queue : Queue → Option BrokerExchange → Command
  bind_queue : Queue → BrokerExchange → Pattern → Command

abbrev pub exchange_eq : Exchange → Exchange → Bool
exchange_eq seat_events seat_events = true
exchange_eq seat_events payment_events = false
exchange_eq payment_events seat_events = false
exchange_eq payment_events payment_events = true

abbrev pub broker_exchange_eq : BrokerExchange → BrokerExchange → Bool
broker_exchange_eq (plain a) (plain b) = exchange_eq a b
broker_exchange_eq (dlx a) (dlx b) = exchange_eq a b
broker_exchange_eq (plain a) (dlx b) = false
broker_exchange_eq (dlx a) (plain b) = false

abbrev queue_number : Queue → ℕ
queue_number seat_payment_events = 0
queue_number payment_seat_events = 1
queue_number seat_payment_events_dlq = 2
queue_number payment_seat_events_dlq = 3

abbrev pub queue_eq : Queue → Queue → Bool
queue_eq a b = queue_number a == queue_number b

abbrev key_number : RoutingKey → ℕ
key_number key_seat_held = 0
key_number key_seat_released = 1
key_number key_seat_reserved = 2
key_number key_payment_succeeded = 3
key_number key_payment_failed = 4

-- A topic exchange: a key without wildcards matches itself, and '#' matches every key.
abbrev pub matches : Pattern → RoutingKey → Bool
matches (exactly k) k' = key_number k == key_number k'
matches any_words k' = true

-- The broker, with what its documentation says of these commands: a binding adds to where its
-- exchange sends a message, and the other commands, and saying a thing again, change no routing. A
-- queue keeps the dead-letter exchange of its declaration.
pub record Broker : Type 1 where
  pub State : Type 0
  pub fresh : State
  pub run : Command → State → State
  pub routes : State → BrokerExchange → RoutingKey → Queue → Bool
  pub routes_fresh : (x : BrokerExchange) (k : RoutingKey) (q : Queue) → routes fresh x k q ≡ false
  pub routes_assert_exchange :
      (y : BrokerExchange) (s : State) (x : BrokerExchange) (k : RoutingKey) (q : Queue)
      → routes (run (assert_exchange y) s) x k q ≡ routes s x k q
  pub routes_assert_queue :
      (r : Queue) (y : Option BrokerExchange) (s : State) (x : BrokerExchange) (k : RoutingKey)
      (q : Queue)
      → routes (run (assert_queue r y) s) x k q ≡ routes s x k q
  pub routes_bind_queue :
      (r : Queue) (y : BrokerExchange) (p : Pattern) (s : State) (x : BrokerExchange)
      (k : RoutingKey) (q : Queue)
      → routes (run (bind_queue r y p) s) x k q
        ≡ (broker_exchange_eq y x && (queue_eq r q && matches p k)) || routes s x k q
