-- ===== src/Rabbit/Ledger.antt =====
-- A broker that keeps the commands it was given: it shows that the interface can be met.
use technical_assignment.Contracts.{RoutingKey}
use technical_assignment.Rabbit.{
  Broker, Command, BrokerExchange, RoutingKey, Queue, assert_exchange, assert_queue, bind_queue,
  broker_exchange_eq, queue_eq, matches,
}
use technical_assignment.Common.{List, [], ◌∷◌, Bool, false, refl, ◌&&◌, ◌||◌}

bound_by : List Command → BrokerExchange → RoutingKey → Queue → Bool
bound_by [] x k q = false
bound_by (assert_exchange y ∷ cs) x k q = bound_by cs x k q
bound_by (assert_queue r y ∷ cs) x k q = bound_by cs x k q
bound_by (bind_queue r y p ∷ cs) x k q =
    (broker_exchange_eq y x && (queue_eq r q && matches p k)) || bound_by cs x k q

abbrev pub ledger : Broker
unfolding bound_by
ledger = record {
  State = List Command;
  fresh = [];
  run = λ c s. c ∷ s;
  routes = bound_by;
  routes_fresh = λ x k q. refl;
  routes_assert_exchange = λ y s x k q. refl;
  routes_assert_queue = λ r y s x k q. refl;
  routes_bind_queue = λ r y p s x k q. refl;
}
