-- ===== src/Rabbit/Routing.antt =====
-- Where the events of the contracts end up.
use technical_assignment.Contracts.{
  payment_failed_v1, seat_exchange, EventType, RoutingKey, payment_exchange, seat_held_v1,
  routing_key, seat_released_v1, seat_reserved_v1, payment_succeeded_v1, payment_events,
  seat_events,
}
use technical_assignment.Common.{◌≡◌, refl, List, [], ◌∷◌, Bool, false, ◌||◌, true, ◌&&◌, arith}
use technical_assignment.Rabbit.{
  Broker, BrokerExchange, Command, Queue, queue_eq, assert_exchange, payment_seat_events,
  assert_queue, seat_payment_events, bind_queue, broker_exchange_eq, plain, matches, dlx,
  seat_payment_events_dlq, payment_seat_events_dlq,
}
use technical_assignment.Rabbit.Topology.{
  Service, connects, run_all, seat_topology, seat_service, payment_topology, payment_service,
}

abbrev pub started : Service → List Service → Bool
started seat_service [] = false
started payment_service [] = false
started seat_service (seat_service ∷ vs) = true
started seat_service (payment_service ∷ vs) = started seat_service vs
started payment_service (seat_service ∷ vs) = started payment_service vs
started payment_service (payment_service ∷ vs) = true

-- Where the bindings among some declarations send a message.
abbrev pub bound : List Command → BrokerExchange → RoutingKey → Queue → Bool
bound [] x k q = false
bound (assert_exchange y ∷ cs) x k q = bound cs x k q
bound (assert_queue r y ∷ cs) x k q = bound cs x k q
bound (bind_queue r y p ∷ cs) x k q =
    bound cs x k q || (broker_exchange_eq y x && (queue_eq r q && matches p k))

-- The queues that are meant to get an event: the seat service hears of payments, the payment service
-- of seats that were released, and nobody of seats that were held or reserved.
abbrev pub wanted : EventType → Queue → Bool
wanted seat_held_v1 q = false
wanted seat_released_v1 q = queue_eq payment_seat_events q
wanted seat_reserved_v1 q = false
wanted payment_succeeded_v1 q = queue_eq seat_payment_events q
wanted payment_failed_v1 q = queue_eq seat_payment_events q

again_seat : (a m c n r : Bool) → ((a && m) || (c && n)) || (m || r) ≡ (m || (c && n)) || r
again_seat a m c n r = ground arith

again_payment : (a m c n r : Bool) → ((a && m) || (c && n)) || (n || r) ≡ ((a && m) || n) || r
again_payment a m c n r = ground arith

exchanges_agree : (t : EventType) → payment_exchange t ≡ seat_exchange t
unfolding payment_exchange seat_exchange
exchanges_agree seat_held_v1 = refl
exchanges_agree seat_released_v1 = refl
exchanges_agree seat_reserved_v1 = refl
exchanges_agree payment_succeeded_v1 = refl
exchanges_agree payment_failed_v1 = refl

bound_as_wanted :
    (t : EventType) (q : Queue)
    → (bound seat_topology (plain (seat_exchange t)) (routing_key t) q
        || bound payment_topology (plain (seat_exchange t)) (routing_key t) q)
      ≡ wanted t q
unfolding seat_exchange seat_topology payment_topology
bound_as_wanted seat_held_v1 q = ground arith
bound_as_wanted seat_released_v1 q = ground arith
bound_as_wanted seat_reserved_v1 q = ground arith
bound_as_wanted payment_succeeded_v1 q = ground arith
bound_as_wanted payment_failed_v1 q = ground arith

module _ (b : Broker) where
  routes-run_all :
      (cs : List Command) (s : b.State) (x : BrokerExchange) (k : RoutingKey) (q : Queue)
      → b.routes (run_all b cs s) x k q ≡ bound cs x k q || b.routes s x k q
  unfolding run_all
  routes-run_all [] s x k q = refl
  routes-run_all (assert_exchange y ∷ cs) s x k q =
      rw (routes-run_all cs (b.run (assert_exchange y) s) x k q, b.routes_assert_exchange y s x k q)
        refl
  routes-run_all (assert_queue r y ∷ cs) s x k q =
      rw (routes-run_all cs (b.run (assert_queue r y) s) x k q, b.routes_assert_queue r y s x k q)
        refl
  routes-run_all (bind_queue r y p ∷ cs) s x k q =
      rw (routes-run_all cs (b.run (bind_queue r y p) s) x k q, b.routes_bind_queue r y p s x k q)
        (ground arith)

  routes-connects :
      (vs : List Service) (s : b.State) (x : BrokerExchange) (k : RoutingKey) (q : Queue)
      → b.routes (connects b vs s) x k q
        ≡ ((started seat_service vs && bound seat_topology x k q)
            || (started payment_service vs && bound payment_topology x k q))
          || b.routes s x k q
  unfolding connects
  routes-connects [] s x k q = refl
  routes-connects (seat_service ∷ vs) s x k q =
      rw
        (routes-connects vs (run_all b seat_topology s) x k q, routes-run_all seat_topology s x k q)
        (again_seat (started seat_service vs) (bound seat_topology x k q)
          (started payment_service vs) (bound payment_topology x k q) (b.routes s x k q))
  routes-connects (payment_service ∷ vs) s x k q =
      rw
        (
          routes-connects vs (run_all b payment_topology s) x k q,
          routes-run_all payment_topology s x k q,
        )
        (again_payment (started seat_service vs) (bound seat_topology x k q)
          (started payment_service vs) (bound payment_topology x k q) (b.routes s x k q))

  pub events_reach_their_queue :
      (vs : List Service)
      → started seat_service vs ≡ true
      → started payment_service vs ≡ true
      → (t : EventType) (q : Queue)
      → (b.routes (connects b vs b.fresh) (plain (seat_exchange t)) (routing_key t) q ≡ wanted t q)
        × (b.routes (connects b vs b.fresh) (plain (payment_exchange t)) (routing_key t) q
            ≡ wanted t q)
  events_reach_their_queue vs seat pay t q =
      let there : b.routes (connects b vs b.fresh) (plain (seat_exchange t)) (routing_key t) q
          ≡ wanted t q =
        rw
          (
            routes-connects vs b.fresh (plain (seat_exchange t)) (routing_key t) q,
            seat,
            pay,
            b.routes_fresh (plain (seat_exchange t)) (routing_key t) q,
          )
          (ground (arith, bound_as_wanted t q)) in
      (there, rw (exchanges_agree t) there)

  -- A message that a consumer of either service has refused, which its queue hands to the dead-letter
  -- exchange of its declaration under the same key, is kept in the dead-letter queue of that service
  -- and in no other.
  pub dead_letters_are_kept :
      (vs : List Service)
      → started seat_service vs ≡ true
      → started payment_service vs ≡ true
      → (k : RoutingKey) (q : Queue)
      → (b.routes (connects b vs b.fresh) (dlx payment_events) k q
          ≡ queue_eq seat_payment_events_dlq q)
        × (b.routes (connects b vs b.fresh) (dlx seat_events) k q
            ≡ queue_eq payment_seat_events_dlq q)
  unfolding seat_topology payment_topology
  dead_letters_are_kept vs seat pay k q = (
    rw
        (
          routes-connects vs b.fresh (dlx payment_events) k q,
          seat,
          pay,
          b.routes_fresh (dlx payment_events) k q,
        )
        (ground arith),
    rw
        (
          routes-connects vs b.fresh (dlx seat_events) k q,
          seat,
          pay,
          b.routes_fresh (dlx seat_events) k q,
        )
        (ground arith),
  )
