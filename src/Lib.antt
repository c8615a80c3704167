-- ===== src/Lib.antt =====
-- A seat reservation system: three services, each with a PostgreSQL database of its own, that
-- exchange events over RabbitMQ by transactional outboxes.
--
--   * Seats (apps/seat-reservation/src). A user holds a seat for some minutes; the payment service's
--     events sell or free it; a sweeper frees holds that ran out.
--   * Payments (apps/payment/src). A checkout makes a payment intent at a provider, behind a circuit
--     breaker; the provider's webhooks settle it, through an inbox; a released seat fails it.
--   * Authentication (apps/auth/src). Users, refresh tokens in families, audit, rate limits.
--   * packages/contracts and packages/be-core: the events, the trace ids, the outbox helper.
--
-- Which file models what:
--
--   * Common and its children: tables as lists of rows (Rows, Lookups), Boolean tests (Tests), and
--     connections of the `pg` pool with transactions (Postgres): a `Link` is a connection that
--     holds or breaks after some statements, before or after the server executes the next, COMMIT
--     too; `run_tx` is BEGIN, a body, COMMIT or ROLLBACK. Robust says what any transaction body
--     does when its link breaks, Hoare what it keeps, and Growth what tables that only grow keep.
--   * Contracts, Contracts/Tracing: packages/contracts/src/events.ts and
--     packages/be-core/src/correlation.ts.
--   * Outbox, Outbox/Worker: packages/be-core/src/outbox.ts and outbox/outbox.worker.ts of the two
--     services (`tick`, `processRow`); the theorems are in Outbox/Delivery and Outbox/Retries.
--   * Seat/Db, Seat/Holds: migrations and holds/holds.repository.ts (`insertHoldTx`, `releaseHold`,
--     `reserveHold`, `findActiveHoldForSeat`); Seat/Consistent is the invariant, the children of
--     Seat/Holds are the theorems.
--   * Seat/Sweeper: holds/hold-sweeper.ts. Seat/Consumer: events/payment-events.consumer.ts.
--     Seat/Controller, Seat/Bus: seats/seats.controller.ts, seats/seat-event.bus.ts.
--     Seat/Stream: the `stream` of the controller, over the bus. Seat/Wire, Seat/Typed: what the
--     handlers put in the outbox. Seat/Listing: `listAll` of seats/seats.repository.ts.
--     Seat/Traces: the transactions of the service in any order, its children what they keep.
--   * Payment/Db, Payment/Intents: migrations and checkout/payment-intents.repository.ts.
--     Payment/Breaker: psps/circuit-breaker.ts. Payment/Checkout: checkout/checkout.controller.ts.
--     Payment/Webhooks: webhooks/webhooks.controller.ts, webhooks/webhook-reprocessor.ts and
--     psps/psp.client.ts. Payment/SeatEvents: events/seat-events.consumer.ts.
--     Payment/Traces: the statements and transactions of the service in any order.
--     Payment/Charges: its handlers in any order, and the amounts of the intents.
--   * Auth/Db, Auth/Users, Auth/Password, Auth/Sessions: migrations, users/users.repository.ts,
--     users/password.ts, audit/audit.module.ts, sessions/sessions.repository.ts. Auth/Login and
--     Auth/Controller: auth/auth.controller.ts, `register` and `login` in the first, the other three
--     handlers in the second, and auth/jwt.service.ts. Auth/Traces: what they write, in any order;
--     Auth/Requests: requests to the five routes.
--   * Auth/RateLimit, Auth/RateLimit/Guard: common/rate-limit.guard.ts of the three services.
--   * Seat/Booking is a specification of the seat service, bookings of seats with no tables and no
--     connections; its children relate the service's transactions to it.
--   * Auth/Guard: common/jwt-auth.guard.ts of the seat and the payment service, and
--     apps/auth/src/auth/jwt.service.ts. Auth/Controller/Owner is on whom refresh gives a token.
--   * Rabbit: the interface of the broker. Rabbit/Topology: the declarations in events/rabbit.service.ts
--     of the two services. Rabbit/Routing: where events end up. Rabbit/Connection: `connect`,
--     `doConnect`, `publish` and the callback of `consume`. Rabbit/Ledger: a broker that meets the
--     interface. Rabbit/Connection/Probe: `ready` of health/health.controller.ts of the services.
--   * Migrations, Migrations/Sql: migrations/run.ts, which is the same in the three services but for
--     a name; Migrations/Files, Migrations/Reruns, Migrations/Stops
--     and Migrations/Sql/RoundTrip are the theorems.
--   * Config: packages/be-core/src/env.ts. Config/Services: config/env.ts of the three services, whose
--     bounds are in Config/Checks and Config/Bounds.
--   * Boot: `bootstrap` of the three main.ts, up to where the service listens.
--     Boot/ByHand: the script at the end of migrations/run.ts.
--   * Workers: `start`, the flag `running` and `onModuleDestroy` of the outbox workers, the webhook
--     reprocessor and the sweeper.
--   * Seeds: scripts/seed.ts and the seat prices of the payment service's second migration.
--   * Logger: packages/be-core/src/logger.ts and common/logger.service.ts.
--   * Routes: the guards, the body and the handler of the three routes behind JwtAuthGuard, one after
--     the other.
--   * Saga: what a webhook comes to in the seat service's database, by way of the outbox and the
--     broker.
--   * The Tests of each service apply its theorems to small databases.
--
-- How the code is read. An id that `randomUUID` draws, a clock and a random value are arguments.
-- UUIDs and texts that are only compared are numbers, so the ids in requests are taken in the form
-- in which PostgreSQL prints them; times are milliseconds on one clock, but for `Date.now()` and
-- NOW(), which are separate arguments. Of an access token the claims are modelled that the code
-- signs; iat and exp, which jsonwebtoken adds, are arguments of its interface. A statement sees
-- the rows in the order in which they were inserted. Transactions are steps one after another, as
-- PostgreSQL promises of the SERIALIZABLE ones; for the others (`releaseHold`, `reserveHold`, the
-- sweeper, the settling of intents and `rotate`, which are READ COMMITTED) this is an assumption;
-- what other requests do between two transactions of a handler is an argument where the handler
-- awaits something slow. Every loop is over a list but the one that connects to the broker,
-- `dial`, whose fuel is ten rounds: the code gives up at its tenth attempt.
--
-- Not under the sources, and so parameters: the provider, the HMAC, hexadecimal decoding and JSON
-- parsing of webhooks, argon2 (with three laws), SHA-256, zod's check of an email and lower case,
-- pino, `jsonwebtoken` (an interface with two laws), the broker (an interface with the laws of its
-- bindings, and what it does with a message), what the database makes of a migration's statement,
-- and JavaScript's `Number`.
--
-- Not modelled: AMQP channels and prefetch, metrics, what pino does with a line, the probe `live`, HTTP
-- middleware, the end of a process on a signal, the web page and the shell scripts, `hashRefreshToken`
-- and `safeEqualHash` of users/password.ts, which nothing calls, and the check that a JSON body has the
-- right shape beyond the fields that Contracts and Auth/Login name.
pub mod Common
pub mod Config
pub mod Contracts
pub mod Outbox
pub mod Seat
pub mod Workers
pub mod Payment
pub mod Auth
pub mod Rabbit
pub mod Migrations
pub mod Saga
pub mod Routes
pub mod Seeds
pub mod Logger
pub mod Boot
