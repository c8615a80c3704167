-- ===== src/Saga.antt =====
-- How the services work together: what a webhook of the payment provider comes to, from the payment
-- service's database through its outbox worker and the broker's bindings to the seat service's
-- consumer (apps/payment/src/webhooks/webhooks.controller.ts, apps/payment/src/outbox/outbox.worker.ts,
-- the two rabbit.service.ts and apps/seat-reservation/src/events/payment-events.consumer.ts).
mod Tests
pub mod Settlement
