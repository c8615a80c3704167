-- ===== src/Payment.antt =====
-- apps/payment/src: the payment service.
mod Tests
pub mod Db
pub mod Intents
pub mod Traces
pub mod Charges
pub mod Breaker
pub mod Checkout
pub mod SeatEvents
pub mod Webhooks
