-- ===== src/Payments/Webhooks.antt =====
-- modules/payments/webhooks: the shared body of the handlers, and the five handlers.
pub mod Handler
pub mod Credentials
pub mod Events
pub mod Dedup
pub mod Deliveries
pub mod Causes
pub mod Signatures
pub mod Consistency
pub mod Stripe
pub mod Paypal
pub mod Nexi
pub mod BancaSella
pub mod Scalapay
mod Tests
