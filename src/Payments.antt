-- ===== src/Payments.antt =====
-- modules/payments: the tables, the encrypted credentials, the providers, the webhooks, the service.
pub mod Model
pub mod Encryption
pub mod Webhooks
pub mod Instances
pub mod Service
pub mod Routes
mod Samples
