-- ===== src/Payments/Service.antt =====
-- modules/payments/service.py: `PaymentService`.
pub mod Providers
pub mod Storefront
pub mod Transactions
pub mod Analytics
pub mod Logs
mod Tests
