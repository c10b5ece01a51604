-- ===== src/Payments.antt =====
-- src/modules/payments: payments, the processing of the provider's webhooks, and refunds.
pub mod Service
pub mod Sync
pub mod Reception
pub mod Webhook
pub mod Refund
