-- ===== src/Webhooks.antt =====
-- src/modules/webhooks: what comes in from other services.
pub mod Deliveries
pub mod Inbound
pub mod Worker
mod Tests
