-- ===== src/Audit.antt =====
-- src/modules/audit: the hash-chained ledger and its retention.
pub mod Chain
pub mod Retention
mod Tests
