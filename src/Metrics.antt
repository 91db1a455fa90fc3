-- ===== src/Metrics.antt =====
-- src/modules/metrics: the networks that may read the metrics.
pub mod Cidr
pub mod Guard
mod Tests
