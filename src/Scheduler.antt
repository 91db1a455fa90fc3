-- ===== src/Scheduler.antt =====
-- src/modules/scheduler: when a job may run.
pub mod Maintenance
mod Tests
