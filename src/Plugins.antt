-- ===== src/Plugins.antt =====
-- src/core/plugins: the lifecycle of plugins and the order of their dependencies.
pub mod Manifest
pub mod Lifecycle
pub mod Dependencies
pub mod Service
mod Tests
