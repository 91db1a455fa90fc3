-- ===== src/Storage.antt =====
-- src/modules/storage: the catalog of stored objects and the service over it.
pub mod Objects
pub mod Service
mod Tests
