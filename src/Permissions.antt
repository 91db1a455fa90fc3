-- ===== src/Permissions.antt =====
-- src/core/permissions: claims, the resolver of a member's decision, the loading of the snapshot
-- that it reads, and the service with its tables and its cache.
pub mod Claim
pub mod Resolver
pub mod Snapshot
pub mod Service
mod Tests
