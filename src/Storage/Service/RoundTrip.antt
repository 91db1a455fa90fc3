-- ===== src/Storage/Service/RoundTrip.antt =====
-- src/modules/storage/application/storage.service.ts: what is read is what was stored.
pub mod Backed
pub mod Stored
pub mod Reading
