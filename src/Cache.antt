-- ===== src/Cache.antt =====
-- src/cache: the store of the first level, stores/memory-cache.store.ts.
pub mod MemoryStore
mod Tests
