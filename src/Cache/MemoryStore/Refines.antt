-- ===== src/Cache/MemoryStore/Refines.antt =====
-- The store of src/cache/stores/memory-cache.store.ts against the list that it promises to be.
pub mod Calls
pub mod Runs
pub mod Size
