-- ===== src/Cache/MemoryStore/Chains.antt =====
-- Nodes that are linked both ways: what src/cache/stores/memory-cache.store.ts keeps of `prev` and
-- `next`, seen from one node to the tail and from one node to the head.
pub mod Lists
pub mod Removing
pub mod Heading
