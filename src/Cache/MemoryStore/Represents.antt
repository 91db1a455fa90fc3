-- ===== src/Cache/MemoryStore/Represents.antt =====
-- When the nodes and the map of a store (src/cache/stores/memory-cache.store.ts) stand for a list of
-- keys with their entries.
pub mod Keyed
pub mod Evicting
pub mod Moving
pub mod Adding
pub mod Sweeping
use armstrong_bot.Prelude.{ℕ, ◌<◌, ◌≡◌, String, List, [], ◌∷◌, none, some, In, length, lookup, map}
use armstrong_bot.Cache.MemoryStore.{MemoryCacheStore, Links, CacheEntry}
use armstrong_bot.Cache.MemoryStore.Chains.Lists.{IsChain}

-- No key stands twice in a map.
abbrev pub HasUniqueKeys : {W : Type 0} → List (String × W) → Type 0
HasUniqueKeys [] = Unit
HasUniqueKeys ((k, w) ∷ rest) = (lookup k rest ≡ none) × HasUniqueKeys rest

module _ {V : Type 0} where
  abbrev pub item_of : Links V → ℕ → String × CacheEntry V
  item_of l a = ((l.nodes a).key, (l.nodes a).entry)

  -- The nodes at `xs` are a chain, and the map finds exactly them by their keys.
  pub record Represents (s : MemoryCacheStore V) (xs : List ℕ) : Type 0 where
    pub chain : IsChain s.links xs
    pub mapped : (a : ℕ) → In a xs → lookup (s.links.nodes a).key s.entries ≡ some a
    pub listed :
        (k : String) (a : ℕ) → lookup k s.entries ≡ some a → In a xs × ((s.links.nodes a).key ≡ k)
    pub made : (a : ℕ) → In a xs → a < s.fresh
    pub unique : HasUniqueKeys s.entries
    pub sized : length s.entries ≡ length xs

  -- The store stands for the list of items.
  abbrev pub Holds : MemoryCacheStore V → List (String × CacheEntry V) → Type 0
  Holds s items = (xs : List ℕ) × Represents s xs × (map (item_of s.links) xs ≡ items)
