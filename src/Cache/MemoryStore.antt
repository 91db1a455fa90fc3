-- ===== src/Cache/MemoryStore.antt =====
-- src/cache/stores/memory-cache.store.ts: entries in the order of use, as nodes that are linked both
-- ways and found by a map from the keys. A node is known by its address; `fresh` is the next address
-- that is handed out, and `Date.now()` is an argument.
pub mod Chains
pub mod Lru
pub mod Represents
pub mod Refines
use text.Mathlib.Text.{starts_with}
use armstrong_bot.Prelude.{
  ℕ, ◌+◌, String, Bool, true, false, List, [], ◌∷◌, Option, none, some, eqb, leb, ltb,
  if◌then◌else◌, length, lookup, insert, remove,
}

pub record CacheEntry (V : Type 0) : Type 0 where
  pub value : V
  pub stored_at : ℕ
  pub expires_at : ℕ
  pub tags : List String

pub record LruNode (V : Type 0) : Type 0 where
  pub key : String
  pub entry : CacheEntry V
  pub prev : Option ℕ
  pub next : Option ℕ

-- The nodes with the two ends of the list.
pub record Links (V : Type 0) : Type 0 where
  pub nodes : ℕ → LruNode V
  pub head : Option ℕ
  pub tail : Option ℕ

pub record MemoryCacheStore (V : Type 0) : Type 0 where
  pub max_items : ℕ
  pub entries : List (String × ℕ)
  pub links : Links V
  pub fresh : ℕ
  pub hits : ℕ
  pub misses : ℕ
  pub evictions : ℕ

-- What a call answers.
pub data Answer (V : Type 0) : Type 0 where
  found : Option (CacheEntry V) → Answer V
  done : Answer V
  counted : ℕ → Answer V
  present : Bool → Answer V

-- The calls of the store.
pub data Call (V : Type 0) : Type 0 where
  get : String → Call V
  set : String → CacheEntry V → Call V
  delete : String → Call V
  delete_by_prefix : String → Call V
  has : String → Call V

-- `===` of a reference that may be null and a node
abbrev pub is_at : Option ℕ → ℕ → Bool
is_at none a = false
is_at (some b) a = eqb b a

-- `if (!this.tail) this.tail = node`
abbrev pub or_else : Option ℕ → ℕ → Option ℕ
or_else none a = some a
or_else (some b) a = some b

module _ {V : Type 0} where
  -- A new store; what stands at addresses that were never handed out plays no role.
  unfoldable pub empty_store : ℕ → (ℕ → LruNode V) → MemoryCacheStore V
  empty_store max_items nodes = record {
    max_items = max_items;
    entries = [];
    links = record { nodes = nodes; head = none; tail = none };
    fresh = 0;
    hits = 0;
    misses = 0;
    evictions = 0;
  }

  abbrev pub write : (ℕ → LruNode V) → ℕ → LruNode V → ℕ → LruNode V
  write nodes a node b = if eqb a b then node else nodes b

  abbrev pub set_prev : Option ℕ → ℕ → Links V → Links V
  set_prev p a l = record l { nodes = write l.nodes a (record (l.nodes a) { prev = p }) }

  abbrev pub set_next : Option ℕ → ℕ → Links V → Links V
  set_next n a l = record l { nodes = write l.nodes a (record (l.nodes a) { next = n }) }

  -- `if (node.prev) node.prev.next = node.next`
  pub bypass_next : ℕ → Links V → Links V
  bypass_next a l = elim ((l.nodes a).prev) [ none ↦ l | some p ↦ set_next (l.nodes a).next p l ]

  -- `if (node.next) node.next.prev = node.prev`
  pub bypass_prev : ℕ → Links V → Links V
  bypass_prev a l = elim ((l.nodes a).next) [ none ↦ l | some n ↦ set_prev (l.nodes a).prev n l ]

  pub leave_head : ℕ → Links V → Links V
  leave_head a l = if is_at l.head a then record l { head = (l.nodes a).next } else l

  pub leave_tail : ℕ → Links V → Links V
  leave_tail a l = if is_at l.tail a then record l { tail = (l.nodes a).prev } else l

  pub remove_node : ℕ → Links V → Links V
  unfolding bypass_next bypass_prev leave_head leave_tail
  remove_node a l =
      set_next none a
        (set_prev none a (leave_tail a (leave_head a (bypass_prev a (bypass_next a l)))))

  -- `if (this.head) this.head.prev = node`
  pub link_head : ℕ → Links V → Links V
  link_head a l = elim (l.head) [ none ↦ l | some h ↦ set_prev (some a) h l ]

  pub add_to_head : ℕ → Links V → Links V
  unfolding link_head
  add_to_head a l =
      let linked = link_head a (set_prev none a (set_next l.head a l)) in
      record linked { head = some a; tail = or_else linked.tail a }

  pub move_to_head : ℕ → Links V → Links V
  unfolding remove_node add_to_head
  move_to_head a l = add_to_head a (remove_node a l)

  pub evict : ℕ → MemoryCacheStore V → MemoryCacheStore V
  unfolding remove_node
  evict a s = record s {
    entries = remove (s.links.nodes a).key s.entries;
    links = remove_node a s.links;
    evictions = s.evictions + 1;
  }

  -- `if (this.tail) this.evict(this.tail)`, of the tail that is there
  pub evict_option : Option ℕ → MemoryCacheStore V → MemoryCacheStore V
  unfolding evict
  evict_option none s = s
  evict_option (some a) s = evict a s

  pub evict_tail : MemoryCacheStore V → MemoryCacheStore V
  unfolding evict_option
  evict_tail s = evict_option s.links.tail s

  abbrev pub missed : MemoryCacheStore V → MemoryCacheStore V
  missed s = record s { misses = s.misses + 1 }

  pub get_node : ℕ → ℕ → MemoryCacheStore V → MemoryCacheStore V × Answer V
  unfolding evict move_to_head
  get_node now a s =
      if leb (s.links.nodes a).entry.expires_at now
      then (missed (evict a s), Answer.found none)
      else (
        record s { links = move_to_head a s.links; hits = s.hits + 1 },
        Answer.found (some (s.links.nodes a).entry),
      )

  abbrev pub set_entry : CacheEntry V → ℕ → Links V → Links V
  set_entry entry a l = record l { nodes = write l.nodes a (record (l.nodes a) { entry = entry }) }

  -- A key that is there takes the new entry and moves to the head.
  pub set_old : ℕ → CacheEntry V → MemoryCacheStore V → MemoryCacheStore V
  unfolding move_to_head
  set_old a entry s = record s { links = move_to_head a (set_entry entry a s.links) }

  -- A node is made for a new key.
  pub set_new : String → CacheEntry V → MemoryCacheStore V → MemoryCacheStore V
  unfolding add_to_head
  set_new key entry s = record s {
    entries = insert key s.fresh s.entries;
    links = add_to_head s.fresh (record s.links {
      nodes =
          write s.links.nodes s.fresh
            (record { key = key; entry = entry; prev = none; next = none });
    });
    fresh = s.fresh + 1;
  }

  pub trim_to_size : MemoryCacheStore V → MemoryCacheStore V
  unfolding evict_tail
  trim_to_size s = if ltb s.max_items (length s.entries) then evict_tail s else s

  -- The loop of `deleteByPrefix` over the entries of the map.
  pub evict_prefix :
      String → List (String × ℕ) → ℕ → MemoryCacheStore V → MemoryCacheStore V × Answer V
  unfolding evict
  evict_prefix prefix [] count s = (s, Answer.counted count)
  evict_prefix prefix ((key, a) ∷ rest) count s =
      evict_prefix prefix rest (if starts_with key prefix then count + 1 else count)
        (if starts_with key prefix then evict a s else s)

  pub has_node : ℕ → ℕ → MemoryCacheStore V → MemoryCacheStore V × Answer V
  unfolding evict
  has_node now a s =
      if leb (s.links.nodes a).entry.expires_at now
      then (evict a s, Answer.present false)
      else (s, Answer.present true)

  -- `get`, `set`, `delete` and `has`, with what the map finds for the key.
  pub get_found : ℕ → Option ℕ → MemoryCacheStore V → MemoryCacheStore V × Answer V
  unfolding get_node
  get_found now none s = (missed s, Answer.found none)
  get_found now (some a) s = get_node now a s

  pub set_found :
      String → CacheEntry V → Option ℕ → MemoryCacheStore V → MemoryCacheStore V × Answer V
  unfolding set_old set_new trim_to_size
  set_found key entry none s = (trim_to_size (set_new key entry s), Answer.done)
  set_found key entry (some a) s = (set_old a entry s, Answer.done)

  pub delete_found : Option ℕ → MemoryCacheStore V → MemoryCacheStore V × Answer V
  unfolding evict_option
  delete_found found_at s = (evict_option found_at s, Answer.done)

  pub has_found : ℕ → Option ℕ → MemoryCacheStore V → MemoryCacheStore V × Answer V
  unfolding has_node
  has_found now none s = (s, Answer.present false)
  has_found now (some a) s = has_node now a s

  -- One call of the store at the time `now`.
  unfoldable pub call_store : ℕ → Call V → MemoryCacheStore V → MemoryCacheStore V × Answer V
  unfolding get_found set_found delete_found evict_prefix has_found
  call_store now (Call.get key) s = get_found now (lookup key s.entries) s
  call_store now (Call.set key entry) s = set_found key entry (lookup key s.entries) s
  call_store now (Call.delete key) s = delete_found (lookup key s.entries) s
  call_store now (Call.delete_by_prefix prefix) s = evict_prefix prefix s.entries 0 s
  call_store now (Call.has key) s = has_found now (lookup key s.entries) s

  -- The calls in their order, each with its time.
  unfoldable pub run_store :
      List (ℕ × Call V) → MemoryCacheStore V → MemoryCacheStore V × List (Answer V)
  unfolding call_store
  run_store [] s = (s, [])
  run_store ((now, call) ∷ rest) s =
      let (s1, answer) = call_store now call s in
      let (s2, answers) = run_store rest s1 in (s2, answer ∷ answers)
