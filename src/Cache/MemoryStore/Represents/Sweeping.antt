-- ===== src/Cache/MemoryStore/Represents/Sweeping.antt =====
-- src/cache/stores/memory-cache.store.ts: deleteByPrefix, in terms of the items.
use text.Mathlib.Text.{starts_with}
use armstrong_bot.Prelude.{
  ℕ, ◌+◌, ◌≡◌, inl, inr, refl, ap, ◌∙◌, subst, String, Bool, true, false, not, ◌&&◌, ◌||◌, List, [],
  ◌∷◌, none, some, In, arith, if◌then◌else◌, length, filter, lookup, remove, lookup-remove, map,
  eq_iff, eq_refl, ◌==◌, Bool-cases,
}
use armstrong_bot.Cache.MemoryStore.Lru.{Items, starts}
use armstrong_bot.Cache.MemoryStore.{
  MemoryCacheStore, CacheEntry, Answer, Links, evict, evict_prefix,
}
use armstrong_bot.Cache.MemoryStore.Represents.{HasUniqueKeys, item_of, Holds}
use armstrong_bot.Cache.MemoryStore.Represents.Keyed.{length-remove, length-map}
use armstrong_bot.Cache.MemoryStore.Represents.Evicting.{evict-Holds}

abbrev has_key : {W : Type 0} → String → List (String × W) → Bool
has_key k [] = false
has_key k ((j, w) ∷ m) = j == k || has_key k m

has_key_of_lookup :
    {W : Type 0} (k : String) (m : List (String × W)) (w : W)
    → lookup k m ≡ some w
    → has_key k m ≡ true
has_key_of_lookup k [] w h = cc
has_key_of_lookup k ((j, v) ∷ m) w h = ground (arith, eq_iff j k, has_key_of_lookup k m w)

found : (k : String) (a : ℕ) (m : List (String × ℕ)) → lookup k ((k, a) ∷ m) ≡ some a
found k a m = rw (eq_refl k) refl

module _ {V : Type 0} (prefix : String) where
  -- The keys with the prefix go one after the other.
  abbrev purge : List (String × ℕ) → Items V → Items V
  purge [] items = items
  purge ((k, a) ∷ m) items = purge m (if starts_with k prefix then remove k items else items)

  abbrev keeps : List (String × ℕ) → String × CacheEntry V → Bool
  keeps m item = not (starts prefix item && has_key item.0 m)

  filter-remove :
      (k : String) (a : ℕ) (m : List (String × ℕ)) (items : Items V)
      → filter (keeps m) (if starts_with k prefix then remove k items else items)
        ≡ filter (keeps ((k, a) ∷ m)) items
  filter-remove k a m [] = ground arith
  filter-remove k a m ((j, e) ∷ items) =
      ground (arith, eq_iff j k, eq_iff k j, filter-remove k a m items)

  filter_all : (items : Items V) → items ≡ filter (keeps []) items
  filter_all [] = refl
  filter_all ((j, e) ∷ items) = ground (arith, filter_all items)

  purge_lem : (m : List (String × ℕ)) (items : Items V) → purge m items ≡ filter (keeps m) items
  purge_lem [] items = filter_all items
  purge_lem ((k, a) ∷ m) items = purge_lem m _ ∙ filter-remove k a m items

  abbrev Within : List (String × ℕ) → MemoryCacheStore V → Type 0
  Within m s = (k : String) (a : ℕ) → lookup k m ≡ some a → lookup k s.entries ≡ some a

  abbrev Turned : List (String × ℕ) → Items V → ℕ → MemoryCacheStore V × Answer V → Type 0
  Turned m items total result =
      Holds result.0 (purge m items)
      × ((c : ℕ) × (result.1 ≡ Answer.counted c) × (c + length result.0.entries ≡ total))

  -- What the loop leaves and answers, with `count` before it.
  abbrev Swept :
      List (String × ℕ) → ℕ → MemoryCacheStore V → Items V → MemoryCacheStore V × Answer V → Type 0
  Swept m count s items result = Turned m items (count + length s.entries) result

  evict-entries :
      (s : MemoryCacheStore V) (items : Items V) (k : String) (a : ℕ)
      → Holds s items
      → lookup k s.entries ≡ some a
      → ((evict a s).entries ≡ remove k s.entries)
        × (length (evict a s).entries + 1 ≡ length s.entries)
  unfolding evict
  evict-entries s items k a (xs, r, e) h =
      let named = (r.listed k a h).1 in
      (ap (λ j. remove j s.entries) named, rw named (length-remove k s.entries a r.unique h))

  evict-Within :
      (s : MemoryCacheStore V) (m : List (String × ℕ)) (k : String)
      → (t : MemoryCacheStore V) → t.entries ≡ remove k s.entries
      → lookup k m ≡ none
      → Within m s
      → Within m t
  evict-Within s m k t entries absent within j b h = elim (Bool-cases (k == j)) [
    | inl e ↦ cc ((eq_iff k j).0 e)
    | inr e ↦ rw (entries, lookup-remove k j s.entries, e) (within j b h)
  ]

  later-Within :
      (s : MemoryCacheStore V) (k : String) (a : ℕ) (m : List (String × ℕ))
      → lookup k m ≡ none
      → Within ((k, a) ∷ m) s
      → Within m s
  later-Within s k a m absent within j b h = elim (Bool-cases (k == j)) [
    | inl e ↦ cc ((eq_iff k j).0 e)
    | inr e ↦ within j b (rw e h)
  ]

  evict_prefix-Swept :
      (m : List (String × ℕ)) (count : ℕ) (s : MemoryCacheStore V) (items : Items V)
      → HasUniqueKeys m
      → Within m s
      → Holds s items
      → Swept m count s items (evict_prefix prefix m count s)
  unfolding evict_prefix
  evict_prefix-Swept [] count s items u within h = (h, (count, refl, refl))
  evict_prefix-Swept ((k, a) ∷ m) count s items u within h =
      let rest = later-Within s k a m u.0 within in
      let at = within k a (found k a m) in
      let (entries, size) = evict-entries s items k a h at in
      elim (starts_with k prefix)
        as (λ b.
          Turned m (if b then remove k items else items) (count + length s.entries)
            (evict_prefix prefix m (if b then count + 1 else count) (if b then evict a s else s))) [
              | true ↦
                  let (held, (c, said, sum)) =
                    evict_prefix-Swept m (count + 1) (evict a s) (remove k items) u.1
                      (evict-Within s m k (evict a s) entries u.0 rest)
                      (evict-Holds s items k a h at) in
                  (held, (c, said, omega (arith, sum, size)))
              | false ↦ evict_prefix-Swept m count s items u.1 rest h
            ]

  -- Every item's key is in the map, so that the loop meets it.
  keeps-all :
      (l : Links V) (entries : List (String × ℕ)) (xs : List ℕ)
      → ((a : ℕ) → In a xs → lookup (l.nodes a).key entries ≡ some a)
      → filter (keeps entries) (map (item_of l) xs)
        ≡ filter (λ item. not (starts prefix item)) (map (item_of l) xs)
  keeps-all l entries [] all = refl
  keeps-all l entries (x ∷ xs) all = ground (
    arith,
    has_key_of_lookup (l.nodes x).key entries x (all x (inl refl)),
    keeps-all l entries xs (λ a i. all a (inr i)),
  )

  filter-length :
      (items : Items V)
      → length (filter (starts prefix) items)
          + length (filter (λ item. not (starts prefix item)) items)
        ≡ length items
  filter-length [] = omega arith
  filter-length ((k, e) ∷ items) = ground (arith, filter-length items)

  pub sweep-Holds :
      (s : MemoryCacheStore V) (items : Items V)
      → Holds s items
      → Holds
          (evict_prefix prefix s.entries 0 s).0
          (filter (λ item. not (starts prefix item)) items)
        × ((evict_prefix prefix s.entries 0 s).1
            ≡ Answer.counted (length (filter (starts prefix) items)))
  sweep-Holds s items h =
      let (xs, r, e) = h in
      let ((ys, q, f), (c, said, sum)) =
        evict_prefix-Swept s.entries 0 s items r.unique (λ k a i. i) h in
      let left : purge s.entries items ≡ filter (λ item. not (starts prefix item)) items =
        purge_lem s.entries items
        ∙ subst
            (λ (its : Items V).
              filter (keeps s.entries) its ≡ filter (λ item. not (starts prefix item)) its)
            e (keeps-all s.links s.entries xs r.mapped) in
      (
        (ys, q, f ∙ left),
        said
            ∙ ap Answer.counted (
                omega (
                  arith,
                  sum,
                  r.sized,
                  q.sized,
                  length-map (item_of s.links) xs,
                  ap length e,
                  ap length (f ∙ left),
                  length-map (item_of (evict_prefix prefix s.entries 0 s).0.links) ys,
                  filter-length items,
                )),
      )
