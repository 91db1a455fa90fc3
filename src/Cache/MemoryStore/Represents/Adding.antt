-- ===== src/Cache/MemoryStore/Represents/Adding.antt =====
-- src/cache/stores/memory-cache.store.ts: a new key comes first, and the last one goes when there
-- are too many.
use mathlib.Core.Path.{ap₂}
use armstrong_bot.Prelude.{
  ℕ, ◌+◌, ◌<◌, ◌≡◌, ◌≢◌, inl, inr, refl, sym, ap, ◌∙◌, subst, String, false, List, [], ◌∷◌, none,
  some, In, arith, if◌then◌else◌, length, lookup, remove, insert, lookup-insert, map, eq_iff,
  eq_refl, ◌==◌, ltb, Bool-cases, Option-cases,
}
use armstrong_bot.Cache.MemoryStore.Lru.{Items, drop_last}
use armstrong_bot.Cache.MemoryStore.{
  MemoryCacheStore, CacheEntry, LruNode, Links, write, add_to_head, set_new, evict, evict_option,
  evict_tail, trim_to_size,
}
use armstrong_bot.Cache.MemoryStore.Chains.Lists.{IsChain, IsDistinct, Forth-same, last, In-last}
use armstrong_bot.Cache.MemoryStore.Chains.Heading.{add_to_head-SameContents, add_to_head-IsChain}
use armstrong_bot.Cache.MemoryStore.Represents.{item_of, Represents, Holds}
use armstrong_bot.Cache.MemoryStore.Represents.Keyed.{insert_new, items-same, length-map}
use armstrong_bot.Cache.MemoryStore.Represents.Evicting.{item-same, key-injective, evict-Holds}

differs :
    (k j : String) (m : List (String × ℕ)) (b : ℕ)
    → lookup k m ≡ none
    → lookup j m ≡ some b
    → (k == j) ≡ false
differs k j m b absent found = elim (Bool-cases (k == j)) [
  | inl e ↦ cc ((eq_iff k j).0 e)
  | inr e ↦ e
]

last-none : (xs : List ℕ) → last xs ≡ none → xs ≡ []
last-none [] h = refl
last-none (x ∷ xs) h = ground arith

module _ {V : Type 0} where
  abbrev node_of : String → CacheEntry V → LruNode V
  node_of key entry = record { key = key; entry = entry; prev = none; next = none }

  abbrev with_node : String → CacheEntry V → ℕ → Links V → Links V
  with_node key entry a l = record l { nodes = write l.nodes a (node_of key entry) }

  with_node-other :
      (key : String) (entry : CacheEntry V) (a b : ℕ) (l : Links V)
      → a ≢ b
      → (with_node key entry a l).nodes b ≡ l.nodes b
  with_node-other key entry a b l ne = ground arith

  with_node_self :
      (key : String) (entry : CacheEntry V) (a : ℕ) (l : Links V)
      → (with_node key entry a l).nodes a ≡ node_of key entry
  with_node_self key entry a l = ground arith

  module _ (s : MemoryCacheStore V) (xs : List ℕ) (r : Represents s xs) (key : String)
      (entry : CacheEntry V) where
    abbrev base : Links V
    base = with_node key entry s.fresh s.links

    fresh-ne : (b : ℕ) → In b xs → s.fresh ≢ b
    fresh-ne b i e = absurd (omega (arith, r.made b i))

    base-same : (b : ℕ) → In b xs → base.nodes b ≡ s.links.nodes b
    base-same b i = with_node-other key entry s.fresh b s.links (fresh-ne b i)

    base-IsChain : IsChain base xs
    base-IsChain = record {
      forth =
          Forth-same base.nodes s.links.nodes none xs
            (λ b i. (
              ap (λ (n : LruNode V). n.prev) (base-same b i),
              ap (λ (n : LruNode V). n.next) (base-same b i),
            ))
            r.chain.forth;
      head = r.chain.head;
      tail = r.chain.tail;
      distinct = r.chain.distinct;
    }

    abbrev added : Links V
    added = add_to_head s.fresh base

    added-item : (b : ℕ) → item_of added b ≡ item_of base b
    added-item b = item-same added base b (add_to_head-SameContents s.fresh base)

    added-key_self : (added.nodes s.fresh).key ≡ key
    added-key_self =
        (add_to_head-SameContents s.fresh base s.fresh).0
        ∙ ap (λ (n : LruNode V). n.key) (with_node_self key entry s.fresh s.links)

    added-key-old : (b : ℕ) → In b xs → (added.nodes b).key ≡ (s.links.nodes b).key
    added-key-old b i =
        (add_to_head-SameContents s.fresh base b).0 ∙ ap (λ (n : LruNode V). n.key) (base-same b i)

    made_lem : (b : ℕ) → In b (s.fresh ∷ xs) → b < s.fresh + 1
    made_lem b i = elim i [ inl e ↦ omega arith | inr j ↦ omega (arith, r.made b j) ]

    module _ (absent : lookup key s.entries ≡ none) where
      new-mapped :
          (b : ℕ)
          → In b (s.fresh ∷ xs)
          → lookup (added.nodes b).key (insert key s.fresh s.entries) ≡ some b
      new-mapped b i = elim i [
        | inl e ↦ rw (e, added-key_self, lookup-insert key key s.fresh s.entries, eq_refl key) refl
        | inr j ↦
            rw (added-key-old b j, lookup-insert key (s.links.nodes b).key s.fresh s.entries)
              (rw (differs key (s.links.nodes b).key s.entries b absent (r.mapped b j))
                (r.mapped b j))
      ]

      new-listed :
          (k : String) (b : ℕ)
          → lookup k (insert key s.fresh s.entries) ≡ some b
          → In b (s.fresh ∷ xs) × ((added.nodes b).key ≡ k)
      new-listed k b h = elim (Bool-cases (key == k)) [
        | inl e ↦
            let same = (eq_iff key k).0 e in
            let at : s.fresh ≡ b = ground (arith, lookup-insert key k s.fresh s.entries) in
            (inl (sym at), ap (λ x. (added.nodes x).key) (sym at) ∙ added-key_self ∙ same)
        | inr e ↦
            let (i, f) = r.listed k b (ground (arith, lookup-insert key k s.fresh s.entries)) in
            (inr i, added-key-old b i ∙ f)
      ]

      set_new-Represents : Represents (set_new key entry s) (s.fresh ∷ xs)
      unfolding set_new
      set_new-Represents =
          let (unique, longer) = insert_new key s.fresh s.entries r.unique absent in
          record {
            chain = add_to_head-IsChain s.fresh base xs base-IsChain (λ i. fresh-ne s.fresh i refl);
            mapped = new-mapped;
            listed = new-listed;
            made = λ b i. made_lem b i;
            unique = unique;
            sized = omega (arith, longer, r.sized);
          }

      set_new-items :
          map (item_of (set_new key entry s).links) (s.fresh ∷ xs)
          ≡ (key, entry) ∷ map (item_of s.links) xs
      unfolding set_new
      set_new-items =
          ap₂ ◌∷◌
            (added-item s.fresh
              ∙ ap (λ (n : LruNode V). (n.key, n.entry)) (with_node_self key entry s.fresh s.links))
            (items-same s.links added xs
              (λ b i. added-item b ∙ ap (λ (n : LruNode V). (n.key, n.entry)) (base-same b i)))

  pub set_new-Holds :
      (s : MemoryCacheStore V) (items : Items V) (key : String) (entry : CacheEntry V)
      → Holds s items
      → lookup key s.entries ≡ none
      → Holds (set_new key entry s) ((key, entry) ∷ items)
  set_new-Holds s items key entry (xs, r, e) absent = (
    s.fresh ∷ xs,
    set_new-Represents s xs r key entry absent,
    set_new-items s xs r key entry absent ∙ ap (◌∷◌ (key, entry)) e,
  )

  -- Dropping the last item is removing the key of the last node.
  remove-last :
      (l : Links V) (xs : List ℕ) (a : ℕ)
      → IsDistinct xs
      → ((b : ℕ) → In b xs → (l.nodes b).key ≡ (l.nodes a).key → b ≡ a)
      → last xs ≡ some a
      → remove (l.nodes a).key (map (item_of l) xs) ≡ drop_last (map (item_of l) xs)
  unfolding drop_last
  remove-last l [] a d only h = refl
  remove-last l (x ∷ []) a d only h = ground (arith, eq_refl (l.nodes a).key)
  remove-last l (x ∷ y ∷ xs) a d only h =
      let behind : last (y ∷ xs) ≡ some a = ground arith in
      let ne : (l.nodes x).key ≢ (l.nodes a).key = λ e.
        d.0 (subst (λ z. In z (y ∷ xs)) (sym (only x (inl refl) e)) (In-last (y ∷ xs) a behind)) in
      let apart : ((l.nodes x).key == (l.nodes a).key) ≡ false =
        ground (arith, eq_iff (l.nodes x).key (l.nodes a).key) in
      rw apart
        (ap (◌∷◌ (item_of l x)) (remove-last l (y ∷ xs) a d.1 (λ b i. only b (inr i)) behind))

  drop_nil : (items : Items V) → items ≡ [] → items ≡ drop_last items
  unfolding drop_last
  drop_nil [] h = refl
  drop_nil (x ∷ items) h = cc

  evict_tail-Holds :
      (s : MemoryCacheStore V) (items : Items V)
      → Holds s items
      → Holds (evict_tail s) (drop_last items)
  unfolding evict_tail
  evict_tail-Holds s items (xs, r, e) = elim (Option-cases (s.links.tail)) [
    | inl none_left ↦
        let nil = last-none xs (sym r.chain.tail ∙ none_left) in
        subst (λ t. Holds t (drop_last items)) (ap (λ o. evict_option o s) (sym none_left))
          (xs, r, e ∙ drop_nil items (sym e ∙ ap (map (item_of s.links)) nil))
    | inr (a, at) ↦
        let final = sym r.chain.tail ∙ at in
        let i = In-last xs a final in
        subst (λ t. Holds t (drop_last items)) (ap (λ o. evict_option o s) (sym at))
          (subst (Holds (evict a s))
            (ap (remove (s.links.nodes a).key) (sym e)
              ∙ remove-last s.links xs a r.chain.distinct (λ b j f. key-injective s xs r b a j i f)
                  final
              ∙ ap drop_last e)
            (evict-Holds s items (s.links.nodes a).key a (xs, r, e) (r.mapped a i)))
  ]

  pub trim_to_size-Holds :
      (s : MemoryCacheStore V) (items : Items V)
      → Holds s items
      → Holds (trim_to_size s) (if ltb s.max_items (length items) then drop_last items else items)
  unfolding trim_to_size
  trim_to_size-Holds s items h =
      let (xs, r, e) = h in
      let size : length s.entries ≡ length items =
        r.sized ∙ sym (length-map (item_of s.links) xs) ∙ ap length e in
      elim (Bool-cases (ltb s.max_items (length items))) [
        | inl over ↦ rw (size, over) (evict_tail-Holds s items h)
        | inr fits ↦ rw (size, fits) h
      ]
