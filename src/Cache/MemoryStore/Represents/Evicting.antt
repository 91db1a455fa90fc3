-- ===== src/Cache/MemoryStore/Represents/Evicting.antt =====
-- src/cache/stores/memory-cache.store.ts: looking a key up, and evict, in terms of the items.
use mathlib.Core.List.{reverse_aux}
use mathlib.Core.Path.{ap₂}
use armstrong_bot.Prelude.{
  ℕ, ◌≡◌, ◌≢◌, inl, inr, refl, sym, ap, eq_refl, ◌∙◌, subst, String, false, List, [], ◌∷◌, none,
  some, In, arith, lookup, remove, lookup-remove, map, eq_iff, ◌==◌,
}
use armstrong_bot.Cache.MemoryStore.Lru.{Items}
use armstrong_bot.Cache.MemoryStore.{MemoryCacheStore, Links, evict, remove_node}
use armstrong_bot.Cache.MemoryStore.Chains.Lists.{
  IsDistinct, Disjoint, IsDistinct-reverse_aux, In-reverse_aux, split_at,
}
use armstrong_bot.Cache.MemoryStore.Chains.Removing.{remove_node-IsChain}
use armstrong_bot.Cache.MemoryStore.Chains.Heading.{SameContents, remove_node-SameContents}
use armstrong_bot.Cache.MemoryStore.Represents.{item_of, Represents, Holds}
use armstrong_bot.Cache.MemoryStore.Represents.Keyed.{
  length-reverse_aux, map-reverse_aux, remove_absent, length-remove, remove-HasUniqueKeys,
  remove-reverse_aux, lookup-items_none, lookup-items_some, items-same,
}

module _ {V : Type 0} where
  module _ (s : MemoryCacheStore V) (xs : List ℕ) (r : Represents s xs) where
    pub key-injective :
        (a b : ℕ) → In a xs → In b xs → (s.links.nodes a).key ≡ (s.links.nodes b).key → a ≡ b
    key-injective a b i j e = cc (r.mapped a i, r.mapped b j)

    pub lookup-none-items :
        (k : String) → lookup k s.entries ≡ none → lookup k (map (item_of s.links) xs) ≡ none
    lookup-none-items k h = lookup-items_none s.links k xs (λ a i e. cc (r.mapped a i))

    pub lookup-some-items :
        (k : String) (a : ℕ)
        → lookup k s.entries ≡ some a
        → lookup k (map (item_of s.links) xs) ≡ some (s.links.nodes a).entry
    lookup-some-items k a h =
        let (i, e) = r.listed k a h in
        lookup-items_some s.links k a xs i e (λ b j f. key-injective b a j i (f ∙ sym e))

  -- The nodes before and behind a node have other keys, and keep what they hold.
  module _ (s : MemoryCacheStore V) (a : ℕ) (ls zs : List ℕ)
      (r : Represents s (reverse_aux ls (a ∷ zs))) where
    distinct_lem : IsDistinct ls × IsDistinct (a ∷ zs) × Disjoint ls (a ∷ zs)
    distinct_lem = (IsDistinct-reverse_aux ls (a ∷ zs)).0 r.chain.distinct

    abbrev the_key : String
    the_key = (s.links.nodes a).key

    pub stands : In a (reverse_aux ls (a ∷ zs))
    stands = (In-reverse_aux a ls (a ∷ zs)).1 (inr (inl refl))

    pub rest-In : (b : ℕ) → In b (reverse_aux ls zs) → In b (reverse_aux ls (a ∷ zs)) × (b ≢ a)
    rest-In b i = elim ((In-reverse_aux b ls zs).0 i) [
      | inl j ↦ ((In-reverse_aux b ls (a ∷ zs)).1 (inl j), λ e. distinct_lem.2 b j (inl e))
      | inr j ↦ (
        (In-reverse_aux b ls (a ∷ zs)).1 (inr (inr j)),
        λ e. distinct_lem.1.0 (subst (λ x. In x zs) e j),
      )
    ]

    pub In-rest : (b : ℕ) → In b (reverse_aux ls (a ∷ zs)) → b ≢ a → In b (reverse_aux ls zs)
    In-rest b i ne = elim ((In-reverse_aux b ls (a ∷ zs)).0 i) [
      | inl j ↦ (In-reverse_aux b ls zs).1 (inl j)
      | inr (inl e) ↦ absurd (ne e)
      | inr (inr j) ↦ (In-reverse_aux b ls zs).1 (inr j)
    ]

    other-key : (b : ℕ) → In b (reverse_aux ls zs) → (s.links.nodes b).key ≢ the_key
    other-key b i e =
        let (j, ne) = rest-In b i in ne (key-injective s (reverse_aux ls (a ∷ zs)) r b a j stands e)

    without-key : remove the_key (map (item_of s.links) (a ∷ zs)) ≡ map (item_of s.links) zs
    without-key = rw (eq_refl the_key) (
        remove_absent the_key (map (item_of s.links) zs) (
          lookup-items_none s.links the_key zs
            (λ b i. other-key b ((In-reverse_aux b ls zs).1 (inr i)))))

    remove-items :
        remove the_key (map (item_of s.links) (reverse_aux ls (a ∷ zs)))
        ≡ map (item_of s.links) (reverse_aux ls zs)
    remove-items =
        ap (remove the_key) (map-reverse_aux (item_of s.links) ls (a ∷ zs))
        ∙ remove-reverse_aux the_key (map (item_of s.links) ls) (map (item_of s.links) (a ∷ zs))
        ∙ ap₂ reverse_aux
            (remove_absent the_key (map (item_of s.links) ls) (
              lookup-items_none s.links the_key ls
                (λ b i. other-key b ((In-reverse_aux b ls zs).1 (inl i)))))
            without-key
        ∙ sym (map-reverse_aux (item_of s.links) ls zs)

    -- Without the node, the items are those without its key.
    pub items-remove :
        (new : Links V)
        → ((b : ℕ) → In b (reverse_aux ls zs) → item_of new b ≡ item_of s.links b)
        → map (item_of new) (reverse_aux ls zs)
          ≡ remove the_key (map (item_of s.links) (reverse_aux ls (a ∷ zs)))
    items-remove new same = items-same s.links new (reverse_aux ls zs) same ∙ sym remove-items

    evict-listed :
        (k : String) (b : ℕ)
        → lookup k (evict a s).entries ≡ some b
        → In b (reverse_aux ls zs) × (((evict a s).links.nodes b).key ≡ k)
    unfolding evict
    evict-listed k b h =
        let found = sym (lookup-remove the_key k s.entries) ∙ h in
        let ne : (the_key == k) ≡ false = ground arith in
        let (i, e) = r.listed k b (ground arith) in
        (
          In-rest b i (λ c. ground (arith, eq_iff the_key k)),
          (remove_node-SameContents a s.links b).0 ∙ e,
        )

    evict-mapped :
        (b : ℕ)
        → In b (reverse_aux ls zs)
        → lookup ((evict a s).links.nodes b).key (evict a s).entries ≡ some b
    unfolding evict
    evict-mapped b i =
        rw
          (
            (remove_node-SameContents a s.links b).0,
            lookup-remove the_key (s.links.nodes b).key s.entries,
          )
          (ground (
            arith,
            eq_iff the_key (s.links.nodes b).key,
            other-key b i,
            r.mapped b (rest-In b i).0,
          ))

    pub evict-Represents : Represents (evict a s) (reverse_aux ls zs)
    unfolding evict
    evict-Represents = record {
      chain = remove_node-IsChain s.links a ls zs r.chain;
      mapped = evict-mapped;
      listed = evict-listed;
      made = λ b i. r.made b (rest-In b i).0;
      unique = remove-HasUniqueKeys the_key s.entries r.unique;
      sized = omega (
        arith,
        r.sized,
        length-remove the_key s.entries a r.unique (r.mapped a stands),
        length-reverse_aux {0} ls zs,
        length-reverse_aux {0} ls (a ∷ zs),
      );
    }

  pub item-same : (new old : Links V) (b : ℕ) → SameContents new old → item_of new b ≡ item_of old b
  item-same new old b same = ap₂ (λ k e. (k, e)) (same b).0 (same b).1

  -- Evicting a node that the map finds removes its key.
  pub evict-Holds :
      (s : MemoryCacheStore V) (items : Items V) (k : String) (a : ℕ)
      → Holds s items
      → lookup k s.entries ≡ some a
      → Holds (evict a s) (remove k items)
  unfolding evict
  evict-Holds s items k a (xs, r, e) found =
      let (i, named) = r.listed k a found in
      let (ls, zs, cut) = split_at a xs [] i in
      let r' : Represents s (reverse_aux ls (a ∷ zs)) = subst (Represents s) cut r in
      (
        reverse_aux ls zs,
        evict-Represents s a ls zs r',
        items-remove s a ls zs r' (remove_node a s.links) (λ b j.
              item-same (remove_node a s.links) s.links b (remove_node-SameContents a s.links))
            ∙ ap₂ remove named (ap (map (item_of s.links)) (sym cut) ∙ e),
      )
