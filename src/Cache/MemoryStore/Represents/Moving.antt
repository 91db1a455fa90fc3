-- ===== src/Cache/MemoryStore/Represents/Moving.antt =====
-- src/cache/stores/memory-cache.store.ts: a node that is moved to the head, and a node that is new
-- there, in terms of the items.
use mathlib.Core.List.{reverse_aux}
use mathlib.Core.Path.{ap₂}
use native.Mathlib.Decide.{ℕ_discrete}
use armstrong_bot.Prelude.{
  ℕ, ◌≡◌, ◌≢◌, inl, inr, refl, sym, ap, ◌∙◌, subst, String, List, [], ◌∷◌, none, some, In, arith,
  lookup, remove, map,
}
use armstrong_bot.Cache.MemoryStore.Lru.{Items}
use armstrong_bot.Cache.MemoryStore.{
  MemoryCacheStore, CacheEntry, Links, remove_node, move_to_head, set_entry, set_old, missed,
}
use armstrong_bot.Cache.MemoryStore.Chains.Lists.{split_at, IsChain, SameAt, Forth-same}
use armstrong_bot.Cache.MemoryStore.Chains.Removing.{remove_node-IsChain}
use armstrong_bot.Cache.MemoryStore.Chains.Heading.{
  SameContents, remove_node-SameContents, add_to_head-SameContents, add_to_head-IsChain,
}
use armstrong_bot.Cache.MemoryStore.Represents.{item_of, Represents, Holds}
use armstrong_bot.Cache.MemoryStore.Represents.Keyed.{length-reverse_aux, remove-same}
use armstrong_bot.Cache.MemoryStore.Represents.Evicting.{
  stands, rest-In, In-rest, items-remove, item-same,
}

module _ {V : Type 0} where
  pub missed-Holds :
      (s : MemoryCacheStore V) (items : Items V) → Holds s items → Holds (missed s) items
  missed-Holds s items (xs, r, e) = (
    xs,
    record {
      chain = r.chain;
      mapped = r.mapped;
      listed = r.listed;
      made = r.made;
      unique = r.unique;
      sized = r.sized;
    },
    e,
  )

  pub move_to_head-SameContents : (a : ℕ) (l : Links V) → SameContents (move_to_head a l) l
  unfolding move_to_head
  move_to_head-SameContents a l b =
      let (k1, e1) = add_to_head-SameContents a (remove_node a l) b in
      let (k2, e2) = remove_node-SameContents a l b in (k1 ∙ k2, e1 ∙ e2)

  module _ (s : MemoryCacheStore V) (a : ℕ) (ls zs : List ℕ)
      (r : Represents s (reverse_aux ls (a ∷ zs))) where
    move_to_head-IsChain : IsChain (move_to_head a s.links) (a ∷ reverse_aux ls zs)
    unfolding move_to_head
    move_to_head-IsChain =
        add_to_head-IsChain a (remove_node a s.links) (reverse_aux ls zs)
          (remove_node-IsChain s.links a ls zs r.chain) (λ i. (rest-In s a ls zs r a i).1 refl)

    -- Any store with the node in front, the same keys and the same map.
    pub moved-Represents :
        (t : MemoryCacheStore V)
        → t.links ≡ move_to_head a s.links
        → t.entries ≡ s.entries
        → t.fresh ≡ s.fresh
        → Represents t (a ∷ reverse_aux ls zs)
    moved-Represents t moved entries fresh = record {
      chain = subst (λ l. IsChain l (a ∷ reverse_aux ls zs)) (sym moved) move_to_head-IsChain;
      mapped = λ b i.
          rw (moved, entries, (move_to_head-SameContents a s.links b).0) (r.mapped b (within b i));
      listed = λ k b h.
          let (i, e) = r.listed k b (rw entries at h) in
          (behind b i, rw moved ((move_to_head-SameContents a s.links b).0 ∙ e));
      made = λ b i. rw fresh (r.made b (within b i));
      unique = rw entries r.unique;
      sized = rw entries (
          omega (arith, r.sized, length-reverse_aux {0} ls zs, length-reverse_aux {0} ls (a ∷ zs)));
    }
      where
        within : (b : ℕ) → In b (a ∷ reverse_aux ls zs) → In b (reverse_aux ls (a ∷ zs))
        within b i = elim i [
          | inl e ↦ subst (λ x. In x (reverse_aux ls (a ∷ zs))) (sym e) (stands s a ls zs r)
          | inr j ↦ (rest-In s a ls zs r b j).0
        ]

        behind : (b : ℕ) → In b (reverse_aux ls (a ∷ zs)) → In b (a ∷ reverse_aux ls zs)
        behind b i = elim (ℕ_discrete b a) [
          | yes e ↦ inl e
          | no ne ↦ inr (In-rest s a ls zs r b i ne)
        ]

  -- A store whose node of a key moved to the head holds that key first.
  pub moved-Holds :
      (s t : MemoryCacheStore V) (items : Items V) (k : String) (a : ℕ)
      → Holds s items
      → lookup k s.entries ≡ some a
      → t.links ≡ move_to_head a s.links
      → t.entries ≡ s.entries
      → t.fresh ≡ s.fresh
      → Holds t ((k, (s.links.nodes a).entry) ∷ remove k items)
  moved-Holds s t items k a (xs, r, e) found moved entries fresh =
      let (i, named) = r.listed k a found in
      let (ls, zs, cut) = split_at a xs [] i in
      let r' : Represents s (reverse_aux ls (a ∷ zs)) = subst (Represents s) cut r in
      let same = move_to_head-SameContents a s.links in
      (
        a ∷ reverse_aux ls zs,
        moved-Represents s a ls zs r' t moved entries fresh,
        ap (λ l. map (item_of l) (a ∷ reverse_aux ls zs)) moved
            ∙ ap₂ (λ j v. (j, v) ∷ map (item_of (move_to_head a s.links)) (reverse_aux ls zs))
                ((same a).0 ∙ named) (same a).1
            ∙ ap (◌∷◌ (k, (s.links.nodes a).entry)) (
                items-remove s a ls zs r' (move_to_head a s.links)
                  (λ b j. item-same (move_to_head a s.links) s.links b same)
                ∙ ap₂ remove named (ap (map (item_of s.links)) (sym cut) ∙ e)),
      )

  abbrev entered : CacheEntry V → ℕ → MemoryCacheStore V → MemoryCacheStore V
  entered entry a s = record s { links = set_entry entry a s.links }

  set_entry-key :
      (entry : CacheEntry V) (a b : ℕ) (l : Links V)
      → ((set_entry entry a l).nodes b).key ≡ (l.nodes b).key
  set_entry-key entry a b l = ground arith

  set_entry-SameAt :
      (entry : CacheEntry V) (a b : ℕ) (l : Links V) → SameAt (set_entry entry a l).nodes l.nodes b
  set_entry-SameAt entry a b l = ground arith

  set_entry_self :
      (entry : CacheEntry V) (a : ℕ) (l : Links V) → ((set_entry entry a l).nodes a).entry ≡ entry
  set_entry_self entry a l = ground arith

  set_entry-other :
      (entry : CacheEntry V) (a b : ℕ) (l : Links V)
      → a ≢ b
      → ((set_entry entry a l).nodes b).entry ≡ (l.nodes b).entry
  set_entry-other entry a b l ne = ground arith

  entered-Represents :
      (s : MemoryCacheStore V) (xs : List ℕ) (entry : CacheEntry V) (a : ℕ)
      → Represents s xs
      → Represents (entered entry a s) xs
  entered-Represents s xs entry a r = record {
    chain = record {
      forth =
          Forth-same (set_entry entry a s.links).nodes s.links.nodes none xs
            (λ y i. set_entry-SameAt entry a y s.links) r.chain.forth;
      head = r.chain.head;
      tail = r.chain.tail;
      distinct = r.chain.distinct;
    };
    mapped = λ b i. rw (set_entry-key entry a b s.links) (r.mapped b i);
    listed = λ k b h. ((r.listed k b h).0, set_entry-key entry a b s.links ∙ (r.listed k b h).1);
    made = r.made;
    unique = r.unique;
    sized = r.sized;
  }

  -- A new entry changes no item but the one of its key.
  entered-items :
      (s : MemoryCacheStore V) (xs : List ℕ) (entry : CacheEntry V) (k : String) (a : ℕ)
      → Represents s xs
      → lookup k s.entries ≡ some a
      → remove k (map (item_of (set_entry entry a s.links)) xs)
        ≡ remove k (map (item_of s.links) xs)
  entered-items s xs entry k a r found =
      remove-same s.links k (set_entry entry a s.links) xs (λ b. set_entry-key entry a b s.links)
        (λ b i ne.
          set_entry-other entry a b s.links
            (λ e. ne (ap (λ x. (s.links.nodes x).key) (sym e) ∙ (r.listed k a found).1)))

  pub set_old-Holds :
      (s : MemoryCacheStore V) (items : Items V) (entry : CacheEntry V) (k : String) (a : ℕ)
      → Holds s items
      → lookup k s.entries ≡ some a
      → Holds (set_old a entry s) ((k, entry) ∷ remove k items)
  unfolding set_old
  set_old-Holds s items entry k a (xs, r, e) found =
      let h =
        moved-Holds (entered entry a s) (set_old a entry s)
          (map (item_of (set_entry entry a s.links)) xs) k a
          (xs, entered-Represents s xs entry a r, refl) found refl refl refl in
      subst (Holds (set_old a entry s))
        (ap₂ (λ v rest. (k, v) ∷ rest) (set_entry_self entry a s.links)
          (entered-items s xs entry k a r found ∙ ap (remove k) e))
        h
