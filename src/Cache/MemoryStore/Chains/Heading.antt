-- ===== src/Cache/MemoryStore/Chains/Heading.antt =====
-- src/cache/stores/memory-cache.store.ts: addToHead puts a node in front of the chain, and the
-- changes of the links leave the keys and the entries alone.
use armstrong_bot.Prelude.{
  ℕ, ◌≡◌, ◌≢◌, inl, inr, refl, ap, ◌∙◌, List, [], ◌∷◌, Option, none, some, In, arith,
}
use armstrong_bot.Cache.MemoryStore.{Links, or_else, remove_node, add_to_head, bypass_next}
use armstrong_bot.Cache.MemoryStore.Chains.Lists.{
  first, Forth, SameAt, Forth-same, IsChain, first-ne,
}

-- The same key and entry at every address.
abbrev pub SameContents : {V : Type 0} → Links V → Links V → Type 0
SameContents new old =
    (b : ℕ) → ((new.nodes b).key ≡ (old.nodes b).key) × ((new.nodes b).entry ≡ (old.nodes b).entry)

module _ {V : Type 0} (a : ℕ) (l : Links V) where
  add_to_head-SameAt : (b : ℕ) → a ≢ b → l.head ≢ some b → SameAt (add_to_head a l).nodes l.nodes b
  unfolding add_to_head
  add_to_head-SameAt b other ne =
      elim (l.head)
          as (λ h. h ≢ some b → SameAt (add_to_head a (record l { head = h })).nodes l.nodes b) [
            | none ↦ λ n. ground arith
            | some h ↦ λ n. ground arith
          ]
        ne

  add_to_head_lem :
      (h : Option ℕ)
      → l.head ≡ h
      → h ≢ some a
      → (((add_to_head a l).nodes a).prev ≡ none)
        × (((add_to_head a l).nodes a).next ≡ h)
        × ((add_to_head a l).tail ≡ or_else l.tail a)
  unfolding add_to_head
  add_to_head_lem none e ne = ground arith
  add_to_head_lem (some h) e ne = ground arith

  add_to_head-first :
      (h : ℕ)
      → l.head ≡ some h
      → a ≢ h
      → (((add_to_head a l).nodes h).prev ≡ some a)
        × (((add_to_head a l).nodes h).next ≡ (l.nodes h).next)
  unfolding add_to_head
  add_to_head-first h e ne = ground arith

  add_to_head-Forth :
      (xs : List ℕ)
      → l.head ≡ first xs
      → IsChain l xs
      → ¬ In a xs
      → Forth (add_to_head a l).nodes (some a) xs
  add_to_head-Forth [] e chain new = tt
  add_to_head-Forth (x ∷ xs) e chain new =
      let other : a ≢ x = λ s. new (inl s) in
      let (prev, next) = add_to_head-first x e other in
      (
        prev,
        ground (arith, next, chain.forth.1),
        Forth-same (add_to_head a l).nodes l.nodes (some x) xs
            (λ y i.
              add_to_head-SameAt y (λ s. new (inr (ground arith)))
                (λ s. chain.distinct.0 (ground arith)))
            chain.forth.2,
      )

  -- A node that was not in the chain becomes its first.
  pub add_to_head-IsChain :
      (xs : List ℕ) → IsChain l xs → ¬ In a xs → IsChain (add_to_head a l) (a ∷ xs)
  unfolding add_to_head
  add_to_head-IsChain xs chain new =
      let (prev, next, tail) = add_to_head_lem (first xs) chain.head (first-ne a xs new) in
      record {
        forth = (prev, next, add_to_head-Forth xs chain.head chain new);
        head = refl;
        tail = tail ∙ ap (λ t. or_else t a) chain.tail;
        distinct = (new, chain.distinct);
      }

  pub add_to_head-SameContents : SameContents (add_to_head a l) l
  unfolding add_to_head
  add_to_head-SameContents b =
      elim (l.head)
        as (λ h.
          ((((add_to_head a (record l { head = h })).nodes b).key ≡ (l.nodes b).key)
            × (((add_to_head a (record l { head = h })).nodes b).entry ≡ (l.nodes b).entry))) [
              | none ↦ ground arith
              | some h ↦ ground arith
            ]

  remove_node-contents :
      (p n : Option ℕ) (b : ℕ)
      → (l.nodes a).prev ≡ p
      → ((bypass_next a l).nodes a).next ≡ n
      → (((remove_node a l).nodes b).key ≡ (l.nodes b).key)
        × (((remove_node a l).nodes b).entry ≡ (l.nodes b).entry)
  unfolding remove_node
  remove_node-contents none none b hp hn = ground arith
  remove_node-contents none (some n) b hp hn = ground arith
  remove_node-contents (some p) none b hp hn = ground arith
  remove_node-contents (some p) (some n) b hp hn = ground arith

  pub remove_node-SameContents : SameContents (remove_node a l) l
  remove_node-SameContents b = remove_node-contents _ _ b refl refl
