-- ===== src/Cache/MemoryStore/Chains/Removing.antt =====
-- src/cache/stores/memory-cache.store.ts: what removeNode does to the links of the other nodes.
use mathlib.Core.List.{reverse_aux}
use armstrong_bot.Prelude.{
  ℕ, ◌≡◌, ◌≢◌, ◌↔◌, inl, inr, refl, List, [], ◌∷◌, Option, none, some, In, arith, ◌∙◌,
  if◌then◌else◌, sym, subst, true,
}
use armstrong_bot.Cache.MemoryStore.{LruNode, Links, or_else, is_at, remove_node}
use armstrong_bot.Cache.MemoryStore.Chains.Lists.{
  first-ne, last-ne, first-ne-later, first, last, or_option, IsDistinct, Disjoint,
  first-reverse_aux, last-reverse_aux, IsDistinct-reverse_aux, Forth, Back, Forth-split, Forth-join,
  SameAt, Forth-same, Back-same, IsChain,
}

is_at_iff : (o : Option ℕ) (b : ℕ) → (is_at o b ≡ true) ↔ (o ≡ some b)
is_at_iff none b = ground arith
is_at_iff (some a) b = ground arith

module _ {V : Type 0} (new old : ℕ → LruNode V) (a : ℕ) where
  -- The links of all nodes but `a`, once `p` is linked to `n`.
  abbrev Joins : Option ℕ → Option ℕ → Type 0
  Joins p n =
      (b : ℕ)
      → a ≢ b
      → ((new b).prev ≡ (if is_at n b then p else (old b).prev))
        × ((new b).next ≡ (if is_at p b then n else (old b).next))

  Joins-SameAt :
      (p n : Option ℕ) (b : ℕ) → Joins p n → a ≢ b → p ≢ some b → n ≢ some b → SameAt new old b
  Joins-SameAt p n b joins other np nn = ground (arith, joins b other, is_at_iff p b, is_at_iff n b)

  Back-joined :
      (ls zs : List ℕ)
      → IsDistinct ls
      → Disjoint ls (a ∷ zs)
      → Joins (first ls) (first zs)
      → Back old (some a) ls
      → Back new (first zs) ls
  Back-joined [] zs d apart joins h = tt
  Back-joined (p ∷ ls) zs d apart joins h =
      let other : a ≢ p = λ e. apart p (inl refl) (inl (sym e)) in
      let behind = first-ne p zs (λ i. apart p (inl refl) (inr i)) in
      (
        ground (arith, joins p other),
        ground (arith, joins p other, h.1, is_at_iff (first zs) p),
        Back-same new old (some p) ls
            (λ y i.
              Joins-SameAt (some p) (first zs) y joins (λ e. apart y (inr i) (inl (sym e)))
                (first-ne-later p y ls d.0 i) (first-ne y zs (λ j. apart y (inr i) (inr j))))
            h.2,
      )

  Forth-joined :
      (ls zs : List ℕ)
      → IsDistinct (a ∷ zs)
      → Disjoint ls (a ∷ zs)
      → Joins (first ls) (first zs)
      → Forth old (some a) zs
      → Forth new (first ls) zs
  Forth-joined ls [] d apart joins h = tt
  Forth-joined ls (n ∷ zs) d apart joins h =
      let other : a ≢ n = λ e. d.0 (inl e) in
      let before = first-ne n ls (λ i. apart n i (inr (inl refl))) in
      (
        ground (arith, joins n other),
        ground (arith, joins n other, h.1, is_at_iff (first ls) n),
        Forth-same new old (some n) zs
            (λ y i.
              Joins-SameAt (first ls) (some n) y joins
                (λ e. d.0 (inr (subst (λ x. In x zs) (sym e) i)))
                (first-ne y ls (λ j. apart y j (inr (inr i)))) (first-ne-later n y zs d.1.0 i))
            h.2,
      )

module _ {V : Type 0} (l : Links V) (a : ℕ) where
  -- The node's neighbours are joined, and the links of no other node change.
  remove_node-links :
      (p n : Option ℕ) (b : ℕ)
      → (l.nodes a).prev ≡ p
      → (l.nodes a).next ≡ n
      → p ≢ some a
      → n ≢ some a
      → a ≢ b
      → (((remove_node a l).nodes b).prev ≡ (if is_at n b then p else (l.nodes b).prev))
        × (((remove_node a l).nodes b).next ≡ (if is_at p b then n else (l.nodes b).next))
  unfolding remove_node
  remove_node-links none none b hp hn np nn ne = ground arith
  remove_node-links none (some n) b hp hn np nn ne = ground arith
  remove_node-links (some p) none b hp hn np nn ne = ground arith
  remove_node-links (some p) (some n) b hp hn np nn ne = ground arith

  remove_node-ends :
      (p n : Option ℕ)
      → (l.nodes a).prev ≡ p
      → (l.nodes a).next ≡ n
      → p ≢ some a
      → n ≢ some a
      → ((remove_node a l).head ≡ (if is_at l.head a then n else l.head))
        × ((remove_node a l).tail ≡ (if is_at l.tail a then p else l.tail))
  unfolding remove_node
  remove_node-ends none none hp hn np nn = ground arith
  remove_node-ends none (some n) hp hn np nn = ground arith
  remove_node-ends (some p) none hp hn np nn = ground arith
  remove_node-ends (some p) (some n) hp hn np nn = ground arith

  or_option-at :
      (o n : Option ℕ)
      → o ≢ some a
      → (if is_at (or_option o (some a)) a then n else or_option o (some a)) ≡ or_option o n
  or_option-at none n ne = ground arith
  or_option-at (some q) n ne = ground arith

  or_else-at :
      (o n : Option ℕ)
      → o ≢ some a
      → (if is_at (or_option (or_else o a) n) a then n else or_option (or_else o a) n)
        ≡ or_option o n
  or_else-at none n ne = ground arith
  or_else-at (some q) n ne = ground arith

  module _ (ls zs : List ℕ) (chain : IsChain l (reverse_aux ls (a ∷ zs))) where
    abbrev apart_lem : IsDistinct ls × (IsDistinct (a ∷ zs)) × Disjoint ls (a ∷ zs)
    apart_lem = (IsDistinct-reverse_aux ls (a ∷ zs)).0 chain.distinct

    abbrev links_lem :
        Back l.nodes (some a) ls
        × (((l.nodes a).prev ≡ first ls)
            × ((l.nodes a).next ≡ first zs)
            × Forth l.nodes (some a) zs)
    links_lem = Forth-split l.nodes ls (a ∷ zs) chain.forth

    not_before : ¬ In a ls
    not_before i = apart_lem.2 a i (inl refl)

    not_behind : ¬ In a zs
    not_behind = apart_lem.1.0

    remove_node-Joins : Joins (remove_node a l).nodes l.nodes a (first ls) (first zs)
    remove_node-Joins b other =
        remove_node-links (first ls) (first zs) b links_lem.1.0 links_lem.1.1
          (first-ne a ls not_before) (first-ne a zs not_behind) other

    abbrev ends_lem :
        ((remove_node a l).head ≡ (if is_at l.head a then first zs else l.head))
        × ((remove_node a l).tail ≡ (if is_at l.tail a then first ls else l.tail))
    ends_lem =
        remove_node-ends (first ls) (first zs) links_lem.1.0 links_lem.1.1
          (first-ne a ls not_before) (first-ne a zs not_behind)

    remove_node-head : (remove_node a l).head ≡ first (reverse_aux ls zs)
    remove_node-head =
        ends_lem.0
        ∙ rw (chain.head, first-reverse_aux ls (a ∷ zs), first-reverse_aux ls zs)
            (or_option-at (last ls) (first zs) (last-ne a ls not_before))

    remove_node-tail : (remove_node a l).tail ≡ last (reverse_aux ls zs)
    remove_node-tail =
        ends_lem.1
        ∙ rw (chain.tail, last-reverse_aux ls (a ∷ zs), last-reverse_aux ls zs)
            (or_else-at (last zs) (first ls) (last-ne a zs not_behind))

    -- Without the node, what stood before it and behind it is a chain.
    pub remove_node-IsChain : IsChain (remove_node a l) (reverse_aux ls zs)
    remove_node-IsChain = record {
      forth =
          Forth-join (remove_node a l).nodes ls zs
            (Back-joined (remove_node a l).nodes l.nodes a ls zs apart_lem.0 apart_lem.2
              remove_node-Joins links_lem.0)
            (Forth-joined (remove_node a l).nodes l.nodes a ls zs apart_lem.1 apart_lem.2
              remove_node-Joins links_lem.1.2);
      head = remove_node-head;
      tail = remove_node-tail;
      distinct =
          (IsDistinct-reverse_aux ls zs).1
            (apart_lem.0, apart_lem.1.1, λ y i j. apart_lem.2 y i (inr j));
    }
