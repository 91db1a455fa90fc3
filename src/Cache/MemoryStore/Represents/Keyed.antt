-- ===== src/Cache/MemoryStore/Represents/Keyed.antt =====
-- Maps from keys and lists of items by key, for src/cache/stores/memory-cache.store.ts.
use mathlib.Core.List.{reverse_aux}
use armstrong_bot.Prelude.{
  ℕ, ◌+◌, ◌≡◌, ◌≢◌, inl, inr, refl, String, List, [], ◌∷◌, none, some, In, arith, length, lookup,
  insert, remove, lookup-insert, lookup-remove, map, eq_iff,
}
use armstrong_bot.Cache.MemoryStore.{Links}
use armstrong_bot.Cache.MemoryStore.Represents.{HasUniqueKeys, item_of}

pub length-reverse_aux {ℓ} :
    {A : Type ℓ} (ls zs : List A) → length (reverse_aux ls zs) ≡ length ls + length zs
length-reverse_aux [] zs = omega arith
length-reverse_aux (l ∷ ls) zs = omega (arith, length-reverse_aux ls (l ∷ zs))

pub map-reverse_aux {ℓ κ} :
    {A : Type ℓ} {B : Type κ} (f : A → B) (ls zs : List A)
    → map f (reverse_aux ls zs) ≡ reverse_aux (map f ls) (map f zs)
map-reverse_aux f [] zs = refl
map-reverse_aux f (l ∷ ls) zs = map-reverse_aux f ls (l ∷ zs)

pub length-map {ℓ κ} :
    {A : Type ℓ} {B : Type κ} (f : A → B) (xs : List A) → length (map f xs) ≡ length xs
length-map f [] = refl
length-map f (x ∷ xs) = omega (arith, length-map f xs)

module _ {W : Type 0} where
  pub remove_absent : (k : String) (m : List (String × W)) → lookup k m ≡ none → remove k m ≡ m
  remove_absent k [] h = refl
  remove_absent k ((j, w) ∷ m) h = ground (arith, remove_absent k m)

  pub length-remove :
      (k : String) (m : List (String × W)) (w : W)
      → HasUniqueKeys m
      → lookup k m ≡ some w
      → length (remove k m) + 1 ≡ length m
  length-remove k [] w u h = cc
  length-remove k ((j, v) ∷ m) w u h =
      ground (arith, eq_iff j k, length-remove k m w, remove_absent k m)

  pub remove-HasUniqueKeys :
      (k : String) (m : List (String × W)) → HasUniqueKeys m → HasUniqueKeys (remove k m)
  remove-HasUniqueKeys k [] u = tt
  remove-HasUniqueKeys k ((j, v) ∷ m) u =
      ground (arith, eq_iff j k, remove-HasUniqueKeys k m, lookup-remove k j m)

  pub insert_new :
      (k : String) (w : W) (m : List (String × W))
      → HasUniqueKeys m
      → lookup k m ≡ none
      → HasUniqueKeys (insert k w m) × (length (insert k w m) ≡ length m + 1)
  insert_new k w [] u h = (ground arith, omega arith)
  insert_new k w ((j, v) ∷ m) u h =
      ground (arith, eq_iff j k, eq_iff k j, insert_new k w m, lookup-insert k j w m)

  pub remove-reverse_aux :
      (k : String) (ls zs : List (String × W))
      → remove k (reverse_aux ls zs) ≡ reverse_aux (remove k ls) (remove k zs)
  remove-reverse_aux k [] zs = refl
  remove-reverse_aux k ((j, v) ∷ ls) zs = ground (arith, remove-reverse_aux k ls ((j, v) ∷ zs))

module _ {V : Type 0} (l : Links V) where
  -- A key that no node has is not among the items.
  pub lookup-items_none :
      (k : String) (xs : List ℕ)
      → ((a : ℕ) → In a xs → (l.nodes a).key ≢ k)
      → lookup k (map (item_of l) xs) ≡ none
  lookup-items_none k [] h = refl
  lookup-items_none k (x ∷ xs) h =
      ground (
        arith,
        eq_iff (l.nodes x).key k,
        h x (inl refl),
        lookup-items_none k xs (λ a i. h a (inr i)),
      )

  -- The items give the entry of the only node that has the key.
  pub lookup-items_some :
      (k : String) (a : ℕ) (xs : List ℕ)
      → In a xs
      → (l.nodes a).key ≡ k
      → ((b : ℕ) → In b xs → (l.nodes b).key ≡ k → b ≡ a)
      → lookup k (map (item_of l) xs) ≡ some (l.nodes a).entry
  lookup-items_some k a [] i e only = absurd i
  lookup-items_some k a (x ∷ xs) i e only = ground (
    arith,
    eq_iff (l.nodes x).key k,
    only x (inl refl),
    λ (j : In a xs). lookup-items_some k a xs j e (λ b ib. only b (inr ib)),
  )

  pub items-same :
      (new : Links V) (xs : List ℕ)
      → ((b : ℕ) → In b xs → item_of new b ≡ item_of l b)
      → map (item_of new) xs ≡ map (item_of l) xs
  items-same new [] h = refl
  items-same new (x ∷ xs) h = ground (arith, h x (inl refl), items-same new xs (λ b i. h b (inr i)))

  -- Without a key, links that agree on all other items give the same list.
  pub remove-same :
      (k : String) (new : Links V) (xs : List ℕ)
      → ((b : ℕ) → (new.nodes b).key ≡ (l.nodes b).key)
      → ((b : ℕ) → In b xs → (l.nodes b).key ≢ k → (new.nodes b).entry ≡ (l.nodes b).entry)
      → remove k (map (item_of new) xs) ≡ remove k (map (item_of l) xs)
  remove-same k new [] keys entries = refl
  remove-same k new (x ∷ xs) keys entries = ground (
    arith,
    keys x,
    eq_iff (l.nodes x).key k,
    entries x (inl refl),
    remove-same k new xs keys (λ b i. entries b (inr i)),
  )
