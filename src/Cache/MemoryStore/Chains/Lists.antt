-- ===== src/Cache/MemoryStore/Chains/Lists.antt =====
-- Lists of addresses without repetition, and the two ways along the links of the nodes.
use mathlib.Core.List.{reverse_aux}
use armstrong_bot.Prelude.{
  ℕ, ◌≡◌, ◌≢◌, ◌⊎◌, ◌↔◌, inl, inr, refl, List, [], ◌∷◌, Option, none, some, In, arith, ◌∙◌,
}
use armstrong_bot.Cache.MemoryStore.{LruNode, Links, or_else}

abbrev pub first : List ℕ → Option ℕ
first [] = none
first (x ∷ xs) = some x

abbrev pub last : List ℕ → Option ℕ
last [] = none
last (x ∷ xs) = or_else (last xs) x

abbrev pub or_option : Option ℕ → Option ℕ → Option ℕ
or_option none q = q
or_option (some a) q = some a

abbrev pub IsDistinct : List ℕ → Type 0
IsDistinct [] = Unit
IsDistinct (x ∷ xs) = (¬ In x xs) × IsDistinct xs

abbrev pub Disjoint : List ℕ → List ℕ → Type 0
Disjoint xs ys = (y : ℕ) → In y xs → ¬ In y ys

pub first-reverse_aux :
    (ls zs : List ℕ) → first (reverse_aux ls zs) ≡ or_option (last ls) (first zs)
first-reverse_aux [] zs = refl
first-reverse_aux (l ∷ ls) zs = ground (arith, first-reverse_aux ls (l ∷ zs))

pub last-reverse_aux : (ls zs : List ℕ) → last (reverse_aux ls zs) ≡ or_option (last zs) (first ls)
last-reverse_aux [] zs = ground arith
last-reverse_aux (l ∷ ls) zs = ground (arith, last-reverse_aux ls (l ∷ zs))

pub In-last : (xs : List ℕ) (x : ℕ) → last xs ≡ some x → In x xs
In-last [] x h = cc
In-last (y ∷ xs) x h = ground (arith, In-last xs x)

pub In-reverse_aux : (y : ℕ) (ls zs : List ℕ) → In y (reverse_aux ls zs) ↔ (In y ls ⊎ In y zs)
In-reverse_aux y [] zs = ground arith
In-reverse_aux y (l ∷ ls) zs = ground (arith, In-reverse_aux y ls (l ∷ zs))

pub IsDistinct-reverse_aux :
    (ls zs : List ℕ)
    → IsDistinct (reverse_aux ls zs) ↔ (IsDistinct ls × IsDistinct zs × Disjoint ls zs)
IsDistinct-reverse_aux [] zs = (λ d. (tt, d, λ y i j. absurd i), λ d. d.1)
IsDistinct-reverse_aux (l ∷ ls) zs =
    let both = IsDistinct-reverse_aux ls (l ∷ zs) in
    (
      λ d.
          let (dl, (new, dz), apart) = both.0 d in
          (
            (λ i. apart l i (inl refl), dl),
            dz,
            λ y i j. elim i [ inl e ↦ new (ground arith) | inr k ↦ apart y k (inr j) ],
          ),
      λ d.
          let ((new, dl), dz, apart) = d in
          both.1 (
            dl,
            (λ i. apart l (inl refl) i, dz),
            λ y i j. elim j [ inl e ↦ new (ground arith) | inr k ↦ apart y (inr i) k ],
          ),
    )

-- A member of a list stands between those before it, the nearest first, and those behind it.
pub split_at :
    (a : ℕ) (xs acc : List ℕ)
    → In a xs
    → (ls : List ℕ) × (zs : List ℕ) × (reverse_aux acc xs ≡ reverse_aux ls (a ∷ zs))
split_at a [] acc i = absurd i
split_at a (x ∷ xs) acc i = elim i [ inl e ↦ (acc, xs, rw e) | inr k ↦ split_at a xs (x ∷ acc) k ]

module _ {V : Type 0} where
  -- From a node that follows `p` on to the tail.
  abbrev pub Forth : (ℕ → LruNode V) → Option ℕ → List ℕ → Type 0
  Forth nodes p [] = Unit
  Forth nodes p (x ∷ xs) =
      ((nodes x).prev ≡ p) × ((nodes x).next ≡ first xs) × Forth nodes (some x) xs

  -- From a node that `n` follows back to the head.
  abbrev pub Back : (ℕ → LruNode V) → Option ℕ → List ℕ → Type 0
  Back nodes n [] = Unit
  Back nodes n (x ∷ xs) =
      ((nodes x).next ≡ n) × ((nodes x).prev ≡ first xs) × Back nodes (some x) xs

  pub Forth-split :
      (nodes : ℕ → LruNode V) (ls zs : List ℕ)
      → Forth nodes none (reverse_aux ls zs)
      → Back nodes (first zs) ls × Forth nodes (first ls) zs
  Forth-split nodes [] zs h = (tt, h)
  Forth-split nodes (l ∷ ls) zs h =
      let (back, (prev, next, forth)) = Forth-split nodes ls (l ∷ zs) h in
      ((next, prev, back), forth)

  pub Forth-join :
      (nodes : ℕ → LruNode V) (ls zs : List ℕ)
      → Back nodes (first zs) ls
      → Forth nodes (first ls) zs
      → Forth nodes none (reverse_aux ls zs)
  Forth-join nodes [] zs back forth = forth
  Forth-join nodes (l ∷ ls) zs back forth =
      Forth-join nodes ls (l ∷ zs) back.2 (back.1, back.0, forth)

  -- The same links at an address.
  abbrev pub SameAt : (ℕ → LruNode V) → (ℕ → LruNode V) → ℕ → Type 0
  SameAt new old a = ((new a).prev ≡ (old a).prev) × ((new a).next ≡ (old a).next)

  pub Forth-same :
      (new old : ℕ → LruNode V) (p : Option ℕ) (xs : List ℕ)
      → ((y : ℕ) → In y xs → SameAt new old y)
      → Forth old p xs
      → Forth new p xs
  Forth-same new old p [] same h = tt
  Forth-same new old p (x ∷ xs) same h =
      let (prev, next) = same x (inl refl) in
      (prev ∙ h.0, next ∙ h.1, Forth-same new old (some x) xs (λ y i. same y (inr i)) h.2)

  pub Back-same :
      (new old : ℕ → LruNode V) (n : Option ℕ) (xs : List ℕ)
      → ((y : ℕ) → In y xs → SameAt new old y)
      → Back old n xs
      → Back new n xs
  Back-same new old n [] same h = tt
  Back-same new old n (x ∷ xs) same h =
      let (prev, next) = same x (inl refl) in
      (next ∙ h.0, prev ∙ h.1, Back-same new old (some x) xs (λ y i. same y (inr i)) h.2)

  pub record IsChain (l : Links V) (xs : List ℕ) : Type 0 where
    pub forth : Forth l.nodes none xs
    pub head : l.head ≡ first xs
    pub tail : l.tail ≡ last xs
    pub distinct : IsDistinct xs

pub first-ne : (a : ℕ) (xs : List ℕ) → ¬ In a xs → first xs ≢ some a
first-ne a [] new = λ e. cc
first-ne a (x ∷ xs) new = λ e. new (inl (cc))

pub last-ne : (a : ℕ) (xs : List ℕ) → ¬ In a xs → last xs ≢ some a
last-ne a xs new = λ e. new (In-last xs a e)

pub first-ne-later : (x y : ℕ) (xs : List ℕ) → ¬ In x xs → In y xs → first (x ∷ xs) ≢ some y
first-ne-later x y xs new i = λ e. new (ground arith)
