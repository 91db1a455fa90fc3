-- ===== src/Prelude/Lists.antt =====
-- Lists measured by native numbers, membership of texts, and dictionaries keyed by texts.
use Prim.Native.Nat.{ℕ, suc, ◌+◌}
use Prim.Native.Char.{code}
use Prim.Native.String.{String}
use mathlib.Core.Path.{◌≡◌, refl, sym, subst}
use mathlib.Core.Bool.{Bool, true, false, ◌||◌, ◌&&◌}
use mathlib.Core.Logic.{◌⊎◌, ◌↔◌, inl, inr}
use mathlib.Core.List.{List, [], ◌∷◌, ◌++◌}
use mathlib.Core.Option.{Option, none, some}
use native.Mathlib.Omega.{arith}
use text.Mathlib.Text.{◌==◌}
use text.Mathlib.TextEquality.{eq_iff}
use armstrong_bot.Prelude.Tests.{eqb, if◌then◌else◌}

module _ {ℓ} {A : Type ℓ} where
  abbrev pub length : List A → ℕ
  length [] = 0
  length (x ∷ xs) = suc (length xs)

  pub length-append : (xs ys : List A) → length (xs ++ ys) ≡ length xs + length ys
  length-append [] ys = omega arith
  length-append (x ∷ xs) ys = omega (arith, length-append xs ys)

  -- `Array.prototype.filter`
  abbrev pub filter : (A → Bool) → List A → List A
  filter p [] = []
  filter p (x ∷ xs) = let rest = filter p xs in if p x then x ∷ rest else rest

  -- `Array.prototype.find`
  abbrev pub find : (A → Bool) → List A → Option A
  find p [] = none
  find p (x ∷ xs) = let rest = find p xs in if p x then some x else rest

module _ {A : Type 0} where
  -- Membership, as a sum that the tactics open.
  abbrev pub In : A → List A → Type 0
  In a [] = ⊥
  In a (x ∷ xs) = (a ≡ x) ⊎ In a xs

  pub In-find : (p : A → Bool) (xs : List A) (x : A) → find p xs ≡ some x → In x xs × (p x ≡ true)
  In-find p [] x found = cc
  In-find p (y ∷ ys) x found = step (In-find p ys x) (p y) refl found
    where
      step :
          (find p ys ≡ some x → In x ys × (p x ≡ true))
          → (b : Bool) → p y ≡ b
          → (if b then some y else find p ys) ≡ some x
          → In x (y ∷ ys) × (p x ≡ true)
      step later true e here =
          let same : y ≡ x = cc in (inl (sym same), subst (λ z. p z ≡ true) same e)
      step later false e there = (inr (later there).0, (later there).1)

  pub In-append : (a : A) (xs ys : List A) → In a (xs ++ ys) ↔ (In a xs ⊎ In a ys)
  In-append a [] ys = (λ h. inr h, λ h. elim h [ inl e ↦ absurd e | inr k ↦ k ])
  In-append a (x ∷ xs) ys = ground (arith, In-append a xs ys)

module _ {ℓ κ} {A : Type ℓ} (P : A → Type κ) where
  abbrev pub All : List A → Type κ
  All [] = Unit
  All (x ∷ xs) = P x × All xs

  pub All-append : (xs ys : List A) → All xs → All ys → All (xs ++ ys)
  All-append [] ys h k = k
  All-append (x ∷ xs) ys h k = (h.0, All-append xs ys h.1 k)

-- `Array.prototype.includes`, `Set.prototype.has`
abbrev pub includes : String → List String → Bool
includes a [] = false
includes a (x ∷ xs) = x == a || includes a xs

pub includes_iff : (a : String) (xs : List String) → (includes a xs ≡ true) ↔ In a xs
includes_iff a [] = (λ h. cc, λ h. absurd h)
includes_iff a (x ∷ xs) = ground (arith, eq_iff x a, includes_iff a xs)

-- `===` of a text or null
abbrev pub same_option : Option String → Option String → Bool
same_option none none = true
same_option none (some _) = false
same_option (some _) none = false
same_option (some a) (some b) = a == b

pub same_option_iff : (a b : Option String) → (same_option a b ≡ true) ↔ (a ≡ b)
same_option_iff none none = (λ h. refl, λ h. refl)
same_option_iff none (some _) = (λ h. cc, λ h. cc)
same_option_iff (some _) none = (λ h. cc, λ h. cc)
same_option_iff (some a) (some b) = ground (arith, eq_iff a b)

-- `===` of texts that are given by their code units
abbrev pub same_codes : List ℕ → List ℕ → Bool
same_codes [] [] = true
same_codes [] (_ ∷ _) = false
same_codes (_ ∷ _) [] = false
same_codes (c ∷ s) (d ∷ t) = eqb c d && same_codes s t

pub same_codes_iff : (s t : List ℕ) → (same_codes s t ≡ true) ↔ (s ≡ t)
same_codes_iff [] [] = (λ h. refl, λ h. refl)
same_codes_iff [] (_ ∷ _) = (λ h. cc, λ h. cc)
same_codes_iff (_ ∷ _) [] = (λ h. cc, λ h. cc)
same_codes_iff (c ∷ s) (d ∷ t) = ground (arith, same_codes_iff s t)

-- A `Map`, or a `Record`, keyed by texts.
module _ {ℓ} {V : Type ℓ} where
  abbrev pub lookup : String → List (String × V) → Option V
  lookup k [] = none
  lookup key ((other, value) ∷ rest) = if other == key then some value else lookup key rest

  -- `Map.prototype.set`: an old key keeps its place.
  abbrev pub insert : String → V → List (String × V) → List (String × V)
  insert k v [] = (k, v) ∷ []
  insert k v ((j, w) ∷ m) = if j == k then (k, v) ∷ m else (j, w) ∷ insert k v m

  -- `Map.prototype.delete`
  abbrev pub remove : String → List (String × V) → List (String × V)
  remove k [] = []
  remove k ((j, w) ∷ m) = let rest = remove k m in if j == k then rest else (j, w) ∷ rest

  pub lookup-insert :
      (k j : String) (v : V) (m : List (String × V))
      → lookup j (insert k v m) ≡ (if k == j then some v else lookup j m)
  lookup-insert k j v [] = refl
  lookup-insert k j v ((i, w) ∷ m) =
      ground (arith, eq_iff k j, eq_iff i k, eq_iff i j, lookup-insert k j v m)

  pub lookup-remove :
      (k j : String) (m : List (String × V))
      → lookup j (remove k m) ≡ (if k == j then none else lookup j m)
  lookup-remove k j [] = ground arith
  lookup-remove k j ((i, w) ∷ m) =
      ground (arith, eq_iff k j, eq_iff i k, eq_iff i j, lookup-remove k j m)

-- The code points of a text: its UTF-16 code units, where it is ASCII.
abbrev pub codes : String → List ℕ
codes String.[] = []
codes (String.◌∷◌ c s) = code c ∷ codes s
