-- ===== src/Metrics/Cidr/Prefixes.antt =====
-- src/modules/metrics/domain/cidr.util.ts: an address is in a network when the first bits agree.
use armstrong_bot.Prelude.{
  ◌⊎◌, ℕ, suc, zero, ◌*◌, ◌-◌, ◌/◌, ◌%◌, ◌≡◌, ◌↔◌, ◌<◌, ◌≤◌, refl, ap, ◌∙◌, sym, subst, inl, inr,
  ltb, ltb_iff, Bool-cases, Bool, true, false, ◌&&◌, List, [], ◌∷◌, ◌++◌, none, some, eqb_iff,
  length, min, arith,
}
use armstrong_bot.Prelude.Int.{pos, negsuc}
use armstrong_bot.Metrics.Cidr.{
  Number, not_a_number, integer, and_bytes, same_byte, same_network, ip_in_cidr,
}

-- The bits of the bytes, the highest of each first.
abbrev pub bits_of : List ℕ → List ℕ
bits_of [] = []
bits_of (x ∷ xs) =
    x / 128 % 2
    ∷ x / 64 % 2
    ∷ x / 32 % 2
    ∷ x / 16 % 2
    ∷ x / 8 % 2
    ∷ x / 4 % 2
    ∷ x / 2 % 2
    ∷ x % 2
    ∷ bits_of xs

abbrev pub take : ℕ → List ℕ → List ℕ
take zero xs = []
take (suc n) [] = []
take (suc n) (x ∷ xs) = x ∷ take n xs

-- The loop for so many bits.
abbrev same_bits : List ℕ → List ℕ → ℕ → Bool
same_bits a b n = same_network a b (integer (pos n))

-- The masked bytes are the same when the bits that the mask lets through are.
same_byte_iff :
    (x y : ℕ) (xs ys : List ℕ) (n : ℕ)
    → n < 8
    → (same_byte x y (suc n) ≡ true)
      ↔ (take (suc n) (bits_of (x ∷ xs)) ≡ take (suc n) (bits_of (y ∷ ys)))
unfolding and_bytes
same_byte_iff x y xs ys zero small = ground arith
same_byte_iff x y xs ys (suc zero) small = ground arith
same_byte_iff x y xs ys (suc (suc zero)) small = ground arith
same_byte_iff x y xs ys (suc (suc (suc zero))) small = ground arith
same_byte_iff x y xs ys (suc (suc (suc (suc zero)))) small = ground arith
same_byte_iff x y xs ys (suc (suc (suc (suc (suc zero))))) small = ground arith
same_byte_iff x y xs ys (suc (suc (suc (suc (suc (suc zero)))))) small = ground arith
same_byte_iff x y xs ys (suc (suc (suc (suc (suc (suc (suc zero))))))) small = ground arith
same_byte_iff x y xs ys (suc (suc (suc (suc (suc (suc (suc (suc n)))))))) small =
    absurd (omega (arith, small))

same_bits_zero : (a b : List ℕ) → same_bits a b 0 ≡ true
unfolding same_network
same_bits_zero [] b = refl
same_bits_zero (x ∷ a) b = refl

and-true : (b : Bool) → (b && true) ≡ b
and-true true = refl
and-true false = refl

-- A round that takes what is left of the prefix, and one that takes a whole byte.
same_bits-last :
    (x y : ℕ) (a b : List ℕ) (n : ℕ)
    → n < 8
    → same_bits (x ∷ a) (y ∷ b) (suc n) ≡ same_byte x y (suc n)
unfolding same_network
same_bits-last x y a b n small =
    let taken : min 8 (suc n) ≡ suc n = omega (arith, small) in
    let left : suc n - suc n ≡ 0 = omega arith in
    ap (λ k. same_byte x y k && same_bits a b (suc n - k)) taken
    ∙ ap (λ k. same_byte x y (suc n) && same_bits a b k) left
    ∙ ap (λ r. same_byte x y (suc n) && r) (same_bits_zero a b)
    ∙ and-true (same_byte x y (suc n))

same_bits-more :
    (x y : ℕ) (a b : List ℕ) (n : ℕ)
    → 7 ≤ n
    → same_bits (x ∷ a) (y ∷ b) (suc n) ≡ (same_byte x y 8 && same_bits a b (n - 7))
unfolding same_network
same_bits-more x y a b n large =
    let taken : min 8 (suc n) ≡ 8 = omega (arith, large) in
    let left : suc n - 8 ≡ n - 7 = omega arith in
    ap (λ k. same_byte x y k && same_bits a b (suc n - k)) taken
    ∙ ap (λ k. same_byte x y 8 && same_bits a b k) left

take-more :
    (x : ℕ) (a : List ℕ) (n : ℕ)
    → 7 ≤ n
    → take (suc n) (bits_of (x ∷ a)) ≡ take 8 (bits_of (x ∷ [])) ++ take (n - 7) (bits_of a)
take-more x a n large =
    let shown : suc n ≡ suc (suc (suc (suc (suc (suc (suc (suc (n - 7)))))))) =
      omega (arith, large) in
    ap (λ k. take k (bits_of (x ∷ a))) shown

both_iff :
    (x y : ℕ) (p r : Bool) (xs ys : List ℕ)
    → (p ≡ true) ↔ (take 8 (bits_of (x ∷ [])) ≡ take 8 (bits_of (y ∷ [])))
    → (r ≡ true) ↔ (xs ≡ ys)
    → ((p && r) ≡ true) ↔ (take 8 (bits_of (x ∷ [])) ++ xs ≡ take 8 (bits_of (y ∷ [])) ++ ys)
both_iff x y p r xs ys first rest = ground (arith, first, rest)

same_answer :
    {p q : Bool} {u v w z : List ℕ}
    → p ≡ q
    → u ≡ w
    → v ≡ z
    → (q ≡ true) ↔ (w ≡ z)
    → (p ≡ true) ↔ (u ≡ v)
same_answer e1 e2 e3 k = (λ h. e2 ∙ k.0 (sym e1 ∙ h) ∙ sym e3, λ h. e1 ∙ k.1 (sym e2 ∙ h ∙ e3))

-- The loop answers whether the first bits of both are the same.
pub same_bits_iff :
    (a b : List ℕ) (n : ℕ)
    → length a ≡ length b
    → (same_bits a b n ≡ true) ↔ (take n (bits_of a) ≡ take n (bits_of b))
same_bits_iff [] [] n same = unfold same_network in (λ h. refl, λ h. refl)
same_bits_iff [] (y ∷ b) n same = absurd (omega (arith, same))
same_bits_iff (x ∷ a) [] n same = absurd (omega (arith, same))
same_bits_iff (x ∷ a) (y ∷ b) zero same = (λ h. refl, λ h. same_bits_zero (x ∷ a) (y ∷ b))
same_bits_iff (x ∷ a) (y ∷ b) (suc n) same =
    let ih = same_bits_iff a b (n - 7) (omega (arith, same)) in
    elim (Bool-cases (ltb n 7)) [
      | inl yes_small ↦
          let small : n < 8 = omega (arith, (ltb_iff n 7).0 yes_small) in
          subst
            (λ r. (r ≡ true) ↔ (take (suc n) (bits_of (x ∷ a)) ≡ take (suc n) (bits_of (y ∷ b))))
            (sym (same_bits-last x y a b n small)) (same_byte_iff x y a b n small)
      | inr not_small ↦
          let large : 7 ≤ n = ground (arith, not_small) in
          let shown =
            both_iff x y (same_byte x y 8) (same_bits a b (n - 7)) (take (n - 7) (bits_of a))
              (take (n - 7) (bits_of b)) (same_byte_iff x y [] [] 7 (omega arith)) ih in
          same_answer (same_bits-more x y a b n large) (take-more x a n large)
            (take-more y b n large) shown
    ]

-- For the bytes of an address and of a range, and a prefix that is missing or a number from 0 on: the
-- address is in the network exactly when both are of one family and their first bits are the same, as
-- many as the prefix says, or all of them when it is missing.
pub ip_in_cidr_iff :
    (ip range : List ℕ) (n : ℕ)
    → ((ip_in_cidr (some ip) (some range) (some (integer (pos n))) ≡ true)
        ↔ ((length ip ≡ length range) × (take n (bits_of ip) ≡ take n (bits_of range))))
      × ((ip_in_cidr (some ip) (some range) none ≡ true) ↔ (
          (length ip ≡ length range)
          × (take (length ip * 8) (bits_of ip) ≡ take (length ip * 8) (bits_of range))))
unfolding ip_in_cidr
ip_in_cidr_iff ip range n = (of_prefix n, of_prefix (length ip * 8))
  where
    of_prefix :
        (k : ℕ)
        → (ip_in_cidr (some ip) (some range) (some (integer (pos k))) ≡ true)
          ↔ ((length ip ≡ length range) × (take k (bits_of ip) ≡ take k (bits_of range)))
    of_prefix k = ground (arith, eqb_iff (length ip) (length range), same_bits_iff ip range k)

-- A prefix that is no number, or is negative.
abbrev pub IsMalformed : Number → Type 0
IsMalformed bits = (bits ≡ not_a_number) ⊎ ((k : ℕ) × (bits ≡ integer (negsuc k)))

same_network-malformed :
    (a b : List ℕ) (bits : Number) → IsMalformed bits → same_network a b bits ≡ true
unfolding same_network
same_network-malformed [] b bits bad = refl
same_network-malformed (x ∷ a) b not_a_number bad = refl
same_network-malformed (x ∷ a) b (integer (negsuc k)) bad = refl
same_network-malformed (x ∷ a) b (integer (pos n)) (inl bad) = absurd (cc)
same_network-malformed (x ∷ a) b (integer (pos n)) (inr (k, bad)) = absurd (cc)

pub ip_in_cidr-malformed :
    (ip range : List ℕ) (bits : Number)
    → IsMalformed bits
    → length ip ≡ length range
    → ip_in_cidr (some ip) (some range) (some bits) ≡ true
unfolding ip_in_cidr
ip_in_cidr-malformed ip range bits bad same =
    ground
      (arith, eqb_iff (length ip) (length range), same, same_network-malformed ip range bits bad)
