-- ===== src/Permissions/Claim/Order.antt =====
-- How the coverage of claims and their specificity fit together
-- (src/core/permissions/domain/claim.value-object.ts).
use armstrong_bot.Prelude.{◌≤◌, ◌≡◌, refl, true, [], ◌∷◌, ◌↔◌, arith}
use armstrong_bot.Permissions.Claim.{
  Text, Claim, text_eq, starts_with, ends_with_wildcard, drop_last, star, count_dots, covers,
  specificity,
}

pub text_eq_iff : (s t : Text) → (text_eq s t ≡ true) ↔ (s ≡ t)
text_eq_iff [] [] = (λ h. refl, λ h. refl)
text_eq_iff [] (_ ∷ _) = (λ h. cc, λ h. cc)
text_eq_iff (_ ∷ _) [] = (λ h. cc, λ h. cc)
text_eq_iff (c ∷ s) (d ∷ t) = ground (arith, text_eq_iff s t)

starts_with_trans :
    (p q s : Text) → starts_with p q ≡ true → starts_with q s ≡ true → starts_with p s ≡ true
starts_with_trans [] q s h k = refl
starts_with_trans (c ∷ p) [] s h k = cc
starts_with_trans (c ∷ p) (d ∷ q) [] h k = cc
starts_with_trans (c ∷ p) (d ∷ q) (e ∷ s) h k = ground (arith, starts_with_trans p q s)

starts_with_refl : (p : Text) → starts_with p p ≡ true
starts_with_refl [] = refl
starts_with_refl (c ∷ p) = ground (arith, starts_with_refl p)

-- What a text with a wildcard at its end is, without its last character.
wildcard_ends : (v : Text) → ends_with_wildcard v ≡ true → count_dots v ≡ count_dots (drop_last v)
wildcard_ends [] h = cc
wildcard_ends (c ∷ []) h = cc
wildcard_ends (c ∷ d ∷ []) h = ground arith
wildcard_ends (c ∷ d ∷ e ∷ s) h = ground (arith, wildcard_ends (d ∷ e ∷ s))

count_dots_prefix : (p s : Text) → starts_with p s ≡ true → count_dots p ≤ count_dots s
count_dots_prefix [] s h = omega arith
count_dots_prefix (c ∷ p) [] h = cc
count_dots_prefix (c ∷ p) (d ∷ s) h = ground (arith, count_dots_prefix p s)

-- A prefix that ends in a dot and starts a wildcard text starts that text's own prefix.
prefix_of_wildcard :
    (v w : Text)
    → ends_with_wildcard v ≡ true
    → ends_with_wildcard w ≡ true
    → starts_with (drop_last v) w ≡ true
    → starts_with (drop_last v) (drop_last w) ≡ true
prefix_of_wildcard [] w h k p = cc
prefix_of_wildcard (c ∷ []) w h k p = cc
prefix_of_wildcard v [] h k p = cc
prefix_of_wildcard v (c ∷ []) h k p = cc
prefix_of_wildcard (c ∷ d ∷ []) (a ∷ b ∷ []) h k p = ground arith
prefix_of_wildcard (c ∷ d ∷ []) (a ∷ b ∷ e ∷ w) h k p = ground arith
prefix_of_wildcard (c ∷ d ∷ x ∷ []) (a ∷ b ∷ []) h k p = ground arith
prefix_of_wildcard (c ∷ d ∷ x ∷ y ∷ v) (a ∷ b ∷ []) h k p = ground arith
prefix_of_wildcard (c ∷ d ∷ x ∷ v) (a ∷ b ∷ e ∷ w) h k p =
    ground (arith, prefix_of_wildcard (d ∷ x ∷ v) (b ∷ e ∷ w))

-- The prefix of a wildcard text is not the start of a lone asterisk.
wildcard_prefix_of_star :
    (v : Text) → ends_with_wildcard v ≡ true → starts_with (drop_last v) star ≡ true → v ≡ star
wildcard_prefix_of_star [] h p = cc
wildcard_prefix_of_star (c ∷ []) h p = cc
wildcard_prefix_of_star (c ∷ d ∷ []) h p = ground arith
wildcard_prefix_of_star (c ∷ d ∷ e ∷ s) h p = ground arith

-- A claim covers itself.
pub covers_refl : (c : Claim) → covers c c ≡ true
unfolding covers
covers_refl c = ground (arith, text_eq_iff c.value c.value)

-- Coverage chains: a claim covers all that is covered by what it covers.
pub covers_trans : (a b c : Claim) → covers a b ≡ true → covers b c ≡ true → covers a c ≡ true
unfolding covers
covers_trans a b c h k = ground (
  arith,
  text_eq_iff a.value star,
  text_eq_iff b.value star,
  text_eq_iff a.value b.value,
  text_eq_iff b.value c.value,
  text_eq_iff a.value c.value,
  wildcard_prefix_of_star a.value,
  prefix_of_wildcard a.value b.value,
  starts_with_trans (drop_last a.value) (drop_last b.value) c.value,
)

-- A claim that covers another is at most as specific.
pub specificity-le_of_covers : (a b : Claim) → covers a b ≡ true → specificity a ≤ specificity b
unfolding covers specificity
specificity-le_of_covers a b h = ground (
  arith,
  text_eq_iff a.value star,
  text_eq_iff b.value star,
  text_eq_iff a.value b.value,
  wildcard_prefix_of_star a.value,
  wildcard_ends a.value,
  count_dots_prefix (drop_last a.value) b.value,
)
