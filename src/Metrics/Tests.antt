-- ===== src/Metrics/Tests.antt =====
-- Runs of the metrics at concrete inputs.
use armstrong_bot.Prelude.{
  ◌*◌, inl, ◌≡◌, ◌↔◌, ◌⊎◌, refl, ℕ, true, false, List, [], ◌∷◌, none, some, codes, length, arith,
}
use armstrong_bot.Prelude.Int.{pos}
use armstrong_bot.Metrics.Cidr.{not_a_number, integer, ip_in_cidr}
use armstrong_bot.Metrics.Cidr.Prefixes.{bits_of, take, ip_in_cidr_iff}
use armstrong_bot.Metrics.Guard.{
  Network, HasToken, IsAllowed, can_activate, can_activate_iff, can_activate-malformed,
}

abbrev host : List ℕ
host = 192 ∷ 168 ∷ 1 ∷ 55 ∷ []

abbrev home : List ℕ
home = 192 ∷ 168 ∷ 1 ∷ 0 ∷ []

in_range : ip_in_cidr (some host) (some home) (some (integer (pos 24))) ≡ true
unfolding ip_in_cidr
in_range = refl

out_of_range : ip_in_cidr (some host) (some home) (some (integer (pos 27))) ≡ false
unfolding ip_in_cidr
out_of_range = refl

ip_in_cidr_iff_example :
    ((ip_in_cidr (some host) (some home) (some (integer (pos 24))) ≡ true)
      ↔ ((length host ≡ length home) × (take 24 (bits_of host) ≡ take 24 (bits_of home))))
    × ((ip_in_cidr (some host) (some home) none ≡ true) ↔ (
        (length host ≡ length home)
        × (take (length host * 8) (bits_of host) ≡ take (length host * 8) (bits_of home))))
ip_in_cidr_iff_example = ip_in_cidr_iff host home 24

abbrev token : List ℕ
token = codes "s3"

abbrev networks : List Network
networks = (some home, some (integer (pos 24))) ∷ []

can_activate_iff_example :
    (can_activate token networks (some (codes "s2")) (some (some host)) ≡ true)
    ↔ (HasToken token (some (codes "s2")) ⊎ IsAllowed (some (some host)) networks)
can_activate_iff_example =
    can_activate_iff token networks (some (codes "s2")) (some (some host))
      (omega arith, (omega arith, tt)) (omega arith, (omega arith, tt))

abbrev broken_networks : List Network
broken_networks = (some (10 ∷ 0 ∷ 0 ∷ 0 ∷ []), some not_a_number) ∷ []

can_activate-malformed_example : can_activate token broken_networks none (some (some host)) ≡ true
can_activate-malformed_example =
    can_activate-malformed token broken_networks none host (10 ∷ 0 ∷ 0 ∷ 0 ∷ []) not_a_number
      (inl refl) (inl refl) refl
