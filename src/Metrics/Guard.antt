-- ===== src/Metrics/Guard.antt =====
-- src/modules/metrics/api/metrics-scrape.guard.ts: who may read the metrics. What `bearer` reads from
-- the header and the source address, normalised, are inputs; texts are lists of code units.
use armstrong_bot.Prelude.{
  ◌≢◌, In, Bool-cases, ap, subst, ℕ, zero, suc, ◌+◌, ◌*◌, ◌/◌, ◌%◌, ◌^◌, ◌<◌, ◌≡◌, ◌↔◌, ◌⊎◌, inl,
  inr, refl, Bool, true, false, ◌||◌, not, List, [], ◌∷◌, Option, none, some, if◌then◌else◌, eqb,
  eqb_iff, length, All, arith,
}
use armstrong_bot.Metrics.Cidr.{Number, ip_in_cidr}
use armstrong_bot.Metrics.Cidr.Prefixes.{IsMalformed, ip_in_cidr-malformed}

-- `^` and `|` of numbers of so many bits
unfoldable pub xor_bits : ℕ → ℕ → ℕ → ℕ
xor_bits zero a b = 0
xor_bits (suc w) a b = (a + b) % 2 + 2 * xor_bits w (a / 2) (b / 2)

unfoldable pub or_bits : ℕ → ℕ → ℕ → ℕ
or_bits zero a b = 0
or_bits (suc w) a b = (a % 2 + b % 2 + 1) / 2 + 2 * or_bits w (a / 2) (b / 2)

-- The loop of `timingSafeEqual`, whose texts are of one length; a code unit has 16 bits.
unfoldable pub mismatch_of : ℕ → List ℕ → List ℕ → ℕ
mismatch_of mismatch [] b = mismatch
mismatch_of mismatch (x ∷ a) [] = mismatch
mismatch_of mismatch (x ∷ a) (y ∷ b) = mismatch_of (or_bits 16 mismatch (xor_bits 16 x y)) a b

-- `timingSafeEqual`
unfoldable pub timing_safe_equal : List ℕ → List ℕ → Bool
timing_safe_equal a b = if not (eqb (length a) (length b)) then false else eqb (mismatch_of 0 a b) 0

-- An entry of the list of networks: the normalised range, and the prefix.
abbrev pub Network : Type 0
Network = Option (List ℕ) × Option Number

-- `ipInAnyCidr`
unfoldable pub ip_in_any_cidr : Option (List ℕ) → List Network → Bool
ip_in_any_cidr ip [] = false
ip_in_any_cidr ip ((range, bits) ∷ rest) = ip_in_cidr ip range bits || ip_in_any_cidr ip rest

-- A text that is there and not empty.
abbrev pub accepts : List ℕ → Option (List ℕ) → Bool
accepts [] provided = false
accepts (c ∷ token) none = false
accepts (c ∷ token) (some []) = false
accepts (c ∷ token) (some (d ∷ provided)) = timing_safe_equal (d ∷ provided) (c ∷ token)

-- `canActivate`: the token of the configuration is empty when there is none, and no source address is
-- `none`, which `ipInAnyCidr` is then not asked about.
unfoldable pub can_activate :
    List ℕ → List Network → Option (List ℕ) → Option (Option (List ℕ)) → Bool
can_activate token networks provided none = accepts token provided
can_activate token networks provided (some ip) =
    if accepts token provided then true else ip_in_any_cidr ip networks

xor_bits_zero : (w a b : ℕ) → a < 2 ^ w → b < 2 ^ w → (xor_bits w a b ≡ 0) ↔ (a ≡ b)
unfolding xor_bits
xor_bits_zero zero a b ha hb = (λ h. omega (arith, ha, hb), λ h. refl)
xor_bits_zero (suc w) a b ha hb =
    let ih = xor_bits_zero w (a / 2) (b / 2) (omega (arith, ha)) (omega (arith, hb)) in
    ground (arith, ih)

or_bits_zero : (w a b : ℕ) → a < 2 ^ w → b < 2 ^ w → (or_bits w a b ≡ 0) ↔ ((a ≡ 0) × (b ≡ 0))
unfolding or_bits
or_bits_zero zero a b ha hb = (λ h. (omega (arith, ha), omega (arith, hb)), λ h. refl)
or_bits_zero (suc w) a b ha hb =
    let ih = or_bits_zero w (a / 2) (b / 2) (omega (arith, ha)) (omega (arith, hb)) in
    ground (arith, ih)

xor_bits-lt : (w a b : ℕ) → xor_bits w a b < 2 ^ w
unfolding xor_bits
xor_bits-lt zero a b = omega arith
xor_bits-lt (suc w) a b = omega (arith, xor_bits-lt w (a / 2) (b / 2))

or_bits-lt : (w a b : ℕ) → or_bits w a b < 2 ^ w
unfolding or_bits
or_bits-lt zero a b = omega arith
or_bits-lt (suc w) a b = omega (arith, or_bits-lt w (a / 2) (b / 2))

-- The code units of a text.
abbrev pub IsText : List ℕ → Type 0
IsText a = All (λ (c : ℕ). c < 2 ^ 16) a

abbrev pub AreTexts : Option (List ℕ) → Type 0
AreTexts none = Unit
AreTexts (some a) = IsText a

mismatch_of_iff :
    (m : ℕ) (a b : List ℕ)
    → m < 2 ^ 16
    → length a ≡ length b
    → IsText a
    → IsText b
    → (mismatch_of m a b ≡ 0) ↔ ((m ≡ 0) × (a ≡ b))
unfolding mismatch_of
mismatch_of_iff m [] [] small same ta tb = (λ h. (h, refl), λ h. h.0)
mismatch_of_iff m [] (y ∷ b) small same ta tb = absurd (omega (arith, same))
mismatch_of_iff m (x ∷ a) [] small same ta tb = absurd (omega (arith, same))
mismatch_of_iff m (x ∷ a) (y ∷ b) small same (tx, ta) (ty, tb) =
    let seen = xor_bits 16 x y in
    let ih =
      mismatch_of_iff (or_bits 16 m seen) a b (or_bits-lt 16 m seen) (omega (arith, same)) ta tb in
    let joined = or_bits_zero 16 m seen small (xor_bits-lt 16 x y) in
    let same_unit = xor_bits_zero 16 x y tx ty in ground (arith, ih, joined, same_unit)

-- Texts are taken as the same exactly when they are.
pub timing_safe_equal_iff :
    (a b : List ℕ) → IsText a → IsText b → (timing_safe_equal a b ≡ true) ↔ (a ≡ b)
unfolding timing_safe_equal
timing_safe_equal_iff a b ta tb = elim (Bool-cases (eqb (length a) (length b))) [
  | inl same ↦
      let alike =
        mismatch_of_iff 0 a b (omega arith) ((eqb_iff (length a) (length b)).0 same) ta tb in
      ground (arith, same, alike, eqb_iff (mismatch_of 0 a b) 0)
  | inr apart ↦
      let differ : a ≡ b → length a ≡ length b = ap length in
      ground (arith, apart, differ, eqb_iff (length a) (length b))
]

-- The token is set, and it is the one that was provided.
abbrev pub HasToken : List ℕ → Option (List ℕ) → Type 0
HasToken token provided = (token ≢ []) × (provided ≡ some token)

-- The address is known, and it is in one of the networks.
abbrev pub IsAllowed : Option (Option (List ℕ)) → List Network → Type 0
IsAllowed none networks = ⊥
IsAllowed (some ip) networks = (n : Network) × In n networks × (ip_in_cidr ip n.0 n.1 ≡ true)

accepts_iff :
    (token : List ℕ) (provided : Option (List ℕ))
    → IsText token
    → AreTexts provided
    → (accepts token provided ≡ true) ↔ HasToken token provided
accepts_iff [] provided t p = (λ h. cc, λ h. absurd (h.0 refl))
accepts_iff (c ∷ token) none t p = (λ h. cc, λ h. cc)
accepts_iff (c ∷ token) (some []) t p = (λ h. cc, λ h. cc)
accepts_iff (c ∷ token) (some (d ∷ given)) t p =
    ground (arith, timing_safe_equal_iff (d ∷ given) (c ∷ token) p t)

ip_in_any_cidr_iff :
    (ip : Option (List ℕ)) (networks : List Network)
    → (ip_in_any_cidr ip networks ≡ true) ↔ IsAllowed (some ip) networks
unfolding ip_in_any_cidr
ip_in_any_cidr_iff ip [] = (λ h. cc, λ (n, there, h). absurd there)
ip_in_any_cidr_iff ip ((range, bits) ∷ rest) =
    let later = ip_in_any_cidr_iff ip rest in
    (
      λ h. elim (Bool-cases (ip_in_cidr ip range bits)) [
        | inl here ↦ ((range, bits), inl refl, here)
        | inr not_here ↦
            let (n, there, found) = later.0 (ground (arith, not_here, h)) in (n, inr there, found)
      ],
      λ (n, there, found). elim there [
        | inl here ↦
            let same : ip_in_cidr ip range bits ≡ true =
              subst (λ (m : Network). ip_in_cidr ip m.0 m.1 ≡ true) here found in
            ground (arith, same)
        | inr beyond ↦ ground (arith, later.1 (n, beyond, found))
      ],
    )

-- For texts of 16-bit code units: a request may read the metrics exactly when a token is configured
-- and the request provides that one, or its source address is known and one of the configured
-- networks has it.
pub can_activate_iff :
    (token : List ℕ) (networks : List Network) (provided : Option (List ℕ))
    (source : Option (Option (List ℕ)))
    → IsText token
    → AreTexts provided
    → (can_activate token networks provided source ≡ true)
      ↔ (HasToken token provided ⊎ IsAllowed source networks)
unfolding can_activate
can_activate_iff token networks provided none t p =
    let by_token = accepts_iff token provided t p in
    (λ h. inl (by_token.0 h), λ h. elim h [ inl k ↦ by_token.1 k | inr k ↦ absurd k ])
can_activate_iff token networks provided (some ip) t p =
    let by_token = accepts_iff token provided t p in
    let by_network = ip_in_any_cidr_iff ip networks in
    elim (Bool-cases (accepts token provided)) [
      | inl yes_token ↦ (λ h. inl (by_token.0 yes_token), λ h. ground (arith, yes_token))
      | inr not_token ↦ (
        λ h. inr (by_network.0 (ground (arith, not_token, h))),
        λ h. elim h [
          | inl k ↦ absurd (ground (arith, not_token, by_token.1 k))
          | inr k ↦ ground (arith, not_token, by_network.1 k)
        ],
      )
    ]

-- If one of the configured networks has a prefix that is no number, or is negative, then every request
-- from an address of the family of that network may read the metrics, whatever its token and wherever
-- the address is.
pub can_activate-malformed :
    (token : List ℕ) (networks : List Network) (provided : Option (List ℕ)) (ip range : List ℕ)
    (bits : Number)
    → In (some range, some bits) networks
    → IsMalformed bits
    → length ip ≡ length range
    → can_activate token networks provided (some (some ip)) ≡ true
unfolding can_activate
can_activate-malformed token networks provided ip range bits there bad same =
    let found =
      (ip_in_any_cidr_iff (some ip) networks).1
        ((some range, some bits), there, ip_in_cidr-malformed ip range bits bad same) in
    ground (arith, found)
