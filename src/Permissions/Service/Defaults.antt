-- ===== src/Permissions/Service/Defaults.antt =====
-- src/core/permissions/infrastructure/group.repository.ts: the default grants of `createTierDefaults`.
use armstrong_bot.Prelude.{
  Bool, true, ◌≡◌, refl, ap, ◌∙◌, String, List, [], ◌∷◌, Option, none, some, eq_iff, arith, All,
  Option-cases, inl, inr,
}
use armstrong_bot.Permissions.Claim.{Text}
use armstrong_bot.Permissions.Resolver.{Effect}
use armstrong_bot.Permissions.Service.Tables.{StoredGrant, with_default, with_defaults}
use armstrong_bot.Permissions.Service.Grants.{effect_of}

-- What was set, or else another effect.
abbrev pub kept_or : Option Effect → Option Effect → Option Effect
kept_or (some e) other = some e
kept_or none other = other

pub kept_or-of_kept :
    (old new : Option Effect) → ((e : Effect) → old ≡ some e → new ≡ some e) → new ≡ kept_or old new
kept_or-of_kept none new kept = refl
kept_or-of_kept (some e) new kept = kept e refl

-- A row that matches stays the first that does.
effect_of-with_default :
    (same : Text → Text → Bool) (guild id : String) (claim : Text) (x : String) (c : Text)
    (e : Effect) (grants : List StoredGrant)
    → effect_of same x c grants ≡ some e
    → effect_of same x c (with_default same guild id claim grants) ≡ some e
effect_of-with_default same guild id claim x c e [] there = absurd (cc)
effect_of-with_default same guild id claim x c e (r ∷ rest) there =
    ground (arith, there, effect_of-with_default same guild id claim x c e rest)

with_default-there :
    (same : Text → Text → Bool) (guild id : String) (claim : Text) (e : Effect)
    (grants : List StoredGrant)
    → effect_of same id claim grants ≡ some e
    → with_default same guild id claim grants ≡ grants
with_default-there same guild id claim e [] there = absurd (cc)
with_default-there same guild id claim e (r ∷ rest) there =
    ground (arith, there, with_default-there same guild id claim e rest)

with_default-missing :
    (same : Text → Text → Bool) (guild id : String) (claim : Text) (grants : List StoredGrant)
    → same claim claim ≡ true
    → effect_of same id claim grants ≡ none
    → effect_of same id claim (with_default same guild id claim grants) ≡ some Effect.grant
with_default-missing same guild id claim [] reflexive missing =
    ground (arith, reflexive, eq_iff id id)
with_default-missing same guild id claim (r ∷ rest) reflexive missing =
    ground (arith, missing, with_default-missing same guild id claim rest reflexive)

-- A default grant leaves an effect that is set.
pub with_defaults-kept :
    (same : Text → Text → Bool) (guild : String) (defaults : List (String × Text)) (x : String)
    (c : Text) (e : Effect) (grants : List StoredGrant)
    → effect_of same x c grants ≡ some e
    → effect_of same x c (with_defaults same guild defaults grants) ≡ some e
with_defaults-kept same guild [] x c e grants there = there
with_defaults-kept same guild ((id, claim) ∷ rest) x c e grants there =
    with_defaults-kept same guild rest x c e (with_default same guild id claim grants)
      (effect_of-with_default same guild id claim x c e grants there)

abbrev pub HasEffect : (Text → Text → Bool) → List StoredGrant → String × Text → Type 0
HasEffect same grants (id, claim) = (e : Effect) × (effect_of same id claim grants ≡ some e)

with_default-HasEffect :
    (same : Text → Text → Bool) (guild id : String) (claim : Text) (grants : List StoredGrant)
    → same claim claim ≡ true
    → HasEffect same (with_default same guild id claim grants) (id, claim)
with_default-HasEffect same guild id claim grants reflexive =
    elim (Option-cases (effect_of same id claim grants)) [
      | inl missing ↦
          (Effect.grant, with_default-missing same guild id claim grants reflexive missing)
      | inr (e, there) ↦ (e, effect_of-with_default same guild id claim id claim e grants there)
    ]

pub with_defaults-HasEffect :
    (same : Text → Text → Bool) (guild : String) (defaults : List (String × Text))
    (grants : List StoredGrant)
    → ((a : Text) → same a a ≡ true)
    → All (HasEffect same (with_defaults same guild defaults grants)) defaults
with_defaults-HasEffect same guild [] grants reflexive = tt
with_defaults-HasEffect same guild ((id, claim) ∷ rest) grants reflexive =
    let (e, set) = with_default-HasEffect same guild id claim grants (reflexive claim) in
    (
      (
        e,
        with_defaults-kept same guild rest id claim e (with_default same guild id claim grants) set,
      ),
      with_defaults-HasEffect same guild rest (with_default same guild id claim grants) reflexive,
    )

pub with_defaults-there :
    (same : Text → Text → Bool) (guild : String) (defaults : List (String × Text))
    (grants : List StoredGrant)
    → All (HasEffect same grants) defaults
    → with_defaults same guild defaults grants ≡ grants
with_defaults-there same guild [] grants set = refl
with_defaults-there same guild ((id, claim) ∷ rest) grants ((e, there), later) =
    ap (with_defaults same guild rest) (with_default-there same guild id claim e grants there)
    ∙ with_defaults-there same guild rest grants later
