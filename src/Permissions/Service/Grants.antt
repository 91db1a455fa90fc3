-- ===== src/Permissions/Service/Grants.antt =====
-- src/core/permissions/application/permission.service.ts: what setClaimGrant and removeClaimGrant
-- leave in the table of the grants.
use armstrong_bot.Prelude.{
  In-find, ◌≡◌, ◌≢◌, sym, ap, ◌∙◌, subst, inl, inr, In, find, Bool-cases, Option-cases, ok, true,
  String, Bool, false, ◌&&◌, List, [], ◌∷◌, Option, none, some, not, filter, if◌then◌else◌, ◌==◌,
  eq_iff, arith,
}
use armstrong_bot.Permissions.Claim.{Text}
use armstrong_bot.Permissions.Resolver.{Effect}
use armstrong_bot.Permissions.Service.Tables.{
  Database, has_key, StoredGroup, StoredGrant, is_grant, with_grant, upsert_grant, remove_grant,
  find_group_by_key,
}
use armstrong_bot.Permissions.Service.{
  PermissionState, set_found, set_claim_grant, remove_found, remove_claim_grant,
}

-- What a collation takes as the same is an equivalence.
abbrev pub IsCollation : (Text → Text → Bool) → Type 0
IsCollation same =
    ((a : Text) → same a a ≡ true)
    × ((a b : Text) → same a b ≡ true → same b a ≡ true)
    × ((a b c : Text) → same a b ≡ true → same b c ≡ true → same a c ≡ true)

collated :
    (same : Text → Text → Bool) (r a c : Text)
    → IsCollation same
    → (same r a ≡ true → same r c ≡ same a c)
      × (same r c ≡ true → same a c ≡ true → same r a ≡ true)
collated same r a c (reflexive, symmetric, transitive) = (
  λ ra. elim (Bool-cases (same a c)) [
    | inl ac ↦ transitive r a c ra ac ∙ sym ac
    | inr apart ↦ elim (Bool-cases (same r c)) [
      | inl rc ↦ absurd (cc (transitive a r c (symmetric r a ra) rc, apart))
      | inr away ↦ away ∙ sym apart
    ]
  ],
  λ rc ac. transitive r c a rc (symmetric a c ac),
)

-- The effect that a group has for a claim, by the collation of the claims.
abbrev pub effect_of : (Text → Text → Bool) → String → Text → List StoredGrant → Option Effect
effect_of same id claim [] = none
effect_of same id claim (r ∷ rest) =
    if is_grant same id claim r then some r.effect else effect_of same id claim rest

pub effect_of-with_grant :
    (same : Text → Text → Bool) (guild id : String) (claim : Text) (effect : Effect) (x : String)
    (c : Text) (grants : List StoredGrant)
    → IsCollation same
    → effect_of same x c (with_grant same guild id claim effect grants)
      ≡ (if id == x && same claim c then some effect else effect_of same x c grants)
effect_of-with_grant same guild id claim effect x c [] coll = ground arith
effect_of-with_grant same guild id claim effect x c (r ∷ rest) coll = ground (
  arith,
  eq_iff r.group_id id,
  eq_iff r.group_id x,
  eq_iff id x,
  collated same r.claim claim c coll,
  effect_of-with_grant same guild id claim effect x c rest coll,
)

effect_of-filter :
    (same : Text → Text → Bool) (id : String) (claim : Text) (x : String) (c : Text)
    (grants : List StoredGrant)
    → IsCollation same
    → effect_of same x c (filter (λ r. not (is_grant same id claim r)) grants)
      ≡ (if id == x && same claim c then none else effect_of same x c grants)
effect_of-filter same id claim x c [] coll = ground arith
effect_of-filter same id claim x c (r ∷ rest) coll = ground (
  arith,
  eq_iff r.group_id id,
  eq_iff r.group_id x,
  eq_iff id x,
  collated same r.claim claim c coll,
  effect_of-filter same id claim x c rest coll,
)

find-none :
    (p : StoredGroup → Bool) (xs : List StoredGroup) (g : StoredGroup)
    → In g xs
    → p g ≡ true
    → find p xs ≢ none
find-none p [] g there good = absurd there
find-none p (x ∷ xs) g (inl same) good =
    let here = subst (λ y. p y ≡ true) same good in ground (arith, here)
find-none p (x ∷ xs) g (inr there) good = ground (arith, find-none p xs g there good)

find_unique :
    (p : StoredGroup → Bool) (xs : List StoredGroup) (g : StoredGroup)
    → In g xs
    → p g ≡ true
    → ((h : StoredGroup) → In h xs → p h ≡ true → h ≡ g)
    → find p xs ≡ some g
find_unique p xs g there good unique = elim (Option-cases (find p xs)) [
  | inl missing ↦ absurd (find-none p xs g there good missing)
  | inr (h, found) ↦
      let (in_xs, holds) = In-find p xs h found in found ∙ ap (λ x. some x) (unique h in_xs holds)
]

-- The live row of a guild whose key the collation takes as this one, and no other row of the guild
-- has such a key, as the index of the groups says.
pub record IsNamed (guild key : String) (db : Database) (g : StoredGroup) : Type 0 where
  pub there : In g db.groups
  pub of_guild : g.guild_id ≡ guild
  pub live : g.deleted ≡ false
  pub keyed : db.same_group_key g.key key ≡ true
  pub only :
      (h : StoredGroup)
      → In h db.groups
      → h.guild_id ≡ guild
      → db.same_group_key h.key key ≡ true
      → h ≡ g

find_group_by_key-IsNamed :
    (guild key : String) (db : Database) (g : StoredGroup)
    → IsNamed guild key db g
    → find_group_by_key guild key db ≡ some g
unfolding find_group_by_key
find_group_by_key-IsNamed guild key db g named =
    find_unique (has_key db.same_group_key guild key) db.groups g named.there
      (ground (arith, eq_iff g.guild_id guild, named.of_guild, named.live, named.keyed))
      (λ h in_db holds.
        named.only h in_db (ground (arith, eq_iff h.guild_id guild, holds)) (ground (arith, holds)))

-- When the key names a live group of the guild, as the collation of the keys compares: after
-- setClaimGrant, which returns, that group has the new effect for every claim that the collation of
-- the claims takes as the one that was set, and after removeClaimGrant it has none for these. For
-- all other claims and groups both leave what there was.
pub claim_grants_after :
    (guild key : String) (claim : Text) (effect : Effect) (x : String) (c : Text) (g : StoredGroup)
    (s : PermissionState)
    → IsCollation s.db.same_claim
    → IsNamed guild key s.db g
    → ((set_claim_grant guild key claim effect s).0 ≡ ok tt)
      × (effect_of s.db.same_claim x c (set_claim_grant guild key claim effect s).1.db.grants ≡ (
          if g.id == x && s.db.same_claim claim c
          then some effect
          else effect_of s.db.same_claim x c s.db.grants))
      × (effect_of s.db.same_claim x c (remove_claim_grant guild key claim s).db.grants ≡ (
          if g.id == x && s.db.same_claim claim c
          then none
          else effect_of s.db.same_claim x c s.db.grants))
unfolding set_claim_grant remove_claim_grant set_found remove_found upsert_grant remove_grant
claim_grants_after guild key claim effect x c g s coll named =
    let found = find_group_by_key-IsNamed guild key s.db g named in
    let same = s.db.same_claim in
    (
      ap (λ o. (set_found guild key claim effect o s).0) found,
      ap (λ o. effect_of same x c (set_found guild key claim effect o s).1.db.grants) found
          ∙ effect_of-with_grant same guild g.id claim effect x c s.db.grants coll,
      ap (λ o. effect_of same x c (remove_found guild key claim o s).db.grants) found
          ∙ effect_of-filter same g.id claim x c s.db.grants coll,
    )
