-- ===== src/Permissions/Service/Tiers.antt =====
-- src/core/permissions/infrastructure/group.repository.ts: `createTierDefaults` a second time, and
-- over grants that were changed by hand.
use armstrong_bot.Prelude.{
  Bool, true, subst, ◌≡◌, refl, sym, ap, ◌∙◌, ℕ, String, Bool, true, false, List, [], ◌∷◌, ◌++◌,
  Option, none, some, find, eq_iff, arith,
}
use armstrong_bot.Prelude.Int.{pos}
use armstrong_bot.Permissions.Claim.{Text}
use armstrong_bot.Permissions.Resolver.{Effect}
use armstrong_bot.Permissions.Service.Tables.{
  Database, StoredGroup, is_keyed, tier_found, upsert_tier, with_defaults, default_grants,
  create_tier_defaults,
}
use armstrong_bot.Permissions.Service.{PermissionState, on_guild_created}
use armstrong_bot.Permissions.Service.Grants.{effect_of}
use armstrong_bot.Permissions.Service.Defaults.{
  kept_or, kept_or-of_kept, with_defaults-kept, with_defaults-HasEffect, with_defaults-there,
}

-- The key of a tier names a group of this id, a deleted one too.
abbrev IsTier : String → String → String → Database → Type 0
IsTier guild key id db =
    (g : StoredGroup) × (find (is_keyed db.same_group_key guild key) db.groups ≡ some g)
    × (g.id ≡ id)

-- Every text is the same as itself.
abbrev pub IsReflexive : {A : Type 0} → (A → A → Bool) → Type 0
IsReflexive {A} same = (a : A) → same a a ≡ true

find-append :
    (p : StoredGroup → Bool) (xs ys : List StoredGroup) (g : StoredGroup)
    → find p xs ≡ some g
    → find p (xs ++ ys) ≡ some g
find-append p [] ys g there = absurd (cc)
find-append p (x ∷ xs) ys g there = ground (arith, there, find-append p xs ys g)

find-append_none :
    (p : StoredGroup → Bool) (xs : List StoredGroup) (g : StoredGroup)
    → p g ≡ true
    → find p xs ≡ none
    → find p (xs ++ g ∷ []) ≡ some g
find-append_none p [] g good missing = ground (arith, good)
find-append_none p (x ∷ xs) g good missing = ground (arith, missing, find-append_none p xs g good)

module _ (new_id : ℕ → String) (guild : String) where
  tier_found-IsTier :
      (key name : String) (priority : ℕ) (found : Option StoredGroup) (db : Database)
      → IsReflexive db.same_group_key
      → find (is_keyed db.same_group_key guild key) db.groups ≡ found
      → IsTier guild key
          (tier_found new_id guild key name priority found db).0
          (tier_found new_id guild key name priority found db).1
  tier_found-IsTier key name priority (some g) db reflexive there = (g, there, refl)
  tier_found-IsTier key name priority none db reflexive missing =
      let added : StoredGroup = record {
        id = new_id db.made_ids;
        guild_id = guild;
        key = key;
        name = name;
        priority = pos priority;
        is_system = true;
        deleted = false;
      } in
      (
        added,
        find-append_none (is_keyed db.same_group_key guild key) db.groups added
            (ground (arith, eq_iff guild guild, reflexive key)) missing,
        refl,
      )

  upsert_tier-IsTier :
      (key name : String) (priority : ℕ) (db : Database)
      → IsReflexive db.same_group_key
      → IsTier guild key
          (upsert_tier new_id guild key name priority db).0
          (upsert_tier new_id guild key name priority db).1
  unfolding upsert_tier
  upsert_tier-IsTier key name priority db reflexive =
      tier_found-IsTier key name priority (find (is_keyed db.same_group_key guild key) db.groups) db
        reflexive refl

  tier_found-kept :
      (key name : String) (priority : ℕ) (found : Option StoredGroup) (other id : String)
      (db : Database)
      → IsTier guild other id db
      → IsTier guild other id (tier_found new_id guild key name priority found db).1
  tier_found-kept key name priority (some g) other id db tier = tier
  tier_found-kept key name priority none other id db (g, there, named) =
      (g, find-append (is_keyed db.same_group_key guild other) db.groups _ g there, named)

  upsert_tier-kept :
      (key name : String) (priority : ℕ) (other id : String) (db : Database)
      → IsTier guild other id db
      → IsTier guild other id (upsert_tier new_id guild key name priority db).1
  unfolding upsert_tier
  upsert_tier-kept key name priority other id db tier =
      tier_found-kept key name priority (find (is_keyed db.same_group_key guild key) db.groups)
        other id db tier

  -- The grants and the collations stay.
  abbrev Stays : Database → Database → Type 0
  Stays new old =
      (new.grants ≡ old.grants)
      × (new.same_claim ≡ old.same_claim)
      × (new.same_group_key ≡ old.same_group_key)

  Stays-then : (a b c : Database) → Stays b a → Stays c b → Stays c a
  Stays-then a b c (g, k, n) (g', k', n') = (g' ∙ g, k' ∙ k, n' ∙ n)

  tier_found-Stays :
      (key name : String) (priority : ℕ) (found : Option StoredGroup) (db : Database)
      → Stays (tier_found new_id guild key name priority found db).1 db
  tier_found-Stays key name priority (some g) db = (refl, refl, refl)
  tier_found-Stays key name priority none db = (refl, refl, refl)

  upsert_tier-Stays :
      (key name : String) (priority : ℕ) (db : Database)
      → Stays (upsert_tier new_id guild key name priority db).1 db
  unfolding upsert_tier
  upsert_tier-Stays key name priority db =
      tier_found-Stays key name priority (find (is_keyed db.same_group_key guild key) db.groups) db

  upsert_tier-there :
      (key name : String) (priority : ℕ) (id : String) (db : Database)
      → IsTier guild key id db
      → upsert_tier new_id guild key name priority db ≡ (id, db)
  unfolding upsert_tier
  upsert_tier-there key name priority id db (g, there, named) =
      ap (λ o. tier_found new_id guild key name priority o db) there ∙ ap (λ i. (i, db)) named

  -- With the tiers there, only grants are added.
  create_tier_defaults-tiers :
      (owner admin moderator member : String) (db : Database)
      → IsTier guild "owner" owner db
      → IsTier guild "admin" admin db
      → IsTier guild "mod" moderator db
      → IsTier guild "member" member db
      → create_tier_defaults new_id guild db ≡ record db {
        grants =
            with_defaults db.same_claim guild
              (default_grants owner admin moderator member)
              db.grants;
      }
  unfolding create_tier_defaults
  create_tier_defaults-tiers owner admin moderator member db h1 h2 h3 h4 = rw (
    upsert_tier-there "owner" "Owner" 1000 owner db h1,
    upsert_tier-there "admin" "Admin" 800 admin db h2,
    upsert_tier-there "mod" "Mod" 500 moderator db h3,
    upsert_tier-there "member" "Member" 100 member db h4,
  )

  -- What `createTierDefaults` makes: the four tiers, and then the default grants.
  record Creation (db : Database) : Type 0 where
    owner : String
    admin : String
    moderator : String
    member : String
    tiered : Database
    owner_tier : IsTier guild "owner" owner tiered
    admin_tier : IsTier guild "admin" admin tiered
    moderator_tier : IsTier guild "mod" moderator tiered
    member_tier : IsTier guild "member" member tiered
    stays : Stays tiered db
    made : create_tier_defaults new_id guild db ≡ record tiered {
      grants =
          with_defaults tiered.same_claim guild
            (default_grants owner admin moderator member)
            tiered.grants;
    }

  create_tier_defaults-Creation : (db : Database) → IsReflexive db.same_group_key → Creation db
  unfolding create_tier_defaults
  create_tier_defaults-Creation db reflexive =
      let (o, db1) = upsert_tier new_id guild "owner" "Owner" 1000 db in
      let (a, db2) = upsert_tier new_id guild "admin" "Admin" 800 db1 in
      let (m, db3) = upsert_tier new_id guild "mod" "Mod" 500 db2 in
      let (e, db4) = upsert_tier new_id guild "member" "Member" 100 db3 in
      let stays1 : Stays db1 db = upsert_tier-Stays "owner" "Owner" 1000 db in
      let stays2 : Stays db2 db =
        Stays-then db db1 db2 stays1 (upsert_tier-Stays "admin" "Admin" 800 db1) in
      let stays3 : Stays db3 db =
        Stays-then db db2 db3 stays2 (upsert_tier-Stays "mod" "Mod" 500 db2) in
      let reflexive1 = reflexive_in db1 stays1 in
      let reflexive2 = reflexive_in db2 stays2 in
      let reflexive3 = reflexive_in db3 stays3 in
      record {
        owner = o;
        admin = a;
        moderator = m;
        member = e;
        tiered = db4;
        owner_tier = upsert_tier-kept "member" "Member" 100 "owner" o db3 (
            upsert_tier-kept "mod" "Mod" 500 "owner" o db2 (
              upsert_tier-kept "admin" "Admin" 800 "owner" o db1
                (upsert_tier-IsTier "owner" "Owner" 1000 db reflexive)));
        admin_tier = upsert_tier-kept "member" "Member" 100 "admin" a db3 (
            upsert_tier-kept "mod" "Mod" 500 "admin" a db2
              (upsert_tier-IsTier "admin" "Admin" 800 db1 reflexive1));
        moderator_tier =
            upsert_tier-kept "member" "Member" 100 "mod" m db3
              (upsert_tier-IsTier "mod" "Mod" 500 db2 reflexive2);
        member_tier = upsert_tier-IsTier "member" "Member" 100 db3 reflexive3;
        stays = Stays-then db db3 db4 stays3 (upsert_tier-Stays "member" "Member" 100 db3);
        made = refl;
      }
    where
      reflexive_in : (new : Database) → Stays new db → IsReflexive new.same_group_key
      reflexive_in new (g, c, k) =
          subst (λ (f : String → String → Bool). IsReflexive f) (sym k) reflexive

  create_tier_defaults-again :
      (db : Database)
      → IsReflexive db.same_claim
      → IsReflexive db.same_group_key
      → create_tier_defaults new_id guild (create_tier_defaults new_id guild db)
        ≡ create_tier_defaults new_id guild db
  create_tier_defaults-again db claims keys =
      let c = create_tier_defaults-Creation db keys in
      let same = c.tiered.same_claim in
      let defaults = default_grants c.owner c.admin c.moderator c.member in
      let grants = with_defaults same guild defaults c.tiered.grants in
      let made : Database = record c.tiered { grants = grants } in
      let reflexive : IsReflexive same =
        subst (λ (f : Text → Text → Bool). IsReflexive f) (sym c.stays.1) claims in
      ap (create_tier_defaults new_id guild) c.made
      ∙ create_tier_defaults-tiers c.owner c.admin c.moderator c.member made c.owner_tier
          c.admin_tier c.moderator_tier c.member_tier
      ∙ ap (λ g. record c.tiered { grants = g })
          (with_defaults-there same guild defaults grants
            (with_defaults-HasEffect same guild defaults c.tiered.grants reflexive))
      ∙ sym c.made

  create_tier_defaults-kept :
      (x : String) (c : Text) (e : Effect) (db : Database)
      → IsReflexive db.same_group_key
      → effect_of db.same_claim x c db.grants ≡ some e
      → effect_of db.same_claim x c (create_tier_defaults new_id guild db).grants ≡ some e
  create_tier_defaults-kept x c e db keys there =
      let k = create_tier_defaults-Creation db keys in
      let defaults = default_grants k.owner k.admin k.moderator k.member in
      ap (λ d. effect_of db.same_claim x c d.grants) k.made
      ∙ ap
          (λ (f : Text → Text → Bool).
            effect_of db.same_claim x c (with_defaults f guild defaults k.tiered.grants))
          k.stays.1
      ∙ with_defaults-kept db.same_claim guild defaults x c e k.tiered.grants
          (ap (effect_of db.same_claim x c) k.stays.0 ∙ there)

-- The handler of `guild.created` may run twice: the second time changes nothing. An effect, GRANT or
-- DENY, that a group has for a claim stays as it is when the handler runs, whether the claim stands
-- among the defaults or not. The collations of the columns take every text as the same as itself.
pub on_guild_created-again :
    (new_id : ℕ → String) (guild : String) (s : PermissionState) (x : String) (c : Text)
    → IsReflexive s.db.same_claim
    → IsReflexive s.db.same_group_key
    → (on_guild_created new_id guild (on_guild_created new_id guild s)
        ≡ on_guild_created new_id guild s)
      × (effect_of s.db.same_claim x c (on_guild_created new_id guild s).db.grants
          ≡ kept_or
              (effect_of s.db.same_claim x c s.db.grants)
              (effect_of s.db.same_claim x c (on_guild_created new_id guild s).db.grants))
unfolding on_guild_created
on_guild_created-again new_id guild s x c claims keys = (
  ap (λ d. record s { db = d }) (create_tier_defaults-again new_id guild s.db claims keys),
  kept_or-of_kept (effect_of s.db.same_claim x c s.db.grants)
      (effect_of s.db.same_claim x c (create_tier_defaults new_id guild s.db).grants)
      (λ e there. create_tier_defaults-kept new_id guild x c e s.db keys there),
)
