-- ===== src/Permissions/Service/Tables.antt =====
-- src/core/permissions/infrastructure: the rows of group.repository.ts, claim-grant.repository.ts,
-- group-inheritance.repository.ts and role-mapping.repository.ts, and their changes.
use armstrong_bot.Prelude.{
  ℕ, ◌+◌, String, Bool, true, false, ◌&&◌, not, List, [], ◌∷◌, ◌++◌, Option, none, some, map,
  filter, find, if◌then◌else◌, codes, ◌==◌,
}
use armstrong_bot.Prelude.Int.{ℤ, pos}
use armstrong_bot.Permissions.Claim.{Text}
use armstrong_bot.Permissions.Resolver.{Effect, ClaimGrant}
use armstrong_bot.Permissions.Snapshot.{GroupRow, RoleMapping}

pub record StoredGroup : Type 0 where
  pub id : String
  pub guild_id : String
  pub key : String
  pub name : String
  pub priority : ℤ
  pub is_system : Bool
  -- `deletedAt !== null`
  pub deleted : Bool

pub record StoredGrant : Type 0 where
  pub guild_id : String
  pub group_id : String
  pub claim : Text
  pub effect : Effect

pub record StoredInheritance : Type 0 where
  pub guild_id : String
  pub child_group_id : String
  pub parent_group_id : String

pub record StoredMapping : Type 0 where
  pub guild_id : String
  pub discord_role_id : String
  pub group_id : String

pub record Database : Type 0 where
  pub groups : List StoredGroup
  pub grants : List StoredGrant
  pub inheritances : List StoredInheritance
  pub mappings : List StoredMapping
  -- how many ids have been made
  pub made_ids : ℕ
  -- which texts the collations of the columns `claim` and `key` take as the same
  pub same_claim : Text → Text → Bool
  pub same_group_key : String → String → Bool

-- `where: { guildId, deletedAt: null }`
abbrev pub is_live_in : String → StoredGroup → Bool
is_live_in guild g = g.guild_id == guild && not g.deleted

abbrev pub has_key : (String → String → Bool) → String → String → StoredGroup → Bool
has_key same guild key g = is_live_in guild g && same g.key key

unfoldable pub find_group_by_key : String → String → Database → Option StoredGroup
find_group_by_key guild key db = find (has_key db.same_group_key guild key) db.groups

-- `include: { grants: true }`
abbrev pub grants_of : String → List StoredGrant → List ClaimGrant
grants_of id [] = []
grants_of id (r ∷ rest) =
    if r.group_id == id
    then record { claim = r.claim; effect = r.effect } ∷ grants_of id rest
    else grants_of id rest

-- `include: { parents: true }`
abbrev pub parents_of : String → List StoredInheritance → List String
parents_of id [] = []
parents_of id (r ∷ rest) =
    if r.child_group_id == id then r.parent_group_id ∷ parents_of id rest else parents_of id rest

abbrev pub row_of : Database → StoredGroup → GroupRow
row_of db g = record {
  id = g.id;
  key = g.key;
  priority = g.priority;
  grants = grants_of g.id db.grants;
  parent_group_ids = parents_of g.id db.inheritances;
}

-- The rows that `loadResolvedGroups` reads.
unfoldable pub load_rows : String → Database → List GroupRow
load_rows guild db = map (row_of db) (filter (is_live_in guild) db.groups)

abbrev pub mappings_of : String → List StoredMapping → List RoleMapping
mappings_of guild [] = []
mappings_of guild (m ∷ rest) =
    if m.guild_id == guild
    then record { discord_role_id = m.discord_role_id; group_id = m.group_id }
      ∷ mappings_of guild rest
    else mappings_of guild rest

-- `findByGuild` of the mappings
unfoldable pub load_mappings : String → Database → List RoleMapping
load_mappings guild db = mappings_of guild db.mappings

abbrev pub is_mapping : String → String → String → StoredMapping → Bool
is_mapping guild role id m = m.guild_id == guild && m.discord_role_id == role && m.group_id == id

-- The upsert of `assign`, whose update is empty.
abbrev pub with_mapping : String → String → String → List StoredMapping → List StoredMapping
with_mapping guild role id [] =
    record { guild_id = guild; discord_role_id = role; group_id = id } ∷ []
with_mapping guild role id (m ∷ rest) =
    if is_mapping guild role id m then m ∷ rest else m ∷ with_mapping guild role id rest

unfoldable pub upsert_mapping : String → String → String → Database → Database
upsert_mapping guild role id db = record db { mappings = with_mapping guild role id db.mappings }

unfoldable pub remove_mapping : String → String → String → Database → Database
remove_mapping guild role id db = record db {
  mappings = filter (λ m. not (is_mapping guild role id m)) db.mappings;
}

abbrev pub is_grant : (Text → Text → Bool) → String → Text → StoredGrant → Bool
is_grant same id claim r = r.group_id == id && same r.claim claim

abbrev pub with_grant :
    (Text → Text → Bool) → String → String → Text → Effect → List StoredGrant → List StoredGrant
with_grant same guild id claim effect [] =
    record { guild_id = guild; group_id = id; claim = claim; effect = effect } ∷ []
with_grant same guild id claim effect (r ∷ rest) =
    if is_grant same id claim r
    then record r { effect = effect } ∷ rest
    else r ∷ with_grant same guild id claim effect rest

-- The upsert of `ClaimGrantRepository.upsert`.
unfoldable pub upsert_grant : String → String → Text → Effect → Database → Database
upsert_grant guild id claim effect db = record db {
  grants = with_grant db.same_claim guild id claim effect db.grants;
}

unfoldable pub remove_grant : String → Text → Database → Database
remove_grant id claim db = record db {
  grants = filter (λ r. not (is_grant db.same_claim id claim r)) db.grants;
}

abbrev pub is_inheritance : String → String → StoredInheritance → Bool
is_inheritance child parent r = r.child_group_id == child && r.parent_group_id == parent

abbrev pub with_inheritance :
    String → String → String → List StoredInheritance → List StoredInheritance
with_inheritance guild child parent [] =
    record { guild_id = guild; child_group_id = child; parent_group_id = parent } ∷ []
with_inheritance guild child parent (r ∷ rest) =
    if is_inheritance child parent r then r ∷ rest else r ∷ with_inheritance guild child parent rest

-- `GroupInheritanceRepository.addInheritance`
unfoldable pub add_inheritance : String → String → String → Database → Database
add_inheritance guild child parent db = record db {
  inheritances = with_inheritance guild child parent db.inheritances;
}

-- `where: { guildId_key }`, which finds a deleted row too.
abbrev pub is_keyed : (String → String → Bool) → String → String → StoredGroup → Bool
is_keyed same guild key g = g.guild_id == guild && same g.key key

abbrev pub added_group : (ℕ → String) → String → String → String → ℕ → Database → Database
added_group new_id guild key name priority db = record db {
  groups =
      db.groups
      ++ record {
        id = new_id db.made_ids;
        guild_id = guild;
        key = key;
        name = name;
        priority = pos priority;
        is_system = true;
        deleted = false;
      }
        ∷ [];
  made_ids = db.made_ids + 1;
}

abbrev pub tier_found :
    (ℕ → String) → String → String → String → ℕ → Option StoredGroup → Database → String × Database
tier_found new_id guild key name priority none db =
    (new_id db.made_ids, added_group new_id guild key name priority db)
tier_found new_id guild key name priority (some g) db = (g.id, db)

-- The upsert of a tier, with the id of its row.
unfoldable pub upsert_tier :
    (ℕ → String) → String → String → String → ℕ → Database → String × Database
upsert_tier new_id guild key name priority db =
    tier_found new_id guild key name priority
      (find (is_keyed db.same_group_key guild key) db.groups) db

-- The upsert of a default grant, whose update is empty.
abbrev pub with_default :
    (Text → Text → Bool) → String → String → Text → List StoredGrant → List StoredGrant
with_default same guild id claim [] =
    record { guild_id = guild; group_id = id; claim = claim; effect = Effect.grant } ∷ []
with_default same guild id claim (r ∷ rest) =
    if is_grant same id claim r then r ∷ rest else r ∷ with_default same guild id claim rest

abbrev pub with_defaults :
    (Text → Text → Bool) → String → List (String × Text) → List StoredGrant → List StoredGrant
with_defaults same guild [] grants = grants
with_defaults same guild ((id, claim) ∷ rest) grants =
    with_defaults same guild rest (with_default same guild id claim grants)

-- `defaultGrants`, for the ids of the owners, the admins, the moderators and the members.
abbrev pub default_grants : String → String → String → String → List (String × Text)
default_grants owner admin moderator member =
    (owner, codes "*")
    ∷ (admin, codes "admin.*")
    ∷ (admin, codes "permissions.*")
    ∷ (admin, codes "tickets.*")
    ∷ (admin, codes "fivem.*")
    ∷ (moderator, codes "tickets.*")
    ∷ (moderator, codes "moderation.*")
    ∷ (moderator, codes "fivem.restart")
    ∷ (member, codes "tickets.create")
    ∷ (member, codes "tickets.view.own")
    ∷ []

-- `createTierDefaults`
unfoldable pub create_tier_defaults : (ℕ → String) → String → Database → Database
unfolding upsert_tier
create_tier_defaults new_id guild db =
    let (owner, db1) = upsert_tier new_id guild "owner" "Owner" 1000 db in
    let (admin, db2) = upsert_tier new_id guild "admin" "Admin" 800 db1 in
    let (moderator, db3) = upsert_tier new_id guild "mod" "Mod" 500 db2 in
    let (member, db4) = upsert_tier new_id guild "member" "Member" 100 db3 in
    record db4 {
      grants =
          with_defaults db4.same_claim guild (default_grants owner admin moderator member)
            db4.grants;
    }
