-- ===== src/Permissions/Snapshot.antt =====
-- src/core/permissions/infrastructure/group.repository.ts (`loadResolvedGroups`),
-- infrastructure/role-mapping.repository.ts (`buildRoleToGroupsMap`) and
-- application/permission-cache.facade.ts (`loadSnapshot`, `getContext`): from the rows of the
-- database to the context that the resolver reads. The rows are what the query returns.
pub mod Keys
pub mod Mappings
use armstrong_bot.Prelude.{String, Bool, List, [], ◌∷◌, ◌++◌, map, insert, lookup, none, some}
use armstrong_bot.Prelude.Int.{ℤ}
use armstrong_bot.Permissions.Resolver.{ClaimGrant, ResolvedGroup, PermissionContext}

-- A row of `permissionGroup` with its grants, and the `parentGroupId` of each of its parents.
pub record GroupRow : Type 0 where
  pub id : String
  pub key : String
  pub priority : ℤ
  pub grants : List ClaimGrant
  pub parent_group_ids : List String

-- The map at the end of `loadResolvedGroups`: the parents are the ids of the rows.
unfoldable pub load_resolved_group : GroupRow → ResolvedGroup
load_resolved_group g = record {
  key = g.key;
  priority = g.priority;
  grants = g.grants;
  parents = g.parent_group_ids;
}

-- `for (const g of resolvedGroups) groupsRecord[g.key] = g`
pub fill_record : List (String × ResolvedGroup) → List ResolvedGroup → List (String × ResolvedGroup)
fill_record m [] = m
fill_record m (g ∷ gs) = fill_record (insert g.key g m) gs

unfoldable pub load_groups : List GroupRow → List (String × ResolvedGroup)
unfolding fill_record load_resolved_group
load_groups rows = fill_record [] (map load_resolved_group rows)

-- A row of `roleGroupMapping`.
pub record RoleMapping : Type 0 where
  pub discord_role_id : String
  pub group_id : String

abbrev pub groups_so_far : String → List (String × List String) → List String
groups_so_far role m = elim (lookup role m) [ none ↦ [] | some gs ↦ gs ]

-- One round of `buildRoleToGroupsMap`.
abbrev pub push_group : RoleMapping → List (String × List String) → List (String × List String)
push_group r m = insert r.discord_role_id (groups_so_far r.discord_role_id m ++ r.group_id ∷ []) m

pub fill_roles : List (String × List String) → List RoleMapping → List (String × List String)
fill_roles m [] = m
fill_roles m (r ∷ rs) = fill_roles (push_group r m) rs

unfoldable pub build_role_to_groups : List RoleMapping → List (String × List String)
unfolding fill_roles
build_role_to_groups mappings = fill_roles [] mappings

unfoldable pub get_context :
    List GroupRow → List RoleMapping → String → Bool → Bool → List String → PermissionContext
unfolding load_groups build_role_to_groups
get_context rows mappings guild_id is_guild_owner is_bot_owner member_role_ids = record {
  guild_id = guild_id;
  is_guild_owner = is_guild_owner;
  is_bot_owner = is_bot_owner;
  member_role_ids = member_role_ids;
  role_to_groups = build_role_to_groups mappings;
  default_group_keys = "member" ∷ [];
  groups = load_groups rows;
}
