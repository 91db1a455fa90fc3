-- ===== src/Permissions/Snapshot/Mappings.antt =====
-- What the mappings of roles to groups give a member (role-mapping.repository.ts,
-- permission-cache.facade.ts).
use armstrong_bot.Prelude.{
  ◌≡◌, ◌≢◌, refl, sym, ◌∙◌, subst, ◌⊎◌, inl, inr, String, Bool, List, [], ◌∷◌, ◌++◌, some, lookup,
  lookup-insert, ◌==◌, In, In-append, eq_iff, Bool-cases, Option-cases,
}
use armstrong_bot.Permissions.Resolver.{ResolvedGroup, resolve_group_keys}
use armstrong_bot.Permissions.Resolver.Reach.{IsReachable, root, parent}
use armstrong_bot.Permissions.Resolver.Roots.{In-resolve_group_keys}
use armstrong_bot.Permissions.Snapshot.{
  GroupRow, RoleMapping, groups_so_far, push_group, fill_roles, build_role_to_groups, get_context,
}
use armstrong_bot.Permissions.Snapshot.Keys.{
  load_groups-KeysAgree, load_groups-row, IdsAreNotKeys, load_groups-no-parents,
}

-- Some mapping names the group.
abbrev IsNamed : List RoleMapping → String → Type 0
IsNamed mappings k = (r : RoleMapping) × In r mappings × (r.group_id ≡ k)

abbrev IsHeld : List (String × List String) → String → String → Type 0
IsHeld m role k = (ks : List String) × (lookup role m ≡ some ks) × In k ks

groups_so_far-IsHeld :
    (m : List (String × List String)) (role k : String)
    → In k (groups_so_far role m)
    → IsHeld m role k
groups_so_far-IsHeld m role k i = elim (Option-cases (lookup role m)) [
  | inl missing ↦
      let empty : groups_so_far role m ≡ [] = rw (missing, groups_so_far) in
      absurd (subst (λ (x : List String). In k x) empty i)
  | inr (ks, found) ↦
      let held : groups_so_far role m ≡ ks = rw (found, groups_so_far) in
      (ks, found, subst (λ (x : List String). In k x) held i)
]

push_group-IsHeld :
    (r : RoleMapping) (m : List (String × List String)) (role k : String)
    → IsHeld (push_group r m) role k
    → (r.group_id ≡ k) ⊎ IsHeld m role k
push_group-IsHeld r m role k (ks, found, i) =
    let now = groups_so_far r.discord_role_id m ++ r.group_id ∷ [] in
    let looked = sym (lookup-insert r.discord_role_id role now m) ∙ found in
    elim (Bool-cases (r.discord_role_id == role)) [
      | inr other ↦ inr (ks, rw other at looked, i)
      | inl own ↦
          let named : r.discord_role_id ≡ role = (eq_iff r.discord_role_id role).0 own in
          let same : now ≡ ks = cc (rw own at looked) in
          elim ((In-append k (groups_so_far r.discord_role_id m) (r.group_id ∷ [])).0
            (subst (λ (x : List String). In k x) (sym same) i)) [
              | inl old ↦ inr (
                  subst (λ (x : String). IsHeld m x k) named
                    (groups_so_far-IsHeld m r.discord_role_id k old))
              | inr (inl new) ↦ inl (sym new)
              | inr (inr none_left) ↦ absurd none_left
            ]
    ]

fill_roles-IsNamed :
    (m : List (String × List String)) (mappings : List RoleMapping) (role k : String)
    → IsHeld (fill_roles m mappings) role k
    → IsNamed mappings k ⊎ IsHeld m role k
unfolding fill_roles
fill_roles-IsNamed m [] role k h = inr h
fill_roles-IsNamed m (r ∷ rs) role k h = elim (fill_roles-IsNamed (push_group r m) rs role k h) [
  | inl (x, i, e) ↦ inl (x, inr i, e)
  | inr held ↦ elim (push_group-IsHeld r m role k held) [
    | inl new ↦ inl (r, inl refl, new)
    | inr old ↦ inr old
  ]
]

-- A reachable group is stored.
IsReachable-stored :
    (groups : List (String × ResolvedGroup)) (roots : List String) (k : String)
    → IsReachable groups roots k
    → (g : ResolvedGroup) × (lookup k groups ≡ some g)
IsReachable-stored groups roots k (root _ g i s) = (g, s)
IsReachable-stored groups roots k (parent j _ g h r s i t) = (h, t)

-- If neither a parent id nor the group id of a mapping is spelled like a key of a group, then the
-- roles of a member and the inheritance of groups count for nothing: the only group that a member
-- of the guild can reach is `member`.
pub get_context-member :
    (rows : List GroupRow) (mappings : List RoleMapping) (guild_id : String)
    (is_guild_owner is_bot_owner : Bool) (member_role_ids : List String) (k : String)
    → IdsAreNotKeys rows
    → ((r : RoleMapping) (row : GroupRow) → In r mappings → In row rows → r.group_id ≢ row.key)
    → IsReachable
        (get_context rows mappings guild_id is_guild_owner is_bot_owner member_role_ids).groups
        (resolve_group_keys
          (get_context rows mappings guild_id is_guild_owner is_bot_owner member_role_ids))
        k
    → k ≡ "member"
unfolding get_context build_role_to_groups
get_context-member rows mappings guild_id is_guild_owner is_bot_owner roles k apart ids reach =
    let ctx = get_context rows mappings guild_id is_guild_owner is_bot_owner roles in
    let (g, stored) = IsReachable-stored ctx.groups (resolve_group_keys ctx) k reach in
    elim (In-resolve_group_keys ctx k
      (load_groups-no-parents rows (resolve_group_keys ctx) k apart reach)) [
        | inl (inl same) ↦ same
        | inl (inr none_left) ↦ absurd none_left
        | inr (role, ks, found, i) ↦ elim (fill_roles-IsNamed [] mappings role k (ks, found, i)) [
          | inr (ks', found', i') ↦ absurd (cc found')
          | inl (r, at, named) ↦
              let (row, at', _, own) = load_groups-row rows k g stored in
              absurd (ids r row at at' (named ∙ sym (load_groups-KeysAgree rows k g stored) ∙ own))
        ]
      ]
