-- ===== src/Permissions/Resolver/Roots.antt =====
-- Where the groups of a member come from (`resolveGroupKeys` of permission-resolver.service.ts).
use armstrong_bot.Prelude.{
  ◌≡◌, subst, ◌⊎◌, inl, inr, String, List, [], ◌∷◌, some, includes, lookup, In, In-append,
  Bool-cases, Option-cases,
}
use armstrong_bot.Permissions.Resolver.{
  PermissionContext, add_key, add_keys, groups_of_role, add_role_keys, resolve_group_keys,
}

In-add_key : (k j : String) (keys : List String) → In k (add_key keys j) → In k keys ⊎ (k ≡ j)
In-add_key k j keys i = elim (Bool-cases (includes j keys)) [
  | inl known ↦ inl (rw known at i)
  | inr new ↦ elim ((In-append k keys (j ∷ [])).0 (rw new at i)) [
    | inl old ↦ inl old
    | inr (inl same) ↦ inr same
    | inr (inr none_left) ↦ absurd none_left
  ]
]

In-add_keys : (k : String) (keys ks : List String) → In k (add_keys keys ks) → In k keys ⊎ In k ks
unfolding add_keys
In-add_keys k keys [] i = inl i
In-add_keys k keys (j ∷ ks) i = elim (In-add_keys k (add_key keys j) ks i) [
  | inl old ↦ elim (In-add_key k j keys old) [ inl o ↦ inl o | inr same ↦ inr (inl same) ]
  | inr later ↦ inr (inr later)
]

-- A key that a role of the member is mapped to.
abbrev pub IsMapped : PermissionContext → String → Type 0
IsMapped ctx k =
    (role : String) × (ks : List String) × (lookup role ctx.role_to_groups ≡ some ks) × In k ks

In-groups_of_role :
    (ctx : PermissionContext) (role k : String) → In k (groups_of_role ctx role) → IsMapped ctx k
In-groups_of_role ctx role k i = elim (Option-cases (lookup role ctx.role_to_groups)) [
  | inl missing ↦
      let empty : groups_of_role ctx role ≡ [] = rw (missing, groups_of_role) in
      absurd (subst (λ (x : List String). In k x) empty i)
  | inr (ks, found) ↦
      let held : groups_of_role ctx role ≡ ks = rw (found, groups_of_role) in
      (role, ks, found, subst (λ (x : List String). In k x) held i)
]

In-add_role_keys :
    (ctx : PermissionContext) (k : String) (keys roles : List String)
    → In k (add_role_keys ctx keys roles)
    → In k keys ⊎ IsMapped ctx k
unfolding add_role_keys
In-add_role_keys ctx k keys [] i = inl i
In-add_role_keys ctx k keys (role ∷ roles) i =
    elim (In-add_role_keys ctx k (add_keys keys (groups_of_role ctx role)) roles i) [
      | inl old ↦ elim (In-add_keys k keys (groups_of_role ctx role) old) [
        | inl o ↦ inl o
        | inr new ↦ inr (In-groups_of_role ctx role k new)
      ]
      | inr mapped ↦ inr mapped
    ]

-- The groups of a member are defaults, or some role maps to them.
pub In-resolve_group_keys :
    (ctx : PermissionContext) (k : String)
    → In k (resolve_group_keys ctx)
    → In k ctx.default_group_keys ⊎ IsMapped ctx k
unfolding resolve_group_keys
In-resolve_group_keys ctx k i =
    elim (In-add_role_keys ctx k (add_keys [] ctx.default_group_keys) ctx.member_role_ids i) [
      | inl old ↦ elim (In-add_keys k [] ctx.default_group_keys old) [
        | inl none_left ↦ absurd none_left
        | inr new ↦ inl new
      ]
      | inr mapped ↦ inr mapped
    ]
