-- ===== src/Permissions/Resolver/Totality.antt =====
-- When `resolve` of permission-resolver.service.ts returns: the depth limit cannot strike while
-- there are no more groups than levels.
use armstrong_bot.Prelude.{
  ℕ, zero, suc, ◌+◌, ◌≤◌, ◌<◌, ◌≡◌, refl, sym, ap, ◌∙◌, subst, inl, inr, String, false, ◌||◌, List,
  [], ◌∷◌, some, if◌then◌else◌, Result, ok, includes, includes_iff, lookup, arith, In, Bool-cases,
  Option-cases, eq_iff, length,
}
use armstrong_bot.Permissions.Claim.{Text, Claim, ClaimError, parse}
use armstrong_bot.Permissions.Resolver.{
  ClaimGrant, ResolvedGroup, Walk, PermissionContext, PermissionDecision, resolve_group_keys,
  present_groups, sort_by_priority, walk_grants, walk_parents, walk_group, walk_all, fresh_walk,
  decide, resolve, step_match, owner_decision,
}
use armstrong_bot.Permissions.Resolver.Reach.{KeysAgree}
use armstrong_bot.Permissions.Resolver.Walks.{walk_grants-seen}
use armstrong_bot.Permissions.Resolver.Decision.{In-sort, root-of-present}

-- Every grant of every group has a well-formed claim.
abbrev pub AllParse : List (String × ResolvedGroup) → Type 0
AllParse groups =
    (k : String) (g : ResolvedGroup) (gr : ClaimGrant)
    → lookup k groups ≡ some g
    → In gr g.grants
    → (c : Claim) × (parse gr.claim ≡ ok c)

walk_grants_total :
    (required : Claim) (key : String) (gs : List ClaimGrant) (w : Walk)
    → ((gr : ClaimGrant) → In gr gs → (c : Claim) × (parse gr.claim ≡ ok c))
    → (w' : Walk) × (walk_grants required key gs w ≡ ok w')
unfolding walk_grants
walk_grants_total required key [] w h = (w, refl)
walk_grants_total required key (g ∷ gs) w h =
    let (c, parsed) = h g (inl refl) in
    let (w', done) =
      walk_grants_total required key gs (step_match required key g c w) (λ gr i. h gr (inr i)) in
    (w', rw parsed done)

-- The stored groups that are not visited yet.
unvisited : List (String × ResolvedGroup) → List String → ℕ
unvisited [] v = 0
unvisited ((k, _) ∷ m) v = (if includes k v then 0 else 1) + unvisited m v

abbrev Sub : List String → List String → Type 0
Sub v v' = (k : String) → In k v → In k v'

unvisited_mono :
    (m : List (String × ResolvedGroup)) (v v' : List String)
    → Sub v v'
    → unvisited m v' ≤ unvisited m v
unfolding unvisited
unvisited_mono [] v v' s = omega arith
unvisited_mono ((k, g) ∷ m) v v' s =
    ground (arith, unvisited_mono m v v' s, includes_iff k v, includes_iff k v', s k)

unvisited-visit :
    (m : List (String × ResolvedGroup)) (v : List String) (k : String) (g : ResolvedGroup)
    → lookup k m ≡ some g
    → includes k v ≡ false
    → unvisited m (k ∷ v) < unvisited m v
unfolding unvisited
unvisited-visit [] v k g h n = cc
unvisited-visit ((j, x) ∷ m) v k g h n = ground (
  arith,
  eq_iff j k,
  eq_iff k j,
  unvisited-visit m v k g,
  unvisited_mono m v (k ∷ v) (λ x i. inr i),
)

unvisited-le-length :
    (m : List (String × ResolvedGroup)) (v : List String) → unvisited m v ≤ length m
unfolding unvisited
unvisited-le-length [] v = omega arith
unvisited-le-length ((k, g) ∷ m) v = ground (arith, unvisited-le-length m v)

-- A visit that returns, and forgets nothing.
abbrev Returns : Result ClaimError Walk → Walk → Type 0
Returns r w = (w' : Walk) × (r ≡ ok w') × Sub w.visited w'.visited

module _ (groups : List (String × ResolvedGroup)) (required : Claim) (agree : KeysAgree groups)
    (parses : AllParse groups) where
  walk_parents_total :
      (left : ℕ) (visit : ResolvedGroup → Walk → Result ClaimError Walk)
      → ((g : ResolvedGroup) (w : Walk)
          → lookup g.key groups ≡ some g
          → unvisited groups w.visited < left
          → Returns (visit g w) w)
      → (ps : List String) (w : Walk) → unvisited groups w.visited < left
      → Returns (walk_parents visit groups ps w) w
  unfolding walk_parents
  walk_parents_total left visit v [] w lt = (w, refl, λ k i. i)
  walk_parents_total left visit v (p ∷ ps) w lt = elim (Option-cases (lookup p groups)) [
    | inl missing ↦
        let (w', done, s) = walk_parents_total left visit v ps w lt in
        (w', rw (missing, walk_parents) done, s)
    | inr (up, found) ↦
        let own = ap (λ x. lookup x groups) (agree p up found) ∙ found in
        let (w1, visited, s1) = v up w own lt in
        let (w', done, s) =
          walk_parents_total left visit v ps w1
            (omega (arith, unvisited_mono groups w.visited w1.visited s1)) in
        (w', rw (found, walk_parents) (rw visited done), λ k i. s k (s1 k i))
  ]

  walk_group_total :
      (left : ℕ) (g : ResolvedGroup) (w : Walk)
      → lookup g.key groups ≡ some g
      → unvisited groups w.visited < left
      → Returns (walk_group left groups required g w) w
  unfolding walk_group
  walk_group_total zero g w stored lt = elim lt [ ]
  walk_group_total (suc left) g w stored lt = elim (Bool-cases (includes g.key w.visited)) [
    | inl seen ↦ (w, rw seen, λ k i. i)
    | inr fresh ↦
        let entered : Walk = record w { visited = g.key ∷ w.visited } in
        let (w1, counted) =
          walk_grants_total required g.key g.grants entered (λ gr i. parses g.key g gr stored i) in
        let same = (walk_grants-seen required g.key g.grants entered w1 counted).same_visited in
        let fewer : unvisited groups w1.visited < left =
          subst (λ v. unvisited groups v < left) (sym same)
            (omega (arith, unvisited-visit groups w.visited g.key g stored fresh)) in
        let (w', done, s) =
          walk_parents_total left (walk_group left groups required) (walk_group_total left)
            g.parents w1 fewer in
        (
          w',
          rw fresh (rw counted done),
          λ k i. s k (subst (λ (v : List String). In k v) (sym same) (inr i)),
        )
  ]

  walk_all_total :
      (left : ℕ) (gs : List ResolvedGroup) (w : Walk)
      → ((g : ResolvedGroup) → In g gs → lookup g.key groups ≡ some g)
      → unvisited groups w.visited < left
      → (w' : Walk) × (walk_all left groups required gs w ≡ ok w')
  unfolding walk_all
  walk_all_total left [] w h lt = (w, refl)
  walk_all_total left (g ∷ gs) w h lt =
      let (w1, visited, s) = walk_group_total left g w (h g (inl refl)) lt in
      let (w', done) =
        walk_all_total left gs w1 (λ x i. h x (inr i))
          (omega (arith, unvisited_mono groups w.visited w1.visited s)) in
      (w', rw visited done)

-- With groups that stand under their own keys, well-formed claims, and no more groups than
-- `maxDepth`, `resolve` returns a decision, whatever the inheritance is, cycles included.
pub resolve_total :
    (ctx : PermissionContext) (claim : Text) (required : Claim) (max_depth : ℕ)
    → KeysAgree ctx.groups
    → AllParse ctx.groups
    → parse claim ≡ ok required
    → length ctx.groups ≤ max_depth
    → (d : PermissionDecision) × (resolve ctx claim max_depth ≡ ok d)
unfolding resolve
resolve_total ctx claim required max_depth agree parses parsed fits =
    let (w, done) =
      walk_all_total ctx.groups required agree parses (max_depth + 1)
        (sort_by_priority (present_groups ctx.groups (resolve_group_keys ctx))) fresh_walk
        (λ g i.
          let (k, at, s) =
            root-of-present ctx.groups (resolve_group_keys ctx) g
              ((In-sort g (present_groups ctx.groups (resolve_group_keys ctx))).0 i) in
          ap (λ x. lookup x ctx.groups) (agree k g s) ∙ s)
        (omega (arith, unvisited-le-length ctx.groups [])) in
    elim (Bool-cases (ctx.is_bot_owner || ctx.is_guild_owner)) [
      | inl own ↦ (owner_decision, rw own)
      | inr plain ↦ (decide w.best_grant w.best_deny, rw (plain, parsed, done))
    ]
