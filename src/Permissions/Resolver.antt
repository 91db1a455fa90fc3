-- ===== src/Permissions/Resolver.antt =====
-- src/core/permissions/domain/permission-resolver.service.ts, permission-context.ts and
-- permission-decision.ts. A `Record` keyed by text is an association list of its own properties.
pub mod Reach
pub mod Roots
mod Walks
mod Search
pub mod Decision
pub mod Totality
use armstrong_bot.Prelude.{
  ℕ, zero, suc, ◌+◌, String, Bool, true, false, ◌||◌, List, [], ◌∷◌, ◌++◌, Option, none, some, ltb,
  leb, if◌then◌else◌, Result, ok, err, ◌>>=◌, includes, lookup,
}
use armstrong_bot.Prelude.Int.{ℤ, ltb_ℤ}
use armstrong_bot.Permissions.Claim.{
  Text, Claim, ClaimError, max_depth_exceeded, parse, covers, specificity, star,
}

-- `'GRANT' | 'DENY'`
pub data Effect : Type 0 where
  grant deny : Effect

-- `PermissionEffect`
pub data PermissionEffect : Type 0 where
  settled : Effect → PermissionEffect
  unset : PermissionEffect

pub record ClaimGrant : Type 0 where
  pub claim : Text
  pub effect : Effect

pub record ResolvedGroup : Type 0 where
  pub key : String
  pub priority : ℤ
  pub grants : List ClaimGrant
  pub parents : List String

pub record PermissionContext : Type 0 where
  pub guild_id : String
  pub is_guild_owner : Bool
  pub is_bot_owner : Bool
  pub member_role_ids : List String
  pub role_to_groups : List (String × List String)
  pub default_group_keys : List String
  pub groups : List (String × ResolvedGroup)

pub data Source : Type 0 where
  group role_mapping tier_default global fallback : Source

pub record DecisionReason : Type 0 where
  pub source : Source
  pub group_key : Option String
  pub matched_claim : Option Text
  pub effect : PermissionEffect

pub record PermissionDecision : Type 0 where
  pub allowed : Bool
  pub reasons : List DecisionReason

pub record MatchResult : Type 0 where
  pub effect : Effect
  pub specificity : ℕ
  pub group_key : String
  pub matched_claim : Text

-- What the closures of `resolve` mutate while the groups are walked.
pub record Walk : Type 0 where
  pub visited : List String
  pub best_grant : Option MatchResult
  pub best_deny : Option MatchResult

abbrev pub default_max_depth : ℕ
default_max_depth = 8

-- `!best || match.specificity > best.specificity`
abbrev beats : MatchResult → Option MatchResult → Bool
beats m none = true
beats m (some b) = ltb b.specificity m.specificity

abbrev record_match : Effect → MatchResult → Walk → Walk
record_match grant m w = if beats m w.best_grant then record w { best_grant = some m } else w
record_match deny m w = if beats m w.best_deny then record w { best_deny = some m } else w

pub on_match : MatchResult → Walk → Walk
on_match m w = record_match m.effect m w

-- What a grant whose claim covers the required one reports.
abbrev pub match_of : String → ClaimGrant → Claim → MatchResult
match_of key g held = record {
  effect = g.effect;
  specificity = specificity held;
  group_key = key;
  matched_claim = g.claim;
}

abbrev pub step_match : Claim → String → ClaimGrant → Claim → Walk → Walk
step_match required key g held w =
    if covers held required then on_match (match_of key g held) w else w

-- The loop over `group.grants`.
pub walk_grants : Claim → String → List ClaimGrant → Walk → Result ClaimError Walk
walk_grants required key [] w = ok w
walk_grants required key (g ∷ gs) w = do
  held ← parse g.claim
  walk_grants required key gs (step_match required key g held w)

-- The loop over `group.parents`, with the recursive call passed in.
pub walk_parents :
    (ResolvedGroup → Walk → Result ClaimError Walk)
    → List (String × ResolvedGroup)
    → List String
    → Walk
    → Result ClaimError Walk
walk_parents visit groups [] w = ok w
walk_parents visit groups (p ∷ ps) w = elim (lookup p groups) [
  | none ↦ walk_parents visit groups ps w
  | some parent ↦ visit parent w >>= walk_parents visit groups ps
]

-- The number counts the levels that are left: `maxDepth + 1 - depth`, so that at zero the depth has
-- passed the maximum.
pub walk_group :
    ℕ → List (String × ResolvedGroup) → Claim → ResolvedGroup → Walk → Result ClaimError Walk
walk_group zero groups required g w = err max_depth_exceeded
walk_group (suc left) groups required g w = if includes g.key w.visited then ok w else do
  let entered = record w { visited = g.key ∷ w.visited }
  counted ← walk_grants required g.key g.grants entered
  walk_parents (walk_group left groups required) groups g.parents counted

-- `Set.prototype.add` on the keys in insertion order.
abbrev add_key : List String → String → List String
add_key keys k = if includes k keys then keys else keys ++ k ∷ []

add_keys : List String → List String → List String
add_keys keys [] = keys
add_keys keys (k ∷ ks) = add_keys (add_key keys k) ks

abbrev groups_of_role : PermissionContext → String → List String
groups_of_role ctx role = elim (lookup role ctx.role_to_groups) [ none ↦ [] | some ks ↦ ks ]

add_role_keys : PermissionContext → List String → List String → List String
add_role_keys ctx keys [] = keys
add_role_keys ctx keys (role ∷ roles) =
    add_role_keys ctx (add_keys keys (groups_of_role ctx role)) roles

unfoldable pub resolve_group_keys : PermissionContext → List String
unfolding add_role_keys add_keys
resolve_group_keys ctx = add_role_keys ctx (add_keys [] ctx.default_group_keys) ctx.member_role_ids

-- `.map((k) => context.groups[k]).filter((g) => g !== undefined)`
pub present_groups : List (String × ResolvedGroup) → List String → List ResolvedGroup
present_groups groups [] = []
present_groups groups (k ∷ ks) = elim (lookup k groups) [
  | none ↦ present_groups groups ks
  | some g ↦ g ∷ present_groups groups ks
]

-- `.sort((a, b) => b.priority - a.priority)`, which is stable: a group stands before all later ones
-- of its priority.
insert_by_priority : ResolvedGroup → List ResolvedGroup → List ResolvedGroup
insert_by_priority g [] = g ∷ []
insert_by_priority g (h ∷ hs) =
    let later = h ∷ insert_by_priority g hs in
    if ltb_ℤ g.priority h.priority then later else g ∷ h ∷ hs

pub sort_by_priority : List ResolvedGroup → List ResolvedGroup
sort_by_priority [] = []
sort_by_priority (g ∷ gs) = insert_by_priority g (sort_by_priority gs)

pub walk_all :
    ℕ → List (String × ResolvedGroup) → Claim → List ResolvedGroup → Walk → Result ClaimError Walk
walk_all left groups required [] w = ok w
walk_all left groups required (g ∷ gs) w =
    walk_group left groups required g w >>= walk_all left groups required gs

-- The reasons and the verdict at the end of `resolve`.
abbrev reason_of : MatchResult → Effect → DecisionReason
reason_of m e = record {
  source = group;
  group_key = some m.group_key;
  matched_claim = some m.matched_claim;
  effect = settled e;
}

abbrev decide_without_deny : Option MatchResult → PermissionDecision
decide_without_deny (some g) = record { allowed = true; reasons = reason_of g grant ∷ [] }
decide_without_deny none = record {
  allowed = false;
  reasons =
      record { source = fallback; group_key = none; matched_claim = none; effect = unset } ∷ [];
}

abbrev decide : Option MatchResult → Option MatchResult → PermissionDecision
decide best_grant none = decide_without_deny best_grant
decide none (some d) = record { allowed = false; reasons = reason_of d deny ∷ [] }
decide (some g) (some d) =
    if leb g.specificity d.specificity
    then record { allowed = false; reasons = reason_of d deny ∷ [] }
    else decide_without_deny (some g)

abbrev pub owner_decision : PermissionDecision
owner_decision = record {
  allowed = true;
  reasons =
      record {
        source = global;
        group_key = none;
        matched_claim = some star;
        effect = settled grant;
      }
      ∷ [];
}

abbrev fresh_walk : Walk
fresh_walk = record { visited = []; best_grant = none; best_deny = none }

unfoldable pub resolve : PermissionContext → Text → ℕ → Result ClaimError PermissionDecision
unfolding walk_all walk_group walk_grants walk_parents on_match resolve_group_keys present_groups
    sort_by_priority insert_by_priority parse covers specificity
resolve ctx claim_string max_depth =
    if ctx.is_bot_owner || ctx.is_guild_owner then ok owner_decision else do
      required ← parse claim_string
      let groups = present_groups ctx.groups (resolve_group_keys ctx)
      w ← walk_all (max_depth + 1) ctx.groups required (sort_by_priority groups) fresh_walk
      ok (decide w.best_grant w.best_deny)
