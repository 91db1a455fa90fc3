-- ===== src/Permissions/Tests.antt =====
-- Runs of the claims, the resolver and the snapshot at concrete inputs.
use armstrong_bot.Prelude.{
  ◌≢◌, ℕ, ◌≡◌, ◌↔◌, ◌<◌, refl, sym, ap, subst, ◌∙◌, String, true, false, List, [], ◌∷◌, some, ok,
  codes, In, lookup, arith, eq_iff, inl, inr, ◌==◌, ◌⊎◌,
}
use armstrong_bot.Prelude.Int.{pos, negsuc}
use armstrong_bot.Permissions.Claim.{Claim, parse}
use armstrong_bot.Permissions.Resolver
use armstrong_bot.Permissions.Resolver.{
  grant, deny, ClaimGrant, ResolvedGroup, PermissionContext, PermissionDecision, resolve,
  resolve_group_keys,
}
use armstrong_bot.Permissions.Resolver.Reach.{KeysAgree, IsReachable, Applies}
use armstrong_bot.Permissions.Resolver.Decision.{resolve_iff}
use armstrong_bot.Permissions.Resolver.Totality.{AllParse, resolve_total}
use armstrong_bot.Permissions.Snapshot.{
  GroupRow, load_resolved_group, load_groups, RoleMapping, get_context,
}
use armstrong_bot.Permissions.Snapshot.Mappings.{get_context-member}
use armstrong_bot.Permissions.Snapshot.Keys.{
  IdsAreNotKeys, load_groups-KeysAgree, load_groups-no-parents,
}

abbrev claim_of : String → Claim
claim_of s = record { value = codes s }

parse_trims : parse (codes "  Tickets.View.* ") ≡ ok (claim_of "tickets.view.*")
unfolding parse
parse_trims = refl

-- Members are granted all of tickets, but closing them is denied; the admins undo that.
abbrev member_row : GroupRow
member_row = record {
  id = "g1";
  key = "member";
  priority = pos 100;
  grants =
      record { claim = codes "tickets.*"; effect = grant }
      ∷ record { claim = codes "tickets.close"; effect = deny }
      ∷ [];
  parent_group_ids = "g0" ∷ [];
}

abbrev base_row : GroupRow
base_row = record {
  id = "g0";
  key = "base";
  priority = pos 0;
  grants = record { claim = codes "fivem.restart"; effect = grant } ∷ [];
  parent_group_ids = [];
}

abbrev sample_rows : List GroupRow
sample_rows = member_row ∷ base_row ∷ []

abbrev sample_context : PermissionContext
sample_context = get_context sample_rows [] "guild" false false []

tickets_view :
    resolve sample_context (codes "tickets.view") 8
    ≡ ok (record {
      allowed = true;
      reasons =
          record {
            source = Resolver.group;
            group_key = some "member";
            matched_claim = some (codes "tickets.*");
            effect = Resolver.settled grant;
          }
          ∷ [];
    })
unfolding get_context resolve
tickets_view = refl

sample-KeysAgree : KeysAgree sample_context.groups
unfolding get_context
sample-KeysAgree = load_groups-KeysAgree sample_rows

-- Closing is denied by the more specific claim.
tickets_close_denied :
    (d : PermissionDecision) × (resolve sample_context (codes "tickets.close") 8 ≡ ok d)
    × (d.allowed ≡ false)
unfolding get_context resolve
tickets_close_denied = (_, refl, refl)

resolve_iff_example : (true ≡ true) ↔ (
    (s : ℕ) × Applies sample_context.groups
      (resolve_group_keys sample_context)
      (claim_of "tickets.view")
      grant
      s
    × ((t : ℕ)
        → Applies sample_context.groups
            (resolve_group_keys sample_context)
            (claim_of "tickets.view")
            deny
            t
        → t < s))
unfolding get_context resolve
resolve_iff_example =
    resolve_iff sample_context (claim_of "tickets.view") sample-KeysAgree (codes "tickets.view") 8
      (record {
        allowed = true;
        reasons =
            record {
              source = Resolver.group;
              group_key = some "member";
              matched_claim = some (codes "tickets.*");
              effect = Resolver.settled grant;
            }
            ∷ [];
      })
      refl refl refl

-- Two groups that inherit from one another.
abbrev cycle_a : ResolvedGroup
cycle_a = record {
  key = "a";
  priority = negsuc 0;
  grants = record { claim = codes "x.*"; effect = grant } ∷ [];
  parents = "b" ∷ [];
}

abbrev cycle_b : ResolvedGroup
cycle_b = record {
  key = "b";
  priority = pos 1;
  grants = record { claim = codes "x.y"; effect = deny } ∷ [];
  parents = "a" ∷ [];
}

abbrev cycle_context : PermissionContext
cycle_context = record sample_context {
  default_group_keys = "a" ∷ [];
  groups = ("a", cycle_a) ∷ ("b", cycle_b) ∷ [];
}

cycle-KeysAgree : KeysAgree cycle_context.groups
cycle-KeysAgree k g h = ground (arith, eq_iff "a" k, eq_iff "b" k)

cycle-entry :
    (k : String) (g : ResolvedGroup)
    → lookup k cycle_context.groups ≡ some g
    → (g ≡ cycle_a) ⊎ (g ≡ cycle_b)
cycle-entry k g h = ground arith

only-claim : (gr x : ClaimGrant) → In gr (x ∷ []) → gr.claim ≡ x.claim
only-claim gr x (inl e) = ap (λ (y : ClaimGrant). y.claim) e
only-claim gr x (inr i) = absurd i

parse_cycle :
    (parse (codes "x.*") ≡ ok (claim_of "x.*")) × (parse (codes "x.y") ≡ ok (claim_of "x.y"))
unfolding parse
parse_cycle = (refl, refl)

cycle-AllParse : AllParse cycle_context.groups
cycle-AllParse k g gr h i = elim (cycle-entry k g h) [
  | inl e ↦ (
    claim_of "x.*",
    ap parse (only-claim gr _ (subst (λ (x : ResolvedGroup). In gr x.grants) e i)) ∙ parse_cycle.0,
  )
  | inr e ↦ (
    claim_of "x.y",
    ap parse (only-claim gr _ (subst (λ (x : ResolvedGroup). In gr x.grants) e i)) ∙ parse_cycle.1,
  )
]

resolve_total_example : (d : PermissionDecision) × (resolve cycle_context (codes "x.y") 2 ≡ ok d)
unfolding parse
resolve_total_example =
    resolve_total cycle_context (codes "x.y") (claim_of "x.y") 2 cycle-KeysAgree cycle-AllParse refl
      (omega arith)

sample-parent :
    (child : GroupRow) (p : String) → In child sample_rows → In p child.parent_group_ids → p ≡ "g0"
sample-parent child p (inl e) k = elim (subst (λ (r : GroupRow). In p r.parent_group_ids) e k) [
  | inl same ↦ same
  | inr z ↦ absurd z
]
sample-parent child p (inr (inl e)) k =
    absurd (subst (λ (r : GroupRow). In p r.parent_group_ids) e k)
sample-parent child p (inr (inr z)) k = absurd z

other_texts : (("g0" == "member") ≡ false) × (("g0" == "base") ≡ false)
other_texts = (refl, refl)

g0_is_not_member : ◌≢◌ {A = String} "g0" "member"
g0_is_not_member e = cc ((eq_iff "g0" "member").1 e)

g0_is_not_base : ◌≢◌ {A = String} "g0" "base"
g0_is_not_base e = cc ((eq_iff "g0" "base").1 e)

sample-apart : IdsAreNotKeys sample_rows
sample-apart child other p i (inl o) k e =
    absurd (g0_is_not_member (sym (sample-parent child p i k) ∙ e ∙ ap (λ (r : GroupRow). r.key) o))
sample-apart child other p i (inr (inl o)) k e =
    absurd (g0_is_not_base (sym (sample-parent child p i k) ∙ e ∙ ap (λ (r : GroupRow). r.key) o))
sample-apart child other p i (inr (inr z)) k e = absurd z

load_groups-no-parents_example : In {A = String} "member" ("member" ∷ [])
unfolding load_groups
load_groups-no-parents_example =
    load_groups-no-parents sample_rows ("member" ∷ []) "member" sample-apart
      (IsReachable.root "member" (load_resolved_group member_row) (inl refl) refl)

-- A role is mapped to the group of the base row by its id.
abbrev sample_mappings : List RoleMapping
sample_mappings = record { discord_role_id = "r"; group_id = "g0" } ∷ []

mapping-apart :
    (r : RoleMapping) (row : GroupRow)
    → In r sample_mappings
    → In row sample_rows
    → r.group_id ≢ row.key
mapping-apart r row (inr none_left) i e = none_left
mapping-apart r row (inl m) (inl at) e =
    g0_is_not_member
      (sym (ap (λ (x : RoleMapping). x.group_id) m) ∙ e ∙ ap (λ (x : GroupRow). x.key) at)
mapping-apart r row (inl m) (inr (inl at)) e =
    g0_is_not_base
      (sym (ap (λ (x : RoleMapping). x.group_id) m) ∙ e ∙ ap (λ (x : GroupRow). x.key) at)
mapping-apart r row (inl m) (inr (inr none_left)) e = none_left

get_context-member_example : ◌≡◌ {A = String} "member" "member"
unfolding get_context resolve_group_keys
get_context-member_example =
    get_context-member sample_rows sample_mappings "guild" false false ("r" ∷ []) "member"
      sample-apart mapping-apart
      (IsReachable.root "member" (load_resolved_group member_row) (inl refl) refl)
