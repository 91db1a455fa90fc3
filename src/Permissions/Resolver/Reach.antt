-- ===== src/Permissions/Resolver/Reach.antt =====
-- The groups that a member's walk reaches, and what the walk of permission-resolver.service.ts
-- knows of them: an independent reading of the groups as a graph.
use armstrong_bot.Prelude.{
  ℕ, ◌≤◌, ◌≡◌, ◌⊎◌, String, true, List, Option, none, some, ok, lookup, arith, In,
}
use armstrong_bot.Permissions.Claim.{Claim, parse, covers, specificity}
use armstrong_bot.Permissions.Resolver.{
  Effect, grant, deny, ClaimGrant, ResolvedGroup, MatchResult, Walk, on_match,
}

-- Each group stands under its own key, as `loadSnapshot` stores it.
abbrev pub KeysAgree : List (String × ResolvedGroup) → Type 0
KeysAgree groups = (k : String) (g : ResolvedGroup) → lookup k groups ≡ some g → g.key ≡ k

-- A grant whose claim covers the required one, with its verdict and its specificity.
pub record Matches (required : Claim) (e : Effect) (s : ℕ) (gr : ClaimGrant) : Type 0 where
  pub held : Claim
  pub parsed : parse gr.claim ≡ ok held
  pub covered : covers held required ≡ true
  pub ranked : specificity held ≡ s
  pub sided : gr.effect ≡ e

module _ (groups : List (String × ResolvedGroup)) (roots : List String) where
  -- The keys of the present groups that inheritance reaches from the roots.
  pub data IsReachable : String → Type 0 where
    root : (k : String) (g : ResolvedGroup) → In k roots → lookup k groups ≡ some g → IsReachable k
    parent :
        (k p : String) (g h : ResolvedGroup)
        → IsReachable k
        → lookup k groups ≡ some g
        → In p g.parents
        → lookup p groups ≡ some h
        → IsReachable p

  module _ (required : Claim) where
    -- A reachable group has a grant that speaks about the required claim.
    pub record Applies (e : Effect) (s : ℕ) : Type 0 where
      pub key : String
      pub holder : ResolvedGroup
      pub entry : ClaimGrant
      pub reached : IsReachable key
      pub stored : lookup key groups ≡ some holder
      pub listed : In entry holder.grants
      pub matched : Matches required e s entry

abbrev pub best : Effect → Walk → Option MatchResult
best grant w = w.best_grant
best deny w = w.best_deny

-- At least this specific a match is remembered.
abbrev pub AtLeast : ℕ → Option MatchResult → Type 0
AtLeast s none = ⊥
AtLeast s (some m) = s ≤ m.specificity

module _ (required : Claim) where
  -- The best matches of `w` are at least as specific as those of this grant.
  abbrev pub Counts : Walk → ClaimGrant → Type 0
  Counts w gr = (e : Effect) (s : ℕ) → Matches required e s gr → AtLeast s (best e w)

-- Later matches are no less specific.
abbrev pub Grows : Walk → Walk → Type 0
Grows w w' = (e : Effect) (s : ℕ) → AtLeast s (best e w) → AtLeast s (best e w')

pub on_match-Grows : (m : MatchResult) (w : Walk) → Grows w (on_match m w)
unfolding on_match
on_match-Grows m w grant s h = ground arith
on_match-Grows m w deny s h = ground arith

pub on_match-AtLeast :
    (m : MatchResult) (w : Walk) → AtLeast m.specificity (best m.effect (on_match m w))
unfolding on_match
on_match-AtLeast m w = ground arith

pub on_match-visited : (m : MatchResult) (w : Walk) → (on_match m w).visited ≡ w.visited
unfolding on_match
on_match-visited m w = ground arith

pub on_match-best :
    (m n : MatchResult) (w : Walk) (e : Effect)
    → best e (on_match m w) ≡ some n
    → (best e w ≡ some n) ⊎ ((n ≡ m) × (e ≡ m.effect))
unfolding on_match
on_match-best m n w grant h = ground arith
on_match-best m n w deny h = ground arith
