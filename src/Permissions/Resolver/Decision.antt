-- ===== src/Permissions/Resolver/Decision.antt =====
-- What a decision of permission-resolver.service.ts means in terms of the reachable groups.
use armstrong_bot.Prelude.{
  ℕ, ◌+◌, ◌≤◌, ◌<◌, ◌≡◌, refl, sym, ap, ◌∙◌, subst, ◌⊎◌, inl, inr, String, true, false, ◌||◌, List,
  [], ◌∷◌, Option, none, some, ok, >>=-eq-ok, lookup, arith, In, Option-cases, ◌↔◌,
}
use armstrong_bot.Permissions.Claim.{Text, Claim, parse}
use armstrong_bot.Permissions.Resolver.{
  Effect, grant, deny, ResolvedGroup, MatchResult, Walk, PermissionContext, PermissionDecision,
  resolve_group_keys, present_groups, insert_by_priority, sort_by_priority, fresh_walk, decide,
  resolve,
}
use armstrong_bot.Permissions.Resolver.Reach.{
  KeysAgree, IsReachable, root, parent, Applies, best, AtLeast,
}
use armstrong_bot.Permissions.Resolver.Search.{IsTrue, Progress, walk_all-Visits}

In-insert :
    (g h : ResolvedGroup) (gs : List ResolvedGroup)
    → In g (insert_by_priority h gs) ↔ ((g ≡ h) ⊎ In g gs)
unfolding insert_by_priority
In-insert g h [] = (λ i. i, λ i. i)
In-insert g h (x ∷ xs) = ground (arith, In-insert g h xs)

pub In-sort : (g : ResolvedGroup) (gs : List ResolvedGroup) → In g (sort_by_priority gs) ↔ In g gs
unfolding sort_by_priority
In-sort g [] = (λ i. i, λ i. i)
In-sort g (h ∷ hs) = ground (arith, In-insert g h (sort_by_priority hs), In-sort g hs)

present-of-root :
    (groups : List (String × ResolvedGroup)) (ks : List String) (k : String) (g : ResolvedGroup)
    → In k ks
    → lookup k groups ≡ some g
    → In g (present_groups groups ks)
unfolding present_groups
present-of-root groups [] k g i s = absurd i
present-of-root groups (j ∷ ks) k g i s =
    ground (arith, present-of-root groups ks k g, ap (λ x. lookup x groups))

pub root-of-present :
    (groups : List (String × ResolvedGroup)) (ks : List String) (g : ResolvedGroup)
    → In g (present_groups groups ks)
    → (k : String) × In k ks × (lookup k groups ≡ some g)
unfolding present_groups
root-of-present groups [] g i = absurd i
root-of-present groups (j ∷ ks) g i = elim (Option-cases (lookup j groups)) [
  | inl missing ↦
      let (k, at, s) = root-of-present groups ks g (rw (missing, present_groups) at i) in
      (k, inr at, s)
  | inr (h, found) ↦
      elim (let t : In g (h ∷ present_groups groups ks) = rw (found, present_groups) at i in t) [
        | inl same ↦ (j, inl refl, cc)
        | inr later ↦ let (k, at, s) = root-of-present groups ks g later in (k, inr at, s)
      ]
]

decide-true :
    (g d : Option MatchResult)
    → (decide g d).allowed ≡ true
    → (m : MatchResult) × (g ≡ some m)
      × ((n : MatchResult) → d ≡ some n → n.specificity < m.specificity)
decide-true none none h = cc
decide-true none (some d) h = cc
decide-true (some g) none h = (g, refl, λ n e. cc)
decide-true (some g) (some d) h = (g, refl, λ n e. ground arith)

decide_wins :
    (g d : Option MatchResult) (s : ℕ)
    → AtLeast s g
    → ((n : MatchResult) → d ≡ some n → n.specificity < s)
    → (decide g d).allowed ≡ true
decide_wins none d s h k = absurd h
decide_wins (some g) none s h k = refl
decide_wins (some g) (some d) s h k = ground (arith, k d refl)

AtLeast-some :
    (o : Option MatchResult) (s : ℕ)
    → AtLeast s o
    → (n : MatchResult) × (o ≡ some n) × (s ≤ n.specificity)
AtLeast-some none s h = absurd h
AtLeast-some (some n) s h = (n, refl, h)

module _ (ctx : PermissionContext) (required : Claim) (agree : KeysAgree ctx.groups) where
  abbrev pub Speaks : Effect → ℕ → Type 0
  Speaks = Applies ctx.groups (resolve_group_keys ctx) required

  sound_fresh : (e : Effect) (n : MatchResult) → best e fresh_walk ≡ some n → Speaks e n.specificity
  sound_fresh grant n h = cc
  sound_fresh deny n h = cc

  fresh-IsTrue : IsTrue ctx.groups (resolve_group_keys ctx) required fresh_walk
  fresh-IsTrue = record {
    reach = λ k i. absurd i;
    counted = λ k g gr i. absurd i;
    sound = sound_fresh;
  }

  abbrev roots_in_order : List ResolvedGroup
  roots_in_order = sort_by_priority (present_groups ctx.groups (resolve_group_keys ctx))

  root-IsReachable :
      (g : ResolvedGroup)
      → In g roots_in_order
      → IsReachable ctx.groups (resolve_group_keys ctx) g.key × (lookup g.key ctx.groups ≡ some g)
  root-IsReachable g i =
      let (k, at, s) = root-of-present ctx.groups (resolve_group_keys ctx) g ((In-sort g _).0 i) in
      let own = agree k g s in
      (
        subst (λ x. IsReachable ctx.groups (resolve_group_keys ctx) x) (sym own) (root k g at s),
        ap (λ x. lookup x ctx.groups) own ∙ s,
      )

  -- Everything reachable is visited in the end.
  reachable-visited :
      (w : Walk)
      → Progress ctx.groups (resolve_group_keys ctx) required fresh_walk w
      → ((g : ResolvedGroup) → In g roots_in_order → In g.key w.visited)
      → (k : String) → IsReachable ctx.groups (resolve_group_keys ctx) k
      → In k w.visited
  reachable-visited w q all k (root _ g at s) =
      subst (λ (x : String). In x w.visited) (agree k g s)
        (all g ((In-sort g _).1 (present-of-root ctx.groups _ k g at s)))
  reachable-visited w q all k (parent j _ g h r s i t) =
      elim (q.closed j (reachable-visited w q all j r)) [
        | inl old ↦ absurd old
        | inr up ↦ up g h k s i t
      ]

  Speaks-AtLeast :
      (w : Walk)
      → IsTrue ctx.groups (resolve_group_keys ctx) required w
      → ((k : String) → IsReachable ctx.groups (resolve_group_keys ctx) k → In k w.visited)
      → (e : Effect) (s : ℕ) → Speaks e s
      → AtLeast s (best e w)
  Speaks-AtLeast w t all e s a =
      t.counted a.key a.holder a.entry (all a.key a.reached) a.stored a.listed e s a.matched

  -- With groups that stand under their own keys, for a member who owns neither the bot nor the
  -- guild and a well-formed claim: whenever `resolve` returns, it allows the claim exactly when some
  -- group reachable from the member's groups grants it by a claim that is more specific than every
  -- claim by which a reachable group denies it.
  pub resolve_iff :
      (claim : Text) (max_depth : ℕ) (d : PermissionDecision)
      → (ctx.is_bot_owner || ctx.is_guild_owner) ≡ false
      → parse claim ≡ ok required
      → resolve ctx claim max_depth ≡ ok d
      → (d.allowed ≡ true) ↔ ((s : ℕ) × Speaks grant s × ((t : ℕ) → Speaks deny t → t < s))
  unfolding resolve
  resolve_iff claim max_depth d plain parsed h =
      let (w, walked, decided) = >>=-eq-ok _ _ (rw (plain, parsed) at h) in
      let (t, q, all) =
        walk_all-Visits ctx.groups (resolve_group_keys ctx) required agree (max_depth + 1)
          roots_in_order fresh_walk w fresh-IsTrue (λ g i. (root-IsReachable g i).0)
          (λ g i. (root-IsReachable g i).1) walked in
      let seen = reachable-visited w q all in
      let same : d ≡ decide w.best_grant w.best_deny = cc in
      (
        λ allowed.
            let (m, kept, over) =
              decide-true w.best_grant w.best_deny
                (ap (λ (x : PermissionDecision). x.allowed) (sym same) ∙ allowed) in
            (
              m.specificity,
              t.sound grant m kept,
              λ s a.
                  let (n, e, le) = AtLeast-some w.best_deny s (Speaks-AtLeast w t seen deny s a) in
                  omega (arith, over n e),
            ),
        λ (s, a, over).
            ap (λ (x : PermissionDecision). x.allowed) same
            ∙ decide_wins w.best_grant w.best_deny s (Speaks-AtLeast w t seen grant s a)
                (λ n e. over n.specificity (t.sound deny n e)),
      )
