-- ===== src/Permissions/Resolver/Search.antt =====
-- The depth-first walk of permission-resolver.service.ts: it visits reachable groups only, and all
-- parents of what it visits.
use armstrong_bot.Prelude.{
  ℕ, zero, suc, ◌≡◌, refl, sym, ap, ◌∙◌, subst, ◌⊎◌, inl, inr, String, List, [], ◌∷◌, some, Result,
  ok, >>=-eq-ok, includes, includes_iff, lookup, In, Bool-cases, Option-cases,
}
use armstrong_bot.Permissions.Claim.{Claim, ClaimError}
use armstrong_bot.Permissions.Resolver.{
  Effect, grant, deny, ClaimGrant, ResolvedGroup, MatchResult, Walk, walk_grants, walk_parents,
  walk_group, walk_all,
}
use armstrong_bot.Permissions.Resolver.Reach.{
  KeysAgree, IsReachable, parent, Applies, best, AtLeast, Counts,
}
use armstrong_bot.Permissions.Resolver.Walks.{GrantsSeen, walk_grants-seen}

best-visited :
    (e : Effect) (w : Walk) (v : List String) → best e (record w { visited = v }) ≡ best e w
best-visited grant w v = refl
best-visited deny w v = refl

module _ (groups : List (String × ResolvedGroup)) (roots : List String) (required : Claim) where
  -- Between two visits: what is visited is reachable and counted, and what is remembered applies.
  pub record IsTrue (w : Walk) : Type 0 where
    pub reach : (k : String) → In k w.visited → IsReachable groups roots k
    pub counted :
        (k : String) (g : ResolvedGroup) (gr : ClaimGrant)
        → In k w.visited
        → lookup k groups ≡ some g
        → In gr g.grants
        → Counts required w gr
    pub sound :
        (e : Effect) (n : MatchResult)
        → best e w ≡ some n
        → Applies groups roots required e n.specificity

  abbrev pub ParentsIn : String → Walk → Type 0
  ParentsIn k w =
      (g h : ResolvedGroup) (p : String)
      → lookup k groups ≡ some g
      → In p g.parents
      → lookup p groups ≡ some h
      → In p w.visited

  -- Nothing visited is forgotten, and the parents of what is new are visited too.
  pub record Progress (w w' : Walk) : Type 0 where
    pub keeps : (k : String) → In k w.visited → In k w'.visited
    pub closed : (k : String) → In k w'.visited → In k w.visited ⊎ ParentsIn k w'

  pub Progress-refl : (w : Walk) → Progress w w
  Progress-refl w = record { keeps = λ k i. i; closed = λ k i. inl i }

  pub Progress-trans : {a b c : Walk} → Progress a b → Progress b c → Progress a c
  Progress-trans {a} {b} {c} p q = record {
    keeps = λ k i. q.keeps k (p.keeps k i);
    closed = λ k i. elim (q.closed k i) [
      | inl j ↦ elim (p.closed k j) [
        | inl old ↦ inl old
        | inr up ↦ inr (λ g h p s i t. q.keeps p (up g h p s i t))
      ]
      | inr up ↦ inr up
    ];
  }

  -- The state after a group was entered and its grants were counted.
  entered-IsTrue :
      (g : ResolvedGroup) (w w' : Walk)
      → IsTrue w
      → IsReachable groups roots g.key
      → lookup g.key groups ≡ some g
      → GrantsSeen required g.grants (record w { visited = g.key ∷ w.visited }) w'
      → IsTrue w'
  entered-IsTrue g w w' t r stored seen = record {
    reach = λ k i. elim (subst (λ (v : List String). In k v) (seen.same_visited) i) [
      | inl e ↦ subst (λ (x : String). IsReachable groups roots x) (sym e) r
      | inr j ↦ t.reach k j
    ];
    counted = λ k h gr i s j e n m.
        elim (subst (λ (v : List String). In k v) (seen.same_visited) i) [
          | inl same ↦
              let one : h ≡ g = cc (ap (λ x. lookup x groups) same, stored, s) in
              seen.counts gr (subst (λ (x : ResolvedGroup). In gr x.grants) one j) e n m
          | inr old ↦
              seen.grows e n (
                subst (λ o. AtLeast n o) (sym (best-visited e w _))
                  (t.counted k h gr old s j e n m))
        ];
    sound = λ e n h. elim (seen.from e n h) [
      | inl old ↦ t.sound e n (sym (best-visited e w _) ∙ old)
      | inr (gr, i, m) ↦ record {
        key = g.key;
        holder = g;
        entry = gr;
        reached = r;
        stored = stored;
        listed = i;
        matched = m;
      }
    ];
  }

  -- The contract of a visit to one group.
  abbrev pub Visits : (ResolvedGroup → Walk → Result ClaimError Walk) → Type 0
  Visits visit =
      (g : ResolvedGroup) (w w' : Walk)
      → IsTrue w
      → IsReachable groups roots g.key
      → lookup g.key groups ≡ some g
      → visit g w ≡ ok w'
      → IsTrue w' × Progress w w' × In g.key w'.visited

  module _ (agree : KeysAgree groups) where
    under_own_key :
        (p : String) (h : ResolvedGroup) → lookup p groups ≡ some h → lookup h.key groups ≡ some h
    under_own_key p h stored = ap (λ x. lookup x groups) (agree p h stored) ∙ stored

    walk_parents-Visits :
        (visit : ResolvedGroup → Walk → Result ClaimError Walk)
        → Visits visit
        → (ps : List String) (w w' : Walk) → IsTrue w
        → ((p : String) (h : ResolvedGroup)
            → In p ps
            → lookup p groups ≡ some h
            → IsReachable groups roots p)
        → walk_parents visit groups ps w ≡ ok w'
        → IsTrue w'
          × Progress w w'
          × ((p : String) (h : ResolvedGroup)
              → In p ps
              → lookup p groups ≡ some h
              → In p w'.visited)
    unfolding walk_parents
    walk_parents-Visits visit v [] w w' t r h =
        let same : w ≡ w' = cc in
        (
          subst (λ x. IsTrue x) same t,
          subst (λ x. Progress w x) same (Progress-refl w),
          λ p g i. absurd i,
        )
    walk_parents-Visits visit v (p ∷ ps) w w' t r h = elim (Option-cases (lookup p groups)) [
      | inl missing ↦
          let (t', q, all) =
            walk_parents-Visits visit v ps w w' t (λ x g i. r x g (inr i))
              (rw (missing, walk_parents) at h) in
          (
            t',
            q,
            λ x g i s. elim i [
              | inl same ↦ absurd (cc (ap (λ y. lookup y groups) same))
              | inr j ↦ all x g j s
            ],
          )
      | inr (up, found) ↦
          let (w1, visited, next) = >>=-eq-ok (visit up w) _ (rw (found, walk_parents) at h) in
          let own = agree p up found in
          let reached =
            subst (λ x. IsReachable groups roots x) (sym own) (r p up (inl refl) found) in
          let (t1, q1, in1) = v up w w1 t reached (under_own_key p up found) visited in
          let (t2, q2, all) =
            walk_parents-Visits visit v ps w1 w' t1 (λ x g i. r x g (inr i)) next in
          (
            t2,
            Progress-trans q1 q2,
            λ x g i s. elim i [
              | inl same ↦ q2.keeps x (subst (λ (y : String). In y w1.visited) (own ∙ sym same) in1)
              | inr j ↦ all x g j s
            ],
          )
    ]

    walk_group-Visits : (left : ℕ) → Visits (walk_group left groups required)
    unfolding walk_group
    walk_group-Visits zero g w w' t r stored h = cc
    walk_group-Visits (suc left) g w w' t r stored h =
        elim (Bool-cases (includes g.key w.visited)) [
          | inl seen ↦
              let same : w ≡ w' = cc (rw seen at h) in
              (
                subst (λ x. IsTrue x) same t,
                subst (λ x. Progress w x) same (Progress-refl w),
                subst (λ (x : Walk). In g.key x.visited) same
                    ((includes_iff g.key w.visited).0 seen),
              )
          | inr fresh ↦
              let (w1, counted, next) =
                >>=-eq-ok (walk_grants required g.key g.grants _) _ (rw fresh at h) in
              let seen = walk_grants-seen required g.key g.grants _ w1 counted in
              let t1 = entered-IsTrue g w w1 t r stored seen in
              let (t2, q, all) =
                walk_parents-Visits (walk_group left groups required) (walk_group-Visits left)
                  g.parents w1 w' t1 (λ p up i s. parent g.key p g up r stored i s) next in
              (
                t2,
                record {
                  keeps = λ k i.
                      q.keeps k
                        (subst (λ (v : List String). In k v) (sym seen.same_visited) (inr i));
                  closed = λ k i. elim (q.closed k i) [
                    | inl j ↦ elim (subst (λ (v : List String). In k v) seen.same_visited j) [
                      | inl same ↦ inr (λ g' up p s i' s'.
                          let one : g' ≡ g = cc (ap (λ x. lookup x groups) same, stored, s) in
                          all p up (subst (λ (x : ResolvedGroup). In p x.parents) one i') s')
                      | inr old ↦ inl old
                    ]
                    | inr up ↦ inr up
                  ];
                },
                q.keeps g.key
                    (subst (λ (v : List String). In g.key v) (sym seen.same_visited) (inl refl)),
              )
        ]

    pub walk_all-Visits :
        (left : ℕ) (gs : List ResolvedGroup) (w w' : Walk)
        → IsTrue w
        → ((g : ResolvedGroup) → In g gs → IsReachable groups roots g.key)
        → ((g : ResolvedGroup) → In g gs → lookup g.key groups ≡ some g)
        → walk_all left groups required gs w ≡ ok w'
        → IsTrue w' × Progress w w' × ((g : ResolvedGroup) → In g gs → In g.key w'.visited)
    unfolding walk_all
    walk_all-Visits left [] w w' t r s h =
        let same : w ≡ w' = cc in
        (
          subst (λ x. IsTrue x) same t,
          subst (λ x. Progress w x) same (Progress-refl w),
          λ g i. absurd i,
        )
    walk_all-Visits left (g ∷ gs) w w' t r s h =
        let (w1, visited, next) = >>=-eq-ok (walk_group left groups required g w) _ h in
        let (t1, q1, in1) =
          walk_group-Visits left g w w1 t (r g (inl refl)) (s g (inl refl)) visited in
        let (t2, q2, all) =
          walk_all-Visits left gs w1 w' t1 (λ x i. r x (inr i)) (λ x i. s x (inr i)) next in
        (
          t2,
          Progress-trans q1 q2,
          λ x i. elim i [
            | inl same ↦
                q2.keeps x.key (subst (λ (y : ResolvedGroup). In y.key w1.visited) (sym same) in1)
            | inr j ↦ all x j
          ],
        )
