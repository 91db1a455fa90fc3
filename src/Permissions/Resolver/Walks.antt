-- ===== src/Permissions/Resolver/Walks.antt =====
-- What one group's grants, and then a whole walk, leave in the state
-- (permission-resolver.service.ts, `walkGroup`).
use armstrong_bot.Prelude.{
  ℕ, ◌≡◌, refl, ◌∙◌, subst, ◌⊎◌, inl, inr, String, true, false, List, [], ◌∷◌, some, ok, >>=-eq-ok,
  In, Bool-cases,
}
use armstrong_bot.Permissions.Claim.{Claim, parse, covers, specificity}
use armstrong_bot.Permissions.Resolver.{
  Effect, ClaimGrant, MatchResult, Walk, on_match, match_of, walk_grants,
}
use armstrong_bot.Permissions.Resolver.Reach.{
  Matches, best, AtLeast, Counts, Grows, on_match-Grows, on_match-AtLeast, on_match-visited,
  on_match-best,
}

module _ (required : Claim) where
  pub record GrantsSeen (gs : List ClaimGrant) (w w' : Walk) : Type 0 where
    pub same_visited : w'.visited ≡ w.visited
    pub grows : Grows w w'
    pub counts : (gr : ClaimGrant) → In gr gs → Counts required w' gr
    pub from :
        (e : Effect) (n : MatchResult)
        → best e w' ≡ some n
        → (best e w ≡ some n) ⊎ ((gr : ClaimGrant) × In gr gs × Matches required e n.specificity gr)

  Matches-same :
      {g gr : ClaimGrant} {held : Claim} {e : Effect} {s : ℕ}
      → gr ≡ g
      → parse g.claim ≡ ok held
      → Matches required e s gr
      → (covers held required ≡ true) × (specificity held ≡ s) × (g.effect ≡ e)
  Matches-same {g} {gr} {held} same parsed m =
      let one : held ≡ m.held = cc (m.parsed, parsed) in
      (cc (m.covered), cc (m.ranked), cc (m.sided))

  covered-seen :
      (key : String) (g : ClaimGrant) (held : Claim) (w : Walk)
      → parse g.claim ≡ ok held
      → covers held required ≡ true
      → GrantsSeen (g ∷ []) w (on_match (match_of key g held) w)
  covered-seen key g held w parsed c = record {
    same_visited = on_match-visited _ w;
    grows = on_match-Grows _ w;
    counts = λ gr i e s m. elim i [
      | inl same ↦
          let (_, es, ee) = Matches-same same parsed m in
          subst (λ t. AtLeast t (best e (on_match (match_of key g held) w))) es
            (subst (λ x. AtLeast (specificity held) (best x (on_match (match_of key g held) w))) ee
              (on_match-AtLeast (match_of key g held) w))
      | inr none_left ↦ absurd none_left
    ];
    from = λ e n h. elim (on_match-best (match_of key g held) n w e h) [
      | inl old ↦ inl old
      | inr new ↦ inr (
        g,
        inl refl,
        record {
          held = held;
          parsed = parsed;
          covered = c;
          ranked = cc (new.0);
          sided = cc (new.1);
        },
      )
    ];
  }

  uncovered-seen :
      (g : ClaimGrant) (held : Claim) (w : Walk)
      → parse g.claim ≡ ok held
      → covers held required ≡ false
      → GrantsSeen (g ∷ []) w w
  uncovered-seen g held w parsed c = record {
    same_visited = refl;
    grows = λ e s h. h;
    counts = λ gr i e s m. elim i [
      | inl same ↦ let (yes_covered, _, _) = Matches-same same parsed m in absurd (cc)
      | inr none_left ↦ absurd none_left
    ];
    from = λ e n h. inl h;
  }

  GrantsSeen-cons :
      {g : ClaimGrant} {gs : List ClaimGrant} {w w' w'' : Walk}
      → GrantsSeen (g ∷ []) w w'
      → GrantsSeen gs w' w''
      → GrantsSeen (g ∷ gs) w w''
  GrantsSeen-cons {g} {gs} {w} {w'} {w''} a b = record {
    same_visited = b.same_visited ∙ a.same_visited;
    grows = λ e s h. b.grows e s (a.grows e s h);
    counts = λ gr i e s m. elim i [
      | inl here ↦ b.grows e s (a.counts gr (inl here) e s m)
      | inr later ↦ b.counts gr later e s m
    ];
    from = λ e n h. elim (b.from e n h) [
      | inl old ↦ elim (a.from e n old) [
        | inl older ↦ inl older
        | inr (gr, i, m) ↦ inr (gr, elim i [ inl here ↦ inl here | inr k ↦ absurd k ], m)
      ]
      | inr (gr, i, m) ↦ inr (gr, inr i, m)
    ];
  }

  pub walk_grants-seen :
      (key : String) (gs : List ClaimGrant) (w w' : Walk)
      → walk_grants required key gs w ≡ ok w'
      → GrantsSeen gs w w'
  unfolding walk_grants
  walk_grants-seen key [] w w' h = record {
    same_visited = cc;
    grows = λ e s k. subst (λ x. AtLeast s (best e x)) (cc) k;
    counts = λ gr i. absurd i;
    from = λ e n k. inl (cc);
  }
  walk_grants-seen key (g ∷ gs) w w' h =
      let (held, parsed, next) = >>=-eq-ok (parse g.claim) _ h in
      elim (Bool-cases (covers held required)) [
        | inl c ↦
            GrantsSeen-cons (covered-seen key g held w parsed c)
              (walk_grants-seen key gs (on_match (match_of key g held) w) w' (rw c at next))
        | inr c ↦
            GrantsSeen-cons (uncovered-seen g held w parsed c)
              (walk_grants-seen key gs w w' (rw c at next))
      ]
