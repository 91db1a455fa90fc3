-- ===== src/Audit/Retention/Pruning.antt =====
-- What pruning a prefix leaves of a chain (retention.service.ts).
use armstrong_bot.Prelude.{
  ℕ, ◌≤◌, ◌<◌, ◌≡◌, ◌≢◌, ◌⊎◌, inl, inr, String, List, [], ◌∷◌, some, eqb, arith, Bool-cases,
}
use armstrong_bot.Audit.Chain.{AuditEntry, HashAlgorithm, Content}
use armstrong_bot.Audit.Chain.Links.{IsNext, Follows}
use armstrong_bot.Audit.Retention.{find_by_seq, prune_up_to}

module _ (digest : HashAlgorithm → Content → String) (algorithm : HashAlgorithm) where
  prune_up_to-all :
      (k : ℕ) (p : AuditEntry) (es : List AuditEntry)
      → Follows digest algorithm p es
      → k < p.seq
      → prune_up_to k (p ∷ es) ≡ p ∷ es
  prune_up_to-all k p [] h lt = ground arith
  prune_up_to-all k p (e ∷ es) h lt =
      let rest = prune_up_to-all k e es h.1 (omega (arith, h.0.1)) in ground (arith, rest)

  -- The rest of a chain behind an entry `b`, in the place of what is pruned up to `b`.
  pub record IsRest (k : ℕ) (es : List AuditEntry) : Type 0 where
    pub boundary : AuditEntry
    pub next : AuditEntry
    pub rest : List AuditEntry
    pub at_boundary : boundary.seq ≡ k
    pub found : find_by_seq k es ≡ some boundary
    pub left : prune_up_to k es ≡ next ∷ rest
    pub linked : IsNext digest algorithm boundary next
    pub follows : Follows digest algorithm next rest

  pub prune_up_to-IsRest :
      (k : ℕ) (p : AuditEntry) (es : List AuditEntry)
      → Follows digest algorithm p es
      → p.seq ≤ k
      → (prune_up_to k (p ∷ es) ≡ []) ⊎ IsRest k (p ∷ es)
  prune_up_to-IsRest k p [] h le = inl (ground arith)
  prune_up_to-IsRest k p (e ∷ es) h le = elim (Bool-cases (eqb p.seq k)) [
    | inl here ↦
        let same : p.seq ≡ k = ground arith in
        let all = prune_up_to-all k e es h.1 (omega (arith, h.0.1, same)) in
        inr (record {
          boundary = p;
          next = e;
          rest = es;
          at_boundary = same;
          found = ground arith;
          left = ground (arith, all);
          linked = h.0;
          follows = h.1;
        })
    | inr later ↦
        let differ : p.seq ≢ k = ground arith in
        elim (prune_up_to-IsRest k e es h.1 (omega (arith, h.0.1, differ, le))) [
          | inl gone ↦ inl (ground (arith, gone))
          | inr r ↦ inr (record {
            boundary = r.boundary;
            next = r.next;
            rest = r.rest;
            at_boundary = r.at_boundary;
            found = ground (arith, r.found);
            left = ground (arith, r.left);
            linked = r.linked;
            follows = r.follows;
          })
        ]
  ]
