-- ===== src/Audit/Retention/Kept.antt =====
-- What a sweep of retention.service.ts never deletes.
use armstrong_bot.Prelude.{
  ℕ, ◌-◌, ◌≤◌, ◌<◌, ◌≡◌, sym, ap, subst, ◌⊎◌, inl, inr, String, Bool, true, List, [], ◌∷◌, some,
  ltb, leb, Result, ok, arith, Bool-cases, Option-cases, In,
}
use armstrong_bot.Audit.Chain.{AuditEntry, HashAlgorithm, Content, is_valid}
use armstrong_bot.Audit.Chain.Links.{Follows, verify_iff}
use armstrong_bot.Audit.Retention.{
  RetentionConfig, AuditArchive, Ledger, SweepError, compute_cutoff, first_seq_at_or_after,
  find_by_seq, prune_up_to, prune_bound, archive_range, before_prune, prune, sweep_chain, anchor_of,
  verify_chain,
}
use armstrong_bot.Audit.Retention.Anchors.{ledger_of, IsIntact, Starts-pos, sweep_chain-due}

In-prune_up_to :
    (bound : ℕ) (e : AuditEntry) (es : List AuditEntry)
    → bound < e.seq
    → In e es
    → In e (prune_up_to bound es)
In-prune_up_to bound e [] lt i = elim i [ ]
In-prune_up_to bound e (x ∷ es) lt (inl same) =
    let kept : ltb bound x.seq ≡ true =
      subst (λ (z : AuditEntry). ltb bound z.seq ≡ true) same (ground (arith, lt)) in
    rw kept (inl same)
In-prune_up_to bound e (x ∷ es) lt (inr later) =
    let rest = In-prune_up_to bound e es lt later in
    elim (Bool-cases (ltb bound x.seq)) [ inl kept ↦ rw kept (inr rest) | inr gone ↦ rw gone rest ]

-- The rows after a sweep are those before it, or those above its bound.
prune-entries :
    (config : RetentionConfig) (written : Bool) (first bound : ℕ) (l : Ledger)
    → ((prune bound l (before_prune config written first bound l)).1.entries ≡ l.entries)
      ⊎ ((prune bound l (before_prune config written first bound l)).1.entries
          ≡ prune_up_to bound l.entries)
unfolding prune before_prune archive_range
prune-entries config written first bound l = elim (Bool-cases config.archive_before_delete) [
  | inr off ↦ inr (rw (off, before_prune, prune))
  | inl on ↦ elim (Option-cases (find_by_seq bound l.entries)) [
    | inl gone ↦ inl (rw (on, gone, before_prune, archive_range, prune))
    | inr (b, found) ↦ elim (Bool-cases written) [
      | inl works ↦ inr (rw (on, found, works, before_prune, archive_range, prune))
      | inr fails ↦ inl (rw (on, found, fails, before_prune, archive_range, prune))
    ]
  ]
]

prune_bound-some :
    (cutoff : ℕ) (es : List AuditEntry) (n : ℕ)
    → first_seq_at_or_after cutoff es ≡ some n
    → prune_bound cutoff es ≡ n - 1
prune_bound-some cutoff es n found = rw (found, prune_bound)

module _ (digest : HashAlgorithm → Content → String) (algorithm : HashAlgorithm) where
  Follows-le :
      (p e : AuditEntry) (es : List AuditEntry)
      → Follows digest algorithm p es
      → In e (p ∷ es)
      → p.seq ≤ e.seq
  Follows-le p e es h (inl same) = omega (arith, ap (λ (z : AuditEntry). z.seq) same)
  Follows-le p e [] h (inr later) = elim later [ ]
  Follows-le p e (x ∷ es) h (inr later) = omega (arith, h.0.1, Follows-le x e es h.1 later)

  -- The first seq inside the window stands at or before each entry inside of it.
  first_seq_at_or_after-le :
      (cutoff : ℕ) (p e : AuditEntry) (es : List AuditEntry)
      → Follows digest algorithm p es
      → In e (p ∷ es)
      → cutoff ≤ e.draft.occurred_at
      → (n : ℕ) × (first_seq_at_or_after cutoff (p ∷ es) ≡ some n) × (p.seq ≤ n) × (n ≤ e.seq)
  first_seq_at_or_after-le cutoff p e es h (inl same) le =
      let fresh : leb cutoff p.draft.occurred_at ≡ true =
        subst (λ (z : AuditEntry). leb cutoff z.draft.occurred_at ≡ true) same
          (ground (arith, le)) in
      (p.seq, rw fresh, omega arith, Follows-le p e es h (inl same))
  first_seq_at_or_after-le cutoff p e [] h (inr later) le = elim later [ ]
  first_seq_at_or_after-le cutoff p e (x ∷ es) h (inr later) le =
      let (n, found, low, high) = first_seq_at_or_after-le cutoff x e es h.1 later le in
      elim (Bool-cases (leb cutoff p.draft.occurred_at)) [
        | inl fresh ↦ (p.seq, rw fresh, omega arith, Follows-le p e (x ∷ es) h (inr later))
        | inr stale ↦ (n, rw stale found, omega (arith, low, h.0.1), high)
      ]

  sweep_chain-In :
      (config : RetentionConfig) (now : ℕ) (written : Bool) (archives : List AuditArchive)
      (p e : AuditEntry) (es : List AuditEntry)
      → 1 ≤ p.seq
      → Follows digest algorithm p es
      → In e (p ∷ es)
      → compute_cutoff now config.retention_days ≤ e.draft.occurred_at
      → In e (sweep_chain config now written (ledger_of (p ∷ es) archives)).1.entries
  unfolding sweep_chain
  sweep_chain-In config now written archives p e es pos h i le =
      let cutoff = compute_cutoff now config.retention_days in
      let bound = prune_bound cutoff (p ∷ es) in
      let l = ledger_of (p ∷ es) archives in
      let (n, found, low, high) = first_seq_at_or_after-le cutoff p e es h i le in
      let below : bound < e.seq =
        omega (arith, prune_bound-some cutoff (p ∷ es) n found, high, low, pos) in
      elim (Bool-cases (ltb bound p.seq)) [
        | inl early ↦
            let stays : sweep_chain config now written l ≡ (ok 0, l) = rw (early, sweep_chain) in
            subst (λ (o : Result SweepError ℕ × Ledger). In e o.1.entries) (sym stays) i
        | inr due ↦
            subst (λ (o : Result SweepError ℕ × Ledger). In e o.1.entries)
              (sym (sweep_chain-due digest algorithm config now written p es archives due))
              (elim (prune-entries config written p.seq bound l) [
                | inl same ↦ subst (λ (x : List AuditEntry). In e x) (sym same) i
                | inr cut ↦
                    subst (λ (x : List AuditEntry). In e x) (sym cut)
                      (In-prune_up_to bound e (p ∷ es) below i)
              ])
      ]

  sweep_chain-keeps_chain :
      (config : RetentionConfig) (now : ℕ) (written : Bool) (archives : List AuditArchive)
      (e : AuditEntry) (es : List AuditEntry)
      → IsIntact digest algorithm (ledger_of es archives)
      → In e es
      → compute_cutoff now config.retention_days ≤ e.draft.occurred_at
      → In e (sweep_chain config now written (ledger_of es archives)).1.entries
  sweep_chain-keeps_chain config now written archives e [] h i le = elim i [ ]
  sweep_chain-keeps_chain config now written archives e (p ∷ es) h i le =
      sweep_chain-In config now written archives p e es
        (Starts-pos digest algorithm (anchor_of (ledger_of (p ∷ es) archives)) p h.0) h.1 i le

  -- No sweep deletes an entry of a valid ledger that is still inside the retention window, on any
  -- branch, and also when entries were recorded out of the order of their times.
  pub sweep_chain-keeps :
      (config : RetentionConfig) (now : ℕ) (written : Bool) (l : Ledger) (e : AuditEntry)
      → is_valid (verify_chain digest algorithm l) ≡ true
      → In e l.entries
      → compute_cutoff now config.retention_days ≤ e.draft.occurred_at
      → In e (sweep_chain config now written l).1.entries
  unfolding verify_chain
  sweep_chain-keeps config now written l e valid i le =
      sweep_chain-keeps_chain config now written l.archives e l.entries
        ((verify_iff digest algorithm l.entries (anchor_of l)).0 valid) i le
