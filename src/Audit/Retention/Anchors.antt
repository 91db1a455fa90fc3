-- ===== src/Audit/Retention/Anchors.antt =====
-- Whether a chain still verifies after a sweep of retention.service.ts.
use armstrong_bot.Prelude.{
  ℕ, ◌+◌, ◌-◌, ◌≤◌, ◌≡◌, ◌≢◌, sym, ap, ◌∙◌, subst, inl, inr, String, Bool, true, false, List, [],
  ◌∷◌, Option, none, some, ltb, Result, ok, err, arith, Bool-cases, Option-cases, length,
}
use armstrong_bot.Audit.Chain.{AuditEntry, HashAlgorithm, Content, ChainAnchor, is_valid, verify}
use armstrong_bot.Audit.Chain.Links.{Follows, Starts, IsChain, verify_iff}
use armstrong_bot.Audit.Retention.{
  RetentionConfig, AuditArchive, Ledger, SweepError, boundary_vanished, write_failed,
  compute_cutoff, find_by_seq, prune_up_to, find_anchor, prune_bound, new_archive, archive_range,
  before_prune, prune, sweep_chain, anchor_of, verify_chain,
}
use armstrong_bot.Audit.Retention.Pruning.{prune_up_to-IsRest}

abbrev pub ledger_of : List AuditEntry → List AuditArchive → Ledger
ledger_of es archives = record { entries = es; archives = archives }

module _ (digest : HashAlgorithm → Content → String) (algorithm : HashAlgorithm) where
  abbrev pub IsIntact : Ledger → Type 0
  IsIntact l = IsChain digest algorithm (anchor_of l) l.entries

  pub Starts-pos :
      (anchor : Option ChainAnchor) (e : AuditEntry) → Starts digest algorithm anchor e → 1 ≤ e.seq
  Starts-pos anchor e (inl first, hashed) = omega (arith, first.0)
  Starts-pos anchor e (inr (later, (a, found, counted, linked)), hashed) = omega (arith, counted)

  -- The ledger that is left when the entries up to `bound`, with boundary `b`, were archived.
  abbrev pruned : ℕ → ℕ → AuditEntry → Ledger → Ledger
  pruned first bound b l = record {
    entries = prune_up_to bound l.entries;
    archives = new_archive first bound b ∷ l.archives;
  }

  prune-archive_range-IsIntact :
      (written : Bool) (first bound : ℕ) (l : Ledger)
      → IsIntact l
      → ((b : AuditEntry)
          → find_by_seq bound l.entries ≡ some b
          → IsIntact (pruned first bound b l))
      → IsIntact (prune bound l (archive_range written first bound l)).1
  unfolding prune archive_range
  prune-archive_range-IsIntact written first bound l h next =
      elim (Option-cases (find_by_seq bound l.entries)) [
        | inl gone ↦
            let stops : prune bound l (archive_range written first bound l)
                ≡ (err (boundary_vanished bound), l) =
              rw (gone, archive_range, prune) in
            subst (λ (o : Result SweepError ℕ × Ledger). IsIntact o.1) (sym stops) h
        | inr (b, found) ↦ elim (Bool-cases written) [
          | inr fails ↦
              let stops : prune bound l (archive_range written first bound l)
                  ≡ (err write_failed, l) =
                rw (found, fails, archive_range, prune) in
              subst (λ (o : Result SweepError ℕ × Ledger). IsIntact o.1) (sym stops) h
          | inl works ↦
              let goes : prune bound l (archive_range written first bound l) ≡ (
                ok (length l.entries - length (prune_up_to bound l.entries)),
                pruned first bound b l,
              ) =
                rw (found, works, archive_range, prune) in
              subst (λ (o : Result SweepError ℕ × Ledger). IsIntact o.1) (sym goes) (next b found)
        ]
      ]

  IsIntact-empty : (l : Ledger) → l.entries ≡ [] → IsIntact l
  IsIntact-empty l e =
      subst (λ (es : List AuditEntry). IsChain digest algorithm (anchor_of l) es) (sym e) tt

  -- The first survivor links to the archive of the boundary.
  IsIntact-pruned :
      (first bound : ℕ) (p b : AuditEntry) (es : List AuditEntry) (archives : List AuditArchive)
      → 1 ≤ p.seq
      → Follows digest algorithm p es
      → p.seq ≤ bound
      → find_by_seq bound (p ∷ es) ≡ some b
      → IsIntact (pruned first bound b (record { entries = p ∷ es; archives = archives }))
  IsIntact-pruned first bound p b es archives pos h le found =
      elim (prune_up_to-IsRest digest algorithm bound p es h le) [
        | inl gone ↦
            IsIntact-empty (pruned first bound b (record { entries = p ∷ es; archives = archives }))
              gone
        | inr r ↦
            let same : b ≡ r.boundary = cc (found, r.found) in
            let counted : r.next.seq ≡ bound + 1 = omega (arith, r.linked.1, r.at_boundary) in
            let looked : anchor_of (record {
              entries = r.next ∷ r.rest;
              archives = new_archive first bound b ∷ archives;
            })
                ≡ some (record { to_seq = bound; root_hash = b.hash }) =
              ground (arith, counted, pos, le) in
            let linked : r.next.previous_hash ≡ some b.hash =
              r.linked.0 ∙ ap (λ (z : AuditEntry). some z.hash) (sym same) in
            let later : r.next.seq ≢ 1 = λ h. omega (arith, h, counted, pos, le) in
            subst
              (λ (left : List AuditEntry).
                IsIntact
                  (record { entries = left; archives = new_archive first bound b ∷ archives }))
              (sym r.left)
              (
                (
                  inr (
                    later,
                    (record { to_seq = bound; root_hash = b.hash }, looked, counted, linked),
                  ),
                  r.linked.2,
                ),
                r.follows,
              )
      ]

  sweep_chain-IsIntact :
      (config : RetentionConfig) (now : ℕ) (written : Bool) (es : List AuditEntry)
      (archives : List AuditArchive)
      → config.archive_before_delete ≡ true
      → IsIntact (record { entries = es; archives = archives })
      → IsIntact (sweep_chain config now written (record { entries = es; archives = archives })).1
  unfolding sweep_chain before_prune
  sweep_chain-IsIntact config now written [] archives on h = h
  sweep_chain-IsIntact config now written (p ∷ es) archives on h =
      let l = ledger_of (p ∷ es) archives in
      let bound = prune_bound (compute_cutoff now config.retention_days) (p ∷ es) in
      elim (Bool-cases (ltb bound p.seq)) [
        | inl early ↦
            let stays : sweep_chain config now written l ≡ (ok 0, l) = rw (early, sweep_chain) in
            subst (λ (o : Result SweepError ℕ × Ledger). IsIntact o.1) (sym stays) h
        | inr due ↦
            let goes : sweep_chain config now written l
                ≡ prune bound l (archive_range written p.seq bound l) =
              rw (due, on, sweep_chain, before_prune) in
            subst (λ (o : Result SweepError ℕ × Ledger). IsIntact o.1) (sym goes)
              (prune-archive_range-IsIntact written p.seq bound l h (λ b found.
                IsIntact-pruned p.seq bound p b es archives (Starts-pos (anchor_of l) p h.0) h.1
                  (ground (arith, due)) found))
      ]

  -- With archiving on, a sweep keeps a valid ledger valid, on each of its branches: if nothing is
  -- due, if the archive cannot be written, and if a prefix is pruned, whose archive is then the
  -- anchor of what is left.
  pub sweep_chain-valid :
      (config : RetentionConfig) (now : ℕ) (written : Bool) (l : Ledger)
      → config.archive_before_delete ≡ true
      → is_valid (verify_chain digest algorithm l) ≡ true
      → is_valid (verify_chain digest algorithm (sweep_chain config now written l).1) ≡ true
  unfolding verify_chain
  sweep_chain-valid config now written l on h =
      let t = (sweep_chain config now written l).1 in
      (verify_iff digest algorithm t.entries (anchor_of t)).1 (
        sweep_chain-IsIntact config now written l.entries l.archives on
          ((verify_iff digest algorithm l.entries (anchor_of l)).0 h))

  -- A chain that starts later than at one, just behind a seq at which no archive ends.
  unanchored-invalid :
      (bound : ℕ) (archives : List AuditArchive) (e : AuditEntry) (es : List AuditEntry)
      → 1 ≤ bound
      → e.seq ≡ bound + 1
      → find_anchor bound archives ≡ none
      → is_valid (verify_chain digest algorithm (ledger_of (e ∷ es) archives)) ≡ false
  unfolding verify_chain
  unanchored-invalid bound archives e es pos counted missing =
      let l = ledger_of (e ∷ es) archives in
      let before : e.seq - 1 ≡ bound = omega (arith, counted) in
      let past : ltb 1 e.seq ≡ true = ground (arith, counted, pos) in
      let anchor : anchor_of l ≡ none = rw (past, before) missing in
      elim (Bool-cases (is_valid (verify digest algorithm (e ∷ es) (anchor_of l)))) [
        | inr broken ↦ broken
        | inl valid ↦ elim (((verify_iff digest algorithm (e ∷ es) (anchor_of l)).0 valid).0.0) [
          | inl first ↦ absurd (omega (arith, first.0, counted, pos))
          | inr later ↦ absurd (cc (later.1.1, anchor))
        ]
      ]

  pub sweep_chain-due :
      (config : RetentionConfig) (now : ℕ) (written : Bool) (p : AuditEntry) (es : List AuditEntry)
      (archives : List AuditArchive)
      → ltb (prune_bound (compute_cutoff now config.retention_days) (p ∷ es)) p.seq ≡ false
      → sweep_chain config now written (ledger_of (p ∷ es) archives)
        ≡ prune
            (prune_bound (compute_cutoff now config.retention_days) (p ∷ es))
            (ledger_of (p ∷ es) archives)
            (before_prune config written p.seq
              (prune_bound (compute_cutoff now config.retention_days) (p ∷ es))
              (ledger_of (p ∷ es) archives))
  unfolding sweep_chain
  sweep_chain-due config now written p es archives due = rw (due, sweep_chain)

  prune-unarchived :
      (config : RetentionConfig) (written : Bool) (first bound : ℕ) (l : Ledger)
      → config.archive_before_delete ≡ false
      → prune bound l (before_prune config written first bound l) ≡ (
        ok (length l.entries - length (prune_up_to bound l.entries)),
        record l { entries = prune_up_to bound l.entries },
      )
  unfolding prune before_prune
  prune-unarchived config written first bound l off = rw (off, before_prune, prune)

  -- Without archiving, a sweep that deletes a part of a valid ledger, of which no older archive ends
  -- there, leaves what verification reports as broken.
  pub sweep_chain-invalid :
      (config : RetentionConfig) (now : ℕ) (written : Bool) (p : AuditEntry) (es : List AuditEntry)
      (archives : List AuditArchive)
      → config.archive_before_delete ≡ false
      → is_valid (verify_chain digest algorithm (ledger_of (p ∷ es) archives)) ≡ true
      → p.seq ≤ prune_bound (compute_cutoff now config.retention_days) (p ∷ es)
      → prune_up_to (prune_bound (compute_cutoff now config.retention_days) (p ∷ es)) (p ∷ es) ≢ []
      → find_anchor (prune_bound (compute_cutoff now config.retention_days) (p ∷ es)) archives
        ≡ none
      → is_valid (
          verify_chain digest algorithm
            (sweep_chain config now written (ledger_of (p ∷ es) archives)).1)
        ≡ false
  unfolding sweep_chain before_prune prune verify_chain
  sweep_chain-invalid config now written p es archives off valid le some_left no_anchor =
      let bound = prune_bound (compute_cutoff now config.retention_days) (p ∷ es) in
      let l = ledger_of (p ∷ es) archives in
      let chain = (verify_iff digest algorithm (p ∷ es) (anchor_of l)).0 valid in
      let due : ltb bound p.seq ≡ false = ground (arith, le) in
      let goes : sweep_chain config now written l ≡ (
        ok (length (p ∷ es) - length (prune_up_to bound (p ∷ es))),
        ledger_of (prune_up_to bound (p ∷ es)) archives,
      ) =
        sweep_chain-due config now written p es archives due
        ∙ prune-unarchived config written p.seq bound l off in
      elim (prune_up_to-IsRest digest algorithm bound p es chain.1 le) [
        | inl gone ↦ absurd (some_left gone)
        | inr r ↦
            subst
              (λ (o : Result SweepError ℕ × Ledger).
                is_valid (verify_chain digest algorithm o.1) ≡ false)
              (sym goes)
              (subst
                (λ (left : List AuditEntry).
                  is_valid (verify_chain digest algorithm (ledger_of left archives)) ≡ false)
                (sym r.left)
                (unanchored-invalid bound archives r.next r.rest
                  (omega (arith, le, Starts-pos (anchor_of l) p chain.0))
                  (omega (arith, r.linked.1, r.at_boundary)) no_anchor))
      ]
