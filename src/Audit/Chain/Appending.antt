-- ===== src/Audit/Chain/Appending.antt =====
-- That the appending of audit-ingest.processor.ts keeps a ledger a chain.
use armstrong_bot.Prelude.{
  none, Bool-cases, List, Option, Option-cases, Result, String, [], arith, false, inl, inr, ok,
  refl, subst, suc, sym, true, zero, ℕ, ◌++◌, ◌∷◌, ◌≡◌, ◌≢◌,
}
use armstrong_bot.Audit.Chain.{
  AuditEntryDraft, AuditEntry, HashAlgorithm, Content, ChainAnchor, AppendError, is_valid, verify,
  last_of, has_seq, is_refused, next_seq, next_entry, append_all, append_with_retry,
}
use armstrong_bot.Audit.Chain.Links.{Follows, IsChain, verify_iff}

module _ (digest : HashAlgorithm → Content → String) (algorithm : HashAlgorithm) where
  Follows-snoc :
      (p : AuditEntry) (es : List AuditEntry) (draft : AuditEntryDraft)
      → Follows digest algorithm p es
      → Follows digest algorithm p (es ++ next_entry digest algorithm draft (last_of (p ∷ es)) ∷ [])
  Follows-snoc p [] draft h = ((refl, refl, refl), tt)
  Follows-snoc p (e ∷ es) draft h = (h.0, Follows-snoc e es draft h.1)

  -- An entry that is made from the tail of a chain, put at its end, keeps it a chain.
  IsChain-snoc :
      (anchor : Option ChainAnchor) (es : List AuditEntry) (draft : AuditEntryDraft)
      → IsChain digest algorithm anchor es
      → IsChain digest algorithm anchor (es ++ next_entry digest algorithm draft (last_of es) ∷ [])
  IsChain-snoc anchor [] draft h = ((inl (refl, refl), refl), tt)
  IsChain-snoc anchor (e ∷ es) draft h = (h.0, Follows-snoc e es draft h.1)

  IsChain-append_all :
      (anchor : Option ChainAnchor) (ds : List AuditEntryDraft) (es : List AuditEntry)
      → IsChain digest algorithm anchor es
      → IsChain digest algorithm anchor (append_all digest algorithm ds es)
  unfolding append_all
  IsChain-append_all anchor [] es h = h
  IsChain-append_all anchor (d ∷ ds) es h =
      IsChain-append_all anchor ds (es ++ next_entry digest algorithm d (last_of es) ∷ [])
        (IsChain-snoc anchor es d h)

  has_seq-append :
      (n : ℕ) (es fs : List AuditEntry) → has_seq n es ≡ true → has_seq n (es ++ fs) ≡ true
  has_seq-append n [] fs h = cc
  has_seq-append n (e ∷ es) fs h = ground (arith, has_seq-append n es fs)

  has_seq-append_all :
      (n : ℕ) (ds : List AuditEntryDraft) (es : List AuditEntry)
      → has_seq n es ≡ true
      → has_seq n (append_all digest algorithm ds es) ≡ true
  unfolding append_all
  has_seq-append_all n [] es h = h
  has_seq-append_all n (d ∷ ds) es h =
      has_seq-append_all n ds (es ++ next_entry digest algorithm d (last_of es) ∷ [])
        (has_seq-append n es (next_entry digest algorithm d (last_of es) ∷ []) h)

  has_seq-snoc : (e : AuditEntry) (es : List AuditEntry) → has_seq e.seq (es ++ e ∷ []) ≡ true
  has_seq-snoc e [] = ground arith
  has_seq-snoc e (f ∷ es) = ground (arith, has_seq-snoc e es)

  -- If the seq that was read as free still is, no other instance appended.
  append_all-free :
      (ds : List AuditEntryDraft) (es : List AuditEntry)
      → has_seq (next_seq (last_of es)) (append_all digest algorithm ds es) ≡ false
      → append_all digest algorithm ds es ≡ es
  unfolding append_all
  append_all-free [] es h = refl
  append_all-free (d ∷ ds) es h =
      let e = next_entry digest algorithm d (last_of es) in
      let taken : has_seq (next_seq (last_of es)) (append_all digest algorithm ds (es ++ e ∷ []))
          ≡ true =
        has_seq-append_all (next_seq (last_of es)) ds (es ++ e ∷ []) (has_seq-snoc e es) in
      absurd (cc (taken, h))

  has_seq-accepted :
      (e : AuditEntry) (es : List AuditEntry)
      → e.draft.guild_id ≢ none
      → is_refused e es ≡ false
      → has_seq e.seq es ≡ false
  has_seq-accepted e es guilded h = elim (Option-cases e.draft.guild_id) [
    | inl missing ↦ absurd (guilded missing)
    | inr (g, named) ↦ rw (named, is_refused) at h
  ]

  append_with_retry-taken :
      (left : ℕ) (rivals : ℕ → List AuditEntryDraft) (draft : AuditEntryDraft)
      (es : List AuditEntry)
      → is_refused
          (next_entry digest algorithm draft (last_of es))
          (append_all digest algorithm (rivals left) es)
        ≡ true
      → append_with_retry digest algorithm (suc left) rivals draft es
        ≡ append_with_retry digest algorithm left rivals draft
            (append_all digest algorithm (rivals left) es)
  unfolding append_with_retry
  append_with_retry-taken left rivals draft es taken = rw (taken, append_with_retry)

  -- An attempt succeeds if the index accepts the row.
  append_with_retry-free :
      (left : ℕ) (rivals : ℕ → List AuditEntryDraft) (draft : AuditEntryDraft)
      (es : List AuditEntry)
      → is_refused
          (next_entry digest algorithm draft (last_of es))
          (append_all digest algorithm (rivals left) es)
        ≡ false
      → append_with_retry digest algorithm (suc left) rivals draft es ≡ (
        ok (next_entry digest algorithm draft (last_of es)),
        append_all digest algorithm (rivals left) es
            ++ next_entry digest algorithm draft (last_of es) ∷ [],
      )
  unfolding append_with_retry
  append_with_retry-free left rivals draft es free = rw (free, append_with_retry)

  IsChain-append_with_retry :
      (left : ℕ) (rivals : ℕ → List AuditEntryDraft) (draft : AuditEntryDraft)
      (anchor : Option ChainAnchor) (es : List AuditEntry)
      → draft.guild_id ≢ none
      → IsChain digest algorithm anchor es
      → IsChain digest algorithm anchor (append_with_retry digest algorithm left rivals draft es).1
  unfolding append_with_retry
  IsChain-append_with_retry zero rivals draft anchor es guilded h = h
  IsChain-append_with_retry (suc left) rivals draft anchor es guilded h =
      let e = next_entry digest algorithm draft (last_of es) in
      let es' = append_all digest algorithm (rivals left) es in
      elim (Bool-cases (is_refused e es')) [
        | inl taken ↦
            subst
              (λ (o : Result AppendError AuditEntry × List AuditEntry).
                IsChain digest algorithm anchor o.1)
              (sym (append_with_retry-taken left rivals draft es taken))
              (IsChain-append_with_retry left rivals draft anchor es' guilded
                (IsChain-append_all anchor (rivals left) es h))
        | inr free ↦
            let still : es' ≡ es =
              append_all-free (rivals left) es (has_seq-accepted e es' guilded free) in
            subst
              (λ (o : Result AppendError AuditEntry × List AuditEntry).
                IsChain digest algorithm anchor o.1)
              (sym (append_with_retry-free left rivals draft es free))
              (subst (λ (x : List AuditEntry). IsChain digest algorithm anchor (x ++ e ∷ []))
                (sym still) (IsChain-snoc anchor es draft h))
      ]

  -- A valid ledger of a guild stays valid when an entry is appended, whatever other instances append
  -- between the reading of the tail and the insertion, and also when all the attempts fail.
  pub append_with_retry-valid :
      (left : ℕ) (rivals : ℕ → List AuditEntryDraft) (draft : AuditEntryDraft)
      (anchor : Option ChainAnchor) (es : List AuditEntry)
      → draft.guild_id ≢ none
      → is_valid (verify digest algorithm es anchor) ≡ true
      → is_valid (
          verify digest algorithm
            (append_with_retry digest algorithm left rivals draft es).1
            anchor)
        ≡ true
  append_with_retry-valid left rivals draft anchor es guilded h =
      (verify_iff digest algorithm (append_with_retry digest algorithm left rivals draft es).1
          anchor).1
        (IsChain-append_with_retry left rivals draft anchor es guilded
          ((verify_iff digest algorithm es anchor).0 h))
