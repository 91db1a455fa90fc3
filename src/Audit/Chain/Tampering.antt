-- ===== src/Audit/Chain/Tampering.antt =====
-- That a chain cannot be changed behind its last hash (audit-chain.service.ts).
use armstrong_bot.Prelude.{
  ◌+◌, ◌≡◌, refl, sym, ap, ◌∙◌, inl, inr, String, true, List, [], ◌∷◌, none, some, arith, length,
  In,
}
use armstrong_bot.Audit.Chain.{
  AuditEntry, HashAlgorithm, Content, is_valid, compute_hash, verify, last_of,
}
use armstrong_bot.Audit.Chain.Links.{Follows, Starts, IsChain, verify_iff}

abbrev pub content_of : AuditEntry → Content
content_of e = record { draft = e.draft; seq = e.seq; previous_hash = e.previous_hash }

-- No two entries of the ledgers have different contents of one digest.
abbrev pub NoCollision :
    (HashAlgorithm → Content → String) → HashAlgorithm → List AuditEntry → List AuditEntry → Type 0
NoCollision digest algorithm es fs =
    (e f : AuditEntry)
    → In e es
    → In f fs
    → digest algorithm (content_of e) ≡ digest algorithm (content_of f)
    → content_of e ≡ content_of f

-- The last entry of a chain that goes on from `p`.
abbrev last_from : AuditEntry → List AuditEntry → AuditEntry
last_from p [] = p
last_from p (e ∷ es) = last_from e es

In-last_from : (p : AuditEntry) (es : List AuditEntry) → In (last_from p es) (p ∷ es)
In-last_from p [] = inl refl
In-last_from p (e ∷ es) = inr (In-last_from e es)

module _ (digest : HashAlgorithm → Content → String) (algorithm : HashAlgorithm) where
  same_content :
      (e f : AuditEntry)
      → (digest algorithm (content_of e) ≡ digest algorithm (content_of f)
          → content_of e ≡ content_of f)
      → compute_hash digest algorithm e.draft e.seq e.previous_hash ≡ e.hash
      → compute_hash digest algorithm f.draft f.seq f.previous_hash ≡ f.hash
      → e.hash ≡ f.hash
      → e ≡ f
  same_content e f free he hf same =
      let content = free (he ∙ same ∙ sym hf) in
      λ i. record {
        draft = (content i).draft;
        seq = (content i).seq;
        previous_hash = (content i).previous_hash;
        hash = same i;
      }

  seq-last_from :
      (p : AuditEntry) (es : List AuditEntry)
      → Follows digest algorithm p es
      → (last_from p es).seq ≡ p.seq + length es
  seq-last_from p [] h = omega arith
  seq-last_from p (e ∷ es) h = omega (arith, seq-last_from e es h.1, h.0.1)

  -- Two runs of one length with the same last hash agree, and so do the hashes before them.
  same_run :
      (p q : AuditEntry) (es fs : List AuditEntry)
      → NoCollision digest algorithm es fs
      → Follows digest algorithm p es
      → Follows digest algorithm q fs
      → length es ≡ length fs
      → (last_from p es).hash ≡ (last_from q fs).hash
      → (p.hash ≡ q.hash) × (es ≡ fs)
  same_run p q [] [] free h k l same = (same, refl)
  same_run p q [] (f ∷ fs) free h k l same = absurd (omega (arith, l))
  same_run p q (e ∷ es) [] free h k l same = absurd (omega (arith, l))
  same_run p q (e ∷ es) (f ∷ fs) free h k l same =
      let (hashes, rest) =
        same_run e f es fs (λ a b i j. free a b (inr i) (inr j)) h.1 k.1 (omega (arith, l)) same in
      let entries = same_content e f (free e f (inl refl) (inl refl)) h.0.2 k.0.2 hashes in
      let previous : some p.hash ≡ some q.hash =
        sym h.0.0 ∙ ap (λ (x : AuditEntry). x.previous_hash) entries ∙ k.0.0 in
      (cc previous, λ i. entries i ∷ rest i)

  IsHashed-last_from :
      (p : AuditEntry) (es : List AuditEntry)
      → compute_hash digest algorithm p.draft p.seq p.previous_hash ≡ p.hash
      → Follows digest algorithm p es
      → compute_hash digest algorithm
          (last_from p es).draft
          (last_from p es).seq
          (last_from p es).previous_hash
        ≡ (last_from p es).hash
  IsHashed-last_from p [] own h = own
  IsHashed-last_from p (e ∷ es) own h = IsHashed-last_from e es h.0.2 h.1

  Starts-first : (x : AuditEntry) → Starts digest algorithm none x → x.seq ≡ 1
  Starts-first x (inl first, hashed) = first.0
  Starts-first x (inr anchored, hashed) = absurd (cc anchored.1.1)

  -- Two whole ledgers whose last hashes agree.
  same_ledger :
      (x y : AuditEntry) (es fs : List AuditEntry)
      → NoCollision digest algorithm (x ∷ es) (y ∷ fs)
      → IsChain digest algorithm none (x ∷ es)
      → IsChain digest algorithm none (y ∷ fs)
      → (last_from x es).hash ≡ (last_from y fs).hash
      → x ∷ es ≡ y ∷ fs
  same_ledger x y es fs free h k same =
      let ends =
        same_content (last_from x es) (last_from y fs)
          (free (last_from x es) (last_from y fs) (In-last_from x es) (In-last_from y fs))
          (IsHashed-last_from x es h.0.1 h.1) (IsHashed-last_from y fs k.0.1 k.1) same in
      let seqs : (last_from x es).seq ≡ (last_from y fs).seq =
        ap (λ (z : AuditEntry). z.seq) ends in
      let (firsts, rest) =
        same_run x y es fs (λ a b i j. free a b (inr i) (inr j)) h.1 k.1
          (omega (
            arith,
            seqs,
            seq-last_from x es h.1,
            seq-last_from y fs k.1,
            Starts-first x h.0,
            Starts-first y k.0,
          ))
          same in
      let first = same_content x y (free x y (inl refl) (inl refl)) h.0.1 k.0.1 firsts in
      λ i. first i ∷ rest i

  last_of-from : (e : AuditEntry) (es : List AuditEntry) → last_of (e ∷ es) ≡ some (last_from e es)
  last_of-from e [] = refl
  last_of-from e (f ∷ es) = last_of-from f es

  -- The last hash of a ledger that was never pruned seals all of it: another ledger that is also
  -- reported as valid and ends in the same hash is the same, entry by entry, unless two of their
  -- contents collide under the digest. So no entry can be changed, added, dropped or moved behind a
  -- known last hash.
  pub verify-seals :
      (es fs : List AuditEntry) (e f : AuditEntry)
      → NoCollision digest algorithm es fs
      → is_valid (verify digest algorithm es none) ≡ true
      → is_valid (verify digest algorithm fs none) ≡ true
      → last_of es ≡ some e
      → last_of fs ≡ some f
      → e.hash ≡ f.hash
      → es ≡ fs
  verify-seals [] fs e f free h k le lf same = absurd (cc)
  verify-seals (x ∷ es) [] e f free h k le lf same = absurd (cc)
  verify-seals (x ∷ es) (y ∷ fs) e f free h k le lf same =
      let ends : some e ≡ some (last_from x es) = sym le ∙ last_of-from x es in
      let ends' : some f ≡ some (last_from y fs) = sym lf ∙ last_of-from y fs in
      let ex : e ≡ last_from x es = cc ends in
      let fy : f ≡ last_from y fs = cc ends' in
      same_ledger x y es fs free ((verify_iff digest algorithm (x ∷ es) none).0 h)
        ((verify_iff digest algorithm (y ∷ fs) none).0 k)
        (sym (ap (λ (z : AuditEntry). z.hash) ex) ∙ same ∙ ap (λ (z : AuditEntry). z.hash) fy)
