-- ===== src/Audit/Chain/Links.antt =====
-- What a chain is, apart from the loop of audit-chain.service.ts that checks one.
use armstrong_bot.Prelude.{
  ℕ, ◌+◌, ◌≡◌, ◌≢◌, ◌↔◌, refl, ◌⊎◌, String, true, List, [], ◌∷◌, Option, none, some, arith, eq_iff,
}
use armstrong_bot.Audit.Chain.{
  AuditEntry, HashAlgorithm, Content, ChainAnchor, is_valid, hash_eq, compute_hash, entry_ok,
  verify_from, verify,
}

hash_eq_iff : (a b : Option String) → (hash_eq a b ≡ true) ↔ (a ≡ b)
hash_eq_iff none none = ground arith
hash_eq_iff none (some b) = ground arith
hash_eq_iff (some a) none = ground arith
hash_eq_iff (some a) (some b) = ground (arith, eq_iff a b)

module _ (digest : HashAlgorithm → Content → String) (algorithm : HashAlgorithm) where
  -- An entry follows another, and carries the hash of its content.
  abbrev pub IsNext : AuditEntry → AuditEntry → Type 0
  IsNext p e =
      (e.previous_hash ≡ some p.hash)
      × (e.seq ≡ p.seq + 1)
      × (compute_hash digest algorithm e.draft e.seq e.previous_hash ≡ e.hash)

  abbrev pub Follows : AuditEntry → List AuditEntry → Type 0
  Follows p [] = Unit {0}
  Follows p (e ∷ es) = IsNext p e × Follows e es

  -- The first entry has seq 1 and no predecessor, or links to the anchor just before it.
  abbrev pub Starts : Option ChainAnchor → AuditEntry → Type 0
  Starts anchor e =
      (((e.seq ≡ 1) × (e.previous_hash ≡ none))
        ⊎ ((e.seq ≢ 1)
            × ((a : ChainAnchor) × (anchor ≡ some a)
                × (e.seq ≡ a.to_seq + 1)
                × (e.previous_hash ≡ some a.root_hash))))
      × (compute_hash digest algorithm e.draft e.seq e.previous_hash ≡ e.hash)

  abbrev pub IsChain : Option ChainAnchor → List AuditEntry → Type 0
  IsChain anchor [] = Unit {0}
  IsChain anchor (e ∷ es) = Starts anchor e × Follows e es

  entry_ok-IsNext :
      (p e : AuditEntry) (anchor : Option ChainAnchor)
      → (entry_ok digest algorithm (some p) anchor e ≡ true) ↔ IsNext p e
  entry_ok-IsNext p e anchor = ground (
    arith,
    hash_eq_iff e.previous_hash (some p.hash),
    eq_iff (compute_hash digest algorithm e.draft e.seq e.previous_hash) e.hash,
  )

  entry_ok-Starts :
      (e : AuditEntry) (anchor : Option ChainAnchor)
      → (entry_ok digest algorithm none anchor e ≡ true) ↔ Starts anchor e
  entry_ok-Starts e none = ground (
    arith,
    hash_eq_iff e.previous_hash none,
    eq_iff (compute_hash digest algorithm e.draft e.seq e.previous_hash) e.hash,
  )
  entry_ok-Starts e (some a) = ground (
    arith,
    hash_eq_iff e.previous_hash none,
    hash_eq_iff e.previous_hash (some a.root_hash),
    eq_iff (compute_hash digest algorithm e.draft e.seq e.previous_hash) e.hash,
  )

  verify_from-Follows :
      (p : AuditEntry) (anchor : Option ChainAnchor) (checked : ℕ) (es : List AuditEntry)
      → (is_valid (verify_from digest algorithm (some p) anchor checked es) ≡ true) ↔ Follows p es
  unfolding verify_from
  verify_from-Follows p anchor checked [] = (λ h. tt, λ h. refl)
  verify_from-Follows p anchor checked (e ∷ es) =
      ground (arith, entry_ok-IsNext p e anchor, verify_from-Follows e anchor (checked + 1) es)

  -- `verify` reports a chain as valid exactly if it is one: every hash is the digest of its entry,
  -- the seqs run on by one, each entry names the hash before it, and the first is number one with no
  -- predecessor or links to the anchor just below it.
  pub verify_iff :
      (es : List AuditEntry) (anchor : Option ChainAnchor)
      → (is_valid (verify digest algorithm es anchor) ≡ true) ↔ IsChain anchor es
  unfolding verify verify_from
  verify_iff [] anchor = (λ h. tt, λ h. refl)
  verify_iff (e ∷ es) anchor =
      ground (arith, entry_ok-Starts e anchor, verify_from-Follows e anchor 1 es)
