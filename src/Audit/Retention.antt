-- ===== src/Audit/Retention.antt =====
-- src/modules/audit/domain/retention.service.ts, the queries of infrastructure/audit.repository.ts
-- that it makes on one chain, and `verifyChain` of application/audit.service.ts. Whether the archive
-- can be written is an input. Seqs count from one, and no time is before 1970.
pub mod Pruning
pub mod Anchors
pub mod Kept
use armstrong_bot.Prelude.{
  ℕ, ◌+◌, ◌-◌, ◌*◌, String, Bool, List, [], ◌∷◌, Option, none, some, eqb, ltb, leb, if◌then◌else◌,
  Result, ok, err, filter, length,
}
use armstrong_bot.Audit.Chain.{
  AuditEntry, HashAlgorithm, Content, ChainAnchor, ChainVerification, verify, last_of,
}

pub record RetentionConfig : Type 0 where
  pub retention_days : ℕ
  pub archive_before_delete : Bool

pub record AuditArchive : Type 0 where
  pub from_seq : ℕ
  pub to_seq : ℕ
  pub entry_count : ℕ
  pub root_hash : String

-- The rows of one chain, and its archives, the newest first.
pub record Ledger : Type 0 where
  pub entries : List AuditEntry
  pub archives : List AuditArchive

pub data SweepError : Type 0 where
  boundary_vanished : ℕ → SweepError
  write_failed : SweepError

abbrev day_ms : ℕ
day_ms = 24 * 60 * 60 * 1000

abbrev pub compute_cutoff : ℕ → ℕ → ℕ
compute_cutoff now retention_days = now - retention_days * day_ms

abbrev pub first_seq : List AuditEntry → Option ℕ
first_seq [] = none
first_seq (e ∷ es) = some e.seq

abbrev pub first_seq_at_or_after : ℕ → List AuditEntry → Option ℕ
first_seq_at_or_after cutoff [] = none
first_seq_at_or_after cutoff (e ∷ es) =
    if leb cutoff e.draft.occurred_at then some e.seq else first_seq_at_or_after cutoff es

abbrev pub find_by_seq : ℕ → List AuditEntry → Option AuditEntry
find_by_seq seq [] = none
find_by_seq seq (e ∷ es) = if eqb e.seq seq then some e else find_by_seq seq es

-- The rows that `pruneUpTo` leaves.
abbrev pub prune_up_to : ℕ → List AuditEntry → List AuditEntry
prune_up_to bound es = filter (λ e. ltb bound e.seq) es

abbrev pub find_anchor : ℕ → List AuditArchive → Option ChainAnchor
find_anchor to_seq [] = none
find_anchor to_seq (a ∷ archives) =
    if eqb a.to_seq to_seq
    then some (record { to_seq = a.to_seq; root_hash = a.root_hash })
    else find_anchor to_seq archives

-- `firstRetained !== null ? firstRetained - 1n : last!.seq`
abbrev pub prune_bound : ℕ → List AuditEntry → ℕ
prune_bound cutoff es = elim (first_seq_at_or_after cutoff es) [
  | some n ↦ n - 1
  | none ↦ elim (last_of es) [ none ↦ 0 | some e ↦ e.seq ]
]

-- The archive that is made of the entries up to `bound`, whose boundary is `b`.
abbrev pub new_archive : ℕ → ℕ → AuditEntry → AuditArchive
new_archive first bound b = record {
  from_seq = first;
  to_seq = bound;
  entry_count = bound + 1 - first;
  root_hash = b.hash;
}

pub archive_range : Bool → ℕ → ℕ → Ledger → Result SweepError Ledger
archive_range written first bound l = elim (find_by_seq bound l.entries) [
  | none ↦ err (boundary_vanished bound)
  | some b ↦
      if written
      then ok (record l { archives = new_archive first bound b ∷ l.archives })
      else err write_failed
]

-- What stands before the deletion.
pub before_prune : RetentionConfig → Bool → ℕ → ℕ → Ledger → Result SweepError Ledger
before_prune config written first bound l =
    if config.archive_before_delete then archive_range written first bound l else ok l

pub prune : ℕ → Ledger → Result SweepError Ledger → Result SweepError ℕ × Ledger
prune bound l (err x) = (err x, l)
prune bound l (ok archived) = (
  ok (length archived.entries - length (prune_up_to bound archived.entries)),
  record archived { entries = prune_up_to bound archived.entries },
)

unfoldable pub sweep_chain : RetentionConfig → ℕ → Bool → Ledger → Result SweepError ℕ × Ledger
unfolding prune before_prune archive_range
sweep_chain config now written l =
    let bound = prune_bound (compute_cutoff now config.retention_days) l.entries in
    elim (first_seq l.entries) [
      | none ↦ (ok 0, l)
      | some first ↦
          if ltb bound first
          then (ok 0, l)
          else prune bound l (before_prune config written first bound l)
    ]

-- The anchor that `verifyChain` looks for.
abbrev pub anchor_of : Ledger → Option ChainAnchor
anchor_of l = elim (first_seq l.entries) [
  | none ↦ none
  | some n ↦ if ltb 1 n then find_anchor (n - 1) l.archives else none
]

unfoldable pub verify_chain :
    (HashAlgorithm → Content → String) → HashAlgorithm → Ledger → ChainVerification
unfolding verify
verify_chain digest algorithm l = verify digest algorithm l.entries (anchor_of l)
