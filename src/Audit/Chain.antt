-- ===== src/Audit/Chain.antt =====
-- src/modules/audit: domain/audit-chain.service.ts and the appending of
-- jobs/audit-ingest.processor.ts. The queries all select by a scope and a guild, so the rows are
-- those of one chain, by ascending seq, which is the order in which they are appended. `digest` is
-- the external digest of the canonical text of its content.
pub mod Links
pub mod Tampering
pub mod Appending
use armstrong_bot.Prelude.{
  ℕ, zero, suc, ◌+◌, String, Bool, true, false, ◌&&◌, List, [], ◌∷◌, ◌++◌, Option, none, some, eqb,
  if◌then◌else◌, Result, ok, err, ◌==◌,
}

pub data AuditScope : Type 0 where
  guild global : AuditScope

pub data AuditSource : Type 0 where
  command dashboard api job system event : AuditSource

pub data AuditActorType : Type 0 where
  user_actor system_actor bot_actor : AuditActorType

-- Structured values by their canonical text, times in milliseconds.
pub record AuditEntryDraft : Type 0 where
  pub scope : AuditScope
  pub guild_id : Option String
  pub action : String
  pub source : AuditSource
  pub actor_id : Option String
  pub actor_type : AuditActorType
  pub target_type : Option String
  pub target_id : Option String
  pub channel_id : Option String
  pub correlation_id : String
  pub causation_id : Option String
  pub summary : String
  pub metadata : String
  pub before : Option String
  pub after : Option String
  pub occurred_at : ℕ

pub record AuditEntry : Type 0 where
  pub draft : AuditEntryDraft
  pub seq : ℕ
  pub previous_hash : Option String
  pub hash : String

pub data HashAlgorithm : Type 0 where
  sha256 sha512 : HashAlgorithm

-- What `computeHash` hashes.
pub record Content : Type 0 where
  pub draft : AuditEntryDraft
  pub seq : ℕ
  pub previous_hash : Option String

pub record ChainAnchor : Type 0 where
  pub to_seq : ℕ
  pub root_hash : String

pub record ChainVerification : Type 0 where
  pub checked : ℕ
  pub first_broken_seq : Option ℕ

abbrev pub is_valid : ChainVerification → Bool
is_valid r = elim r.first_broken_seq [ none ↦ true | some _ ↦ false ]

-- `===` on `string | null`
abbrev pub hash_eq : Option String → Option String → Bool
hash_eq none none = true
hash_eq none (some b) = false
hash_eq (some a) none = false
hash_eq (some a) (some b) = a == b

abbrev pub anchored : Option ChainAnchor → ℕ → Option (Option String)
anchored none seq = none
anchored (some a) seq = if eqb (a.to_seq + 1) seq then some (some a.root_hash) else none

-- Here `none` is the source's `undefined`, and `some none` its `null`.
abbrev pub expected_previous : Option AuditEntry → Option ChainAnchor → ℕ → Option (Option String)
expected_previous (some p) anchor seq = some (some p.hash)
expected_previous none anchor seq = if eqb seq 1 then some none else anchored anchor seq

abbrev linkage_ok : Option (Option String) → AuditEntry → Bool
linkage_ok none e = false
linkage_ok (some expected) e = hash_eq e.previous_hash expected

abbrev seq_ok : Option AuditEntry → AuditEntry → Bool
seq_ok none e = true
seq_ok (some p) e = eqb e.seq (p.seq + 1)

abbrev pub last_of : List AuditEntry → Option AuditEntry
last_of [] = none
last_of (e ∷ []) = some e
last_of (e ∷ f ∷ es) = last_of (f ∷ es)

abbrev pub has_seq : ℕ → List AuditEntry → Bool
has_seq seq [] = false
has_seq seq (e ∷ es) = if eqb e.seq seq then true else has_seq seq es

-- `(last?.seq ?? 0n) + 1n` and `last?.hash ?? null`
abbrev pub next_seq : Option AuditEntry → ℕ
next_seq none = 1
next_seq (some p) = p.seq + 1

abbrev pub tail_hash : Option AuditEntry → Option String
tail_hash none = none
tail_hash (some p) = some p.hash

-- Whether the unique index on scope, guild and seq refuses a row: it does not where the guild is NULL.
abbrev pub is_refused : AuditEntry → List AuditEntry → Bool
is_refused e es = elim e.draft.guild_id [ none ↦ false | some _ ↦ has_seq e.seq es ]

pub data AppendError : Type 0 where
  seq_conflict : ℕ → AppendError

abbrev pub max_append_attempts : ℕ
max_append_attempts = 5

module _ (digest : HashAlgorithm → Content → String) (algorithm : HashAlgorithm) where
  abbrev pub compute_hash : AuditEntryDraft → ℕ → Option String → String
  compute_hash draft seq previous =
      digest algorithm (record { draft = draft; seq = seq; previous_hash = previous })

  abbrev pub entry_ok : Option AuditEntry → Option ChainAnchor → AuditEntry → Bool
  entry_ok previous anchor e =
      linkage_ok (expected_previous previous anchor e.seq) e
      && seq_ok previous e
      && compute_hash e.draft e.seq e.previous_hash == e.hash

  -- The loop of `verify`.
  pub verify_from : Option AuditEntry → Option ChainAnchor → ℕ → List AuditEntry → ChainVerification
  verify_from previous anchor checked [] = record { checked = checked; first_broken_seq = none }
  verify_from previous anchor checked (e ∷ es) =
      if entry_ok previous anchor e
      then verify_from (some e) anchor (checked + 1) es
      else record { checked = checked + 1; first_broken_seq = some e.seq }

  unfoldable pub verify : List AuditEntry → Option ChainAnchor → ChainVerification
  unfolding verify_from
  verify entries anchor = verify_from none anchor 0 entries

  -- The entry that a writer makes who read `last` as the tail.
  abbrev pub next_entry : AuditEntryDraft → Option AuditEntry → AuditEntry
  next_entry draft last = record {
    draft = draft;
    seq = next_seq last;
    previous_hash = tail_hash last;
    hash = compute_hash draft (next_seq last) (tail_hash last);
  }

  -- What other instances append, one after another.
  pub append_all : List AuditEntryDraft → List AuditEntry → List AuditEntry
  append_all [] es = es
  append_all (d ∷ ds) es = append_all ds (es ++ next_entry d (last_of es) ∷ [])

  -- `appendWithRetry` with the attempts that are left: in each, other instances may append between
  -- the reading of the tail and the insertion, which the unique index may then refuse.
  unfoldable pub append_with_retry :
      ℕ
      → (ℕ → List AuditEntryDraft)
      → AuditEntryDraft
      → List AuditEntry
      → Result AppendError AuditEntry × List AuditEntry
  unfolding append_all
  append_with_retry zero rivals draft es = (err (seq_conflict (next_seq (last_of es))), es)
  append_with_retry (suc left) rivals draft es =
      let e = next_entry draft (last_of es) in
      let es' = append_all (rivals left) es in
      elim (is_refused e es') [
        | true ↦ append_with_retry left rivals draft es'
        | false ↦ (ok e, es' ++ e ∷ [])
      ]
