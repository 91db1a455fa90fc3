-- ===== src/Audit/Tests.antt =====
-- Runs of the audit chain and its retention at concrete inputs.
use armstrong_bot.Prelude.{
  ℕ, ◌≡◌, ◌≢◌, refl, String, true, false, List, [], ◌∷◌, none, some, arith, inl, inr, In, eqb,
  if◌then◌else◌, ap, sym, ◌∙◌, eq_iff, ◌==◌,
}
use armstrong_bot.Audit.Chain.{
  guild, command, user_actor, AuditEntryDraft, AuditEntry, HashAlgorithm, sha256, Content, is_valid,
  verify, append_with_retry, max_append_attempts,
}
use armstrong_bot.Audit.Chain.Links.{IsChain, verify_iff}
use armstrong_bot.Audit.Chain.Tampering.{content_of, NoCollision, verify-seals}
use armstrong_bot.Audit.Chain.Appending.{append_with_retry-valid}
use armstrong_bot.Audit.Retention.{RetentionConfig, sweep_chain, verify_chain}
use armstrong_bot.Audit.Retention.Anchors.{ledger_of, sweep_chain-valid, sweep_chain-invalid}
use armstrong_bot.Audit.Retention.Kept.{sweep_chain-keeps}

-- A digest for short runs: the action with the hash before it.
abbrev digest : HashAlgorithm → Content → String
digest algorithm c = c.draft.action

abbrev draft_at : String → ℕ → AuditEntryDraft
draft_at action time = record {
  scope = guild;
  guild_id = some "g";
  action = action;
  source = command;
  actor_id = some "u";
  actor_type = user_actor;
  target_type = none;
  target_id = none;
  channel_id = none;
  correlation_id = "c";
  causation_id = none;
  summary = "s";
  metadata = "{}";
  before = none;
  after = none;
  occurred_at = time;
}

a_is_not_b : ◌≢◌ {A = String} "a" "b"
a_is_not_b h = let equal : ("a" == "b") ≡ true = (eq_iff "a" "b").1 h in cc equal

abbrev first_entry : AuditEntry
first_entry = record { draft = draft_at "a" 5; seq = 1; previous_hash = none; hash = "a" }

abbrev second_entry : AuditEntry
second_entry = record {
  draft = draft_at "b" 100000000;
  seq = 2;
  previous_hash = some "a";
  hash = "b";
}

abbrev two_entries : List AuditEntry
two_entries = first_entry ∷ second_entry ∷ []

abbrev rivals : ℕ → List AuditEntryDraft
rivals left = if eqb left 4 then draft_at "r" 6 ∷ [] else []

verify_iff_example :
    (is_valid (verify digest sha256 two_entries none) ≡ true
      → IsChain digest sha256 none two_entries)
    × (IsChain digest sha256 none two_entries
        → is_valid (verify digest sha256 two_entries none) ≡ true)
unfolding verify
verify_iff_example = verify_iff digest sha256 two_entries none

append_with_retry-valid_example :
    is_valid (
      verify digest sha256
        (append_with_retry digest sha256 max_append_attempts rivals (draft_at "n" 7) two_entries).1
        none)
    ≡ true
unfolding verify
append_with_retry-valid_example =
    append_with_retry-valid digest sha256 max_append_attempts rivals (draft_at "n" 7) none
      two_entries (λ h. cc h) refl

-- A window of one day, when the first entry is a day older than the second.
abbrev with_archive : RetentionConfig
with_archive = record { retention_days = 1; archive_before_delete = true }

abbrev without_archive : RetentionConfig
without_archive = record { retention_days = 1; archive_before_delete = false }

sweep_chain-valid_example :
    is_valid (
      verify_chain digest sha256
        (sweep_chain with_archive 100000000 true (ledger_of two_entries [])).1)
    ≡ true
unfolding verify_chain
sweep_chain-valid_example =
    sweep_chain-valid digest sha256 with_archive 100000000 true (ledger_of two_entries []) refl refl

sweep_chain-invalid_example :
    is_valid (
      verify_chain digest sha256
        (sweep_chain without_archive 100000000 true (ledger_of two_entries [])).1)
    ≡ false
unfolding verify_chain
sweep_chain-invalid_example =
    sweep_chain-invalid digest sha256 without_archive 100000000 true first_entry (second_entry ∷ [])
      [] refl refl (omega arith) (λ h. cc) refl

sweep_chain-keeps_example :
    In second_entry (sweep_chain with_archive 100000000 true (ledger_of two_entries [])).1.entries
unfolding verify_chain
sweep_chain-keeps_example =
    sweep_chain-keeps digest sha256 with_archive 100000000 true (ledger_of two_entries [])
      second_entry refl (inr (inl refl)) (omega arith)

two_entries-NoCollision : NoCollision digest sha256 two_entries two_entries
two_entries-NoCollision e f (inl x) (inl y) same = ap content_of x ∙ sym (ap content_of y)
two_entries-NoCollision e f (inr (inl x)) (inr (inl y)) same =
    ap content_of x ∙ sym (ap content_of y)
two_entries-NoCollision e f (inl x) (inr (inl y)) same = absurd (
    a_is_not_b (
      sym (ap (λ (z : AuditEntry). z.draft.action) x)
      ∙ same
      ∙ ap (λ (z : AuditEntry). z.draft.action) y))
two_entries-NoCollision e f (inr (inl x)) (inl y) same = absurd (
    a_is_not_b (
      sym (ap (λ (z : AuditEntry). z.draft.action) y)
      ∙ sym same
      ∙ ap (λ (z : AuditEntry). z.draft.action) x))
two_entries-NoCollision e f (inr (inr x)) y same = elim x [ ]
two_entries-NoCollision e f (inl x) (inr (inr y)) same = elim y [ ]
two_entries-NoCollision e f (inr (inl x)) (inr (inr y)) same = elim y [ ]

verify-seals_example : two_entries ≡ two_entries
unfolding verify
verify-seals_example =
    verify-seals digest sha256 two_entries two_entries second_entry second_entry
      two_entries-NoCollision refl refl refl refl refl
