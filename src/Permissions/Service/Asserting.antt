-- ===== src/Permissions/Service/Asserting.antt =====
-- src/core/permissions/application/permission.service.ts: what `assert` answers and reports.
use armstrong_bot.Prelude.{◌≡◌, if◌then◌else◌, ◌∷◌, ok, err, Result}
use armstrong_bot.Permissions.Claim.{Text}
use armstrong_bot.Permissions.Resolver.{PermissionDecision}
use armstrong_bot.Permissions.Service.{
  Actor, Answered, PermissionState, PermissionError, permission_denied, decision_denied,
}

-- What `assert` answers and reports from a state, for a decision.
abbrev pub Asserts :
    Actor
    → Text
    → PermissionState
    → Result PermissionError PermissionDecision
    → Answered (Unit {0})
    → Type 0
Asserts actor claim s (err e) answered = (answered.0 ≡ err e) × (answered.1.events ≡ s.events)
Asserts actor claim s (ok d) answered =
    (answered.0 ≡ (if d.allowed then ok tt else err (permission_denied claim)))
    × (answered.1.events ≡ (
        if d.allowed
        then s.events
        else decision_denied actor.guild_id actor.user_id claim ∷ s.events))
