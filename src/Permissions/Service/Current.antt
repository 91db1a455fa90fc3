-- ===== src/Permissions/Service/Current.antt =====
-- src/core/permissions/application/permission.service.ts: decisions after any requests, which read a
-- cached snapshot and still follow the tables as they are.
use armstrong_bot.Prelude.{false, ◌≡◌, ap, String, List, includes, Result}
use armstrong_bot.Permissions.Claim.{Text}
use armstrong_bot.Permissions.Resolver.{PermissionDecision, resolve, default_max_depth}
use armstrong_bot.Permissions.Snapshot.{get_context}
use armstrong_bot.Permissions.Service.Tables.{Database, load_rows, load_mappings}
use armstrong_bot.Permissions.Service.{
  Actor, PermissionState, PermissionError, load_snapshot, context_of, to_error, decide_by, explain,
}
use armstrong_bot.Permissions.Service.Fresh.{IsCurrent, cached_or_loaded-Reads}

-- What the tables of an actor's guild decide.
abbrev pub decided_by_rows :
    List String → Actor → Text → Database → Result PermissionError PermissionDecision
decided_by_rows owners actor claim db = to_error (
    resolve
      (get_context (load_rows actor.guild_id db) (load_mappings actor.guild_id db) actor.guild_id
        actor.is_guild_owner (includes actor.user_id owners) actor.discord_role_ids)
      claim default_max_depth)

pub explain-of_rows :
    (owners : List String) (actor : Actor) (claim : Text) (s : PermissionState)
    → IsCurrent s
    → includes actor.guild_id s.pending ≡ false
    → (explain owners actor claim s).0 ≡ decided_by_rows owners actor claim s.db
unfolding explain decide_by context_of load_snapshot get_context
explain-of_rows owners actor claim s current handled =
    ap (λ snapshot. decide_by owners snapshot actor claim)
      ((cached_or_loaded-Reads actor.guild_id s current).0 handled)
