-- ===== src/Permissions/Service.antt =====
-- src/core/permissions: application/permission.service.ts with the tables behind it
-- (infrastructure/group.repository.ts, claim-grant.repository.ts, group-inheritance.repository.ts,
-- role-mapping.repository.ts) and the cache of snapshots of application/permission-cache.facade.ts.
-- A call that changes a guild publishes an event, which waits in a queue: its handler, which
-- invalidates the snapshot of the guild, is a step of its own, and so is the end of a snapshot's time.
-- Publishing succeeds, loading a snapshot and putting it in the cache are one step, no guild id is
-- blank, and the ids of new groups are a parameter.
pub mod Tables
pub mod Others
pub mod Fresh
pub mod Current
pub mod Asserting
pub mod Grants
pub mod Defaults
pub mod Tiers
mod Tests
use armstrong_bot.Prelude.{
  ℕ, String, Bool, true, false, List, [], ◌∷◌, ◌++◌, ◌==◌, if◌then◌else◌, Option, none, some,
  includes, lookup, insert, remove, Result, ok, err, ◌>>=◌,
}
use armstrong_bot.Permissions.Claim.{Text, ClaimError}
use armstrong_bot.Permissions.Resolver.{
  Effect, ResolvedGroup, PermissionContext, PermissionDecision, resolve, default_max_depth,
}
use armstrong_bot.Permissions.Service.Tables.{
  Database, StoredGroup, load_rows, load_mappings, find_group_by_key, upsert_mapping,
  remove_mapping, upsert_grant, remove_grant, create_tier_defaults,
}
use armstrong_bot.Permissions.Snapshot.{load_groups, build_role_to_groups}

pub record Actor : Type 0 where
  pub user_id : String
  pub guild_id : String
  pub discord_role_ids : List String
  pub is_guild_owner : Bool

-- `SnapshotData`
pub record Snapshot : Type 0 where
  pub role_to_groups : List (String × List String)
  pub default_group_keys : List String
  pub groups : List (String × ResolvedGroup)

pub data PermissionError : Type 0 where
  permission_denied : Text → PermissionError
  group_not_found : String → PermissionError
  claim_error : ClaimError → PermissionError

pub data PermissionEvent : Type 0 where
  group_assigned group_unassigned : String → String → String → PermissionEvent
  claim_grant_changed : String → String → Text → Option Effect → PermissionEvent
  decision_denied : String → String → Text → PermissionEvent

pub record PermissionState : Type 0 where
  pub db : Database
  pub snapshots : List (String × Snapshot)
  pub events : List PermissionEvent
  -- the guilds of the queued events whose handlers invalidate
  pub pending : List String

-- `loadSnapshot`
unfoldable pub load_snapshot : String → Database → Snapshot
unfolding load_rows load_mappings load_groups build_role_to_groups
load_snapshot guild db = record {
  role_to_groups = build_role_to_groups (load_mappings guild db);
  default_group_keys = "member" ∷ [];
  groups = load_groups (load_rows guild db);
}

-- `getOrSet`: what the cache has, or what is loaded and put there.
unfoldable pub cached_or_loaded :
    String → Option Snapshot → PermissionState → Snapshot × PermissionState
unfolding load_snapshot
cached_or_loaded guild (some snapshot) s = (snapshot, s)
cached_or_loaded guild none s =
    let loaded = load_snapshot guild s.db in
    (loaded, record s { snapshots = insert guild loaded s.snapshots })

unfoldable pub context_of : Snapshot → Actor → Bool → PermissionContext
context_of snapshot actor is_bot_owner = record {
  guild_id = actor.guild_id;
  is_guild_owner = actor.is_guild_owner;
  is_bot_owner = is_bot_owner;
  member_role_ids = actor.discord_role_ids;
  role_to_groups = snapshot.role_to_groups;
  default_group_keys = snapshot.default_group_keys;
  groups = snapshot.groups;
}

-- `invalidate`
abbrev pub invalidate : String → PermissionState → PermissionState
invalidate guild s = record s { snapshots = remove guild s.snapshots }

abbrev pub publish : PermissionEvent → PermissionState → PermissionState
publish event s = record s { events = event ∷ s.events }

-- The tables after a change in a guild, with the event that is published and its delivery queued.
abbrev pub changed : String → Database → PermissionEvent → PermissionState → PermissionState
changed guild db event s = publish event (record s { db = db; pending = s.pending ++ guild ∷ [] })

-- A queued event of the guild leaves the queue, whichever it is.
abbrev pub take_pending : String → List String → List String
take_pending guild [] = []
take_pending guild (g ∷ gs) = if g == guild then gs else g ∷ take_pending guild gs

-- The worker of the queue runs the handler of an event of the guild, if one is queued.
unfoldable pub deliver_event : String → PermissionState → PermissionState
deliver_event guild s =
    if includes guild s.pending
    then invalidate guild (record s { pending = take_pending guild s.pending })
    else s

abbrev pub Answered : Type 0 → Type 0
Answered A = Result PermissionError A × PermissionState

unfoldable pub to_error : {A : Type 0} → Result ClaimError A → Result PermissionError A
to_error (ok a) = ok a
to_error (err e) = err (claim_error e)

unfoldable pub denied_unless : Actor → Text → Answered Bool → Answered (Unit {0})
denied_unless actor claim (err e, s) = (err e, s)
denied_unless actor claim (ok true, s) = (ok tt, s)
denied_unless actor claim (ok false, s) =
    (err (permission_denied claim), publish (decision_denied actor.guild_id actor.user_id claim) s)

module _ (bot_owner_ids : List String) where
  unfoldable pub decide_by : Snapshot → Actor → Text → Result PermissionError PermissionDecision
  unfolding context_of to_error
  decide_by snapshot actor claim = to_error (
      resolve (context_of snapshot actor (includes actor.user_id bot_owner_ids)) claim
        default_max_depth)

  -- `explain`
  unfoldable pub explain : Actor → Text → PermissionState → Answered PermissionDecision
  unfolding cached_or_loaded decide_by
  explain actor claim s =
      let (snapshot, s1) = cached_or_loaded actor.guild_id (lookup actor.guild_id s.snapshots) s in
      (decide_by snapshot actor claim, s1)

  -- `can`
  unfoldable pub can : Actor → Text → PermissionState → Answered Bool
  unfolding explain
  can actor claim s =
      let (decision, s1) = explain actor claim s in
      (decision >>= λ (d : PermissionDecision). ok d.allowed, s1)

  -- `assert`
  unfoldable pub assert_permission : Actor → Text → PermissionState → Answered (Unit {0})
  unfolding can denied_unless
  assert_permission actor claim s = denied_unless actor claim (can actor claim s)

unfoldable pub assign_found :
    String → String → String → Option StoredGroup → PermissionState → Answered (Unit {0})
assign_found guild role key none s = (err (group_not_found key), s)
assign_found guild role key (some g) s =
    (ok tt, changed guild (upsert_mapping guild role g.id s.db) (group_assigned guild role key) s)

-- `assignGroup`
unfoldable pub assign_group : String → String → String → PermissionState → Answered (Unit {0})
unfolding assign_found
assign_group guild role key s = assign_found guild role key (find_group_by_key guild key s.db) s

unfoldable pub unassign_found :
    String → String → String → Option StoredGroup → PermissionState → PermissionState
unassign_found guild role key none s = s
unassign_found guild role key (some g) s =
    changed guild (remove_mapping guild role g.id s.db) (group_unassigned guild role key) s

-- `unassignGroup`
unfoldable pub unassign_group : String → String → String → PermissionState → PermissionState
unfolding unassign_found
unassign_group guild role key s = unassign_found guild role key (find_group_by_key guild key s.db) s

unfoldable pub set_found :
    String → String → Text → Effect → Option StoredGroup → PermissionState → Answered (Unit {0})
set_found guild key claim effect none s = (err (group_not_found key), s)
set_found guild key claim effect (some g) s = (
  ok tt,
  changed guild (upsert_grant guild g.id claim effect s.db)
      (claim_grant_changed guild key claim (some effect)) s,
)

-- `setClaimGrant`
unfoldable pub set_claim_grant :
    String → String → Text → Effect → PermissionState → Answered (Unit {0})
unfolding set_found
set_claim_grant guild key claim effect s =
    set_found guild key claim effect (find_group_by_key guild key s.db) s

unfoldable pub remove_found :
    String → String → Text → Option StoredGroup → PermissionState → PermissionState
remove_found guild key claim none s = s
remove_found guild key claim (some g) s =
    changed guild (remove_grant g.id claim s.db) (claim_grant_changed guild key claim none) s

-- `removeClaimGrant`
unfoldable pub remove_claim_grant : String → String → Text → PermissionState → PermissionState
unfolding remove_found
remove_claim_grant guild key claim s =
    remove_found guild key claim (find_group_by_key guild key s.db) s

-- The handler of `guild.created`: it publishes nothing.
unfoldable pub on_guild_created : (ℕ → String) → String → PermissionState → PermissionState
unfolding create_tier_defaults
on_guild_created new_id guild s = record s { db = create_tier_defaults new_id guild s.db }

-- One call of the service by members and administrators, a snapshot that expires, or a queued event
-- that is handled.
pub data Request : Type 0 where
  explain_request can_request assert_request : Actor → Text → Request
  assign_request unassign_request : String → String → String → Request
  set_request : String → String → Text → Effect → Request
  remove_request : String → String → Text → Request
  expire_request deliver_request : String → Request

unfoldable pub handle_request : List String → Request → PermissionState → PermissionState
unfolding deliver_event explain can assert_permission assign_group unassign_group set_claim_grant
    remove_claim_grant
handle_request owners (explain_request actor claim) s = (explain owners actor claim s).1
handle_request owners (can_request actor claim) s = (can owners actor claim s).1
handle_request owners (assert_request actor claim) s = (assert_permission owners actor claim s).1
handle_request owners (assign_request guild role key) s = (assign_group guild role key s).1
handle_request owners (unassign_request guild role key) s = unassign_group guild role key s
handle_request owners (set_request guild key claim effect) s =
    (set_claim_grant guild key claim effect s).1
handle_request owners (remove_request guild key claim) s = remove_claim_grant guild key claim s
handle_request owners (expire_request guild) s = invalidate guild s
handle_request owners (deliver_request guild) s = deliver_event guild s

unfoldable pub handle_requests : List String → List Request → PermissionState → PermissionState
unfolding handle_request
handle_requests owners [] s = s
handle_requests owners (r ∷ rest) s = handle_requests owners rest (handle_request owners r s)
