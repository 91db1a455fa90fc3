-- ===== src/Plugins/Service.antt =====
-- src/core/plugins/application/plugin.application-service.ts over the tables of
-- infrastructure/plugin.repository.ts and the map of domain/plugin-registry.ts. An operation takes
-- what its surroundings did (the loaded module, the run of a hook), and gives its result with the
-- state it leaves, on errors too. The times in rows and events, and the log, are left out.
pub mod Operations
use armstrong_bot.Prelude.{
  ℕ, String, Bool, true, false, ◌&&◌, not, List, [], ◌∷◌, Option, none, some, eqb, if◌then◌else◌,
  Result, ok, err, ◌>>=◌, ◌>>◌, guard, lookup, insert, find, ◌==◌,
}
use armstrong_bot.Plugins.Manifest.{
  PluginStatus, installed, errored, removed, Phase, PluginDependency, PluginManifest, PluginError,
  null_in_key, sdk_incompatible, dependency_missing, dependency_incompatible, LoadedPluginEntry,
}

pub record PluginRecord : Type 0 where
  pub id : ℕ
  pub name : String
  pub version : String
  pub status : PluginStatus
  -- `deletedAt !== null`
  pub deleted : Bool

pub record Enablement : Type 0 where
  pub plugin_id : ℕ
  pub guild_id : Option String
  pub enabled_flag : Bool
  pub enabled_by : String

pub record VersionHistory : Type 0 where
  pub plugin_id : ℕ
  pub from_version : Option String
  pub to_version : String
  pub actor_id : String

pub data PluginEvent : Type 0 where
  installed_event : String → String → PluginEvent
  enabled_event disabled_event : String → Option String → PluginEvent
  updated_event : String → String → String → PluginEvent
  removed_event : String → PluginEvent
  errored_event : String → Phase → Option String → PluginEvent

pub record PluginService : Type 0 where
  pub records : List PluginRecord
  pub registry : List (String × LoadedPluginEntry)
  pub enablements : List Enablement
  pub history : List VersionHistory
  pub events : List PluginEvent
  pub next_id : ℕ

abbrev pub Outcome : Type 0
Outcome = Result PluginError (Unit {0}) × PluginService

-- `findFirst({ where: { name, deletedAt: null } })`
abbrev pub find_by_name : String → List PluginRecord → Option PluginRecord
find_by_name name rows = find (λ r. r.name == name && not r.deleted) rows

-- The unique index on `name` also holds the rows that were deleted softly.
abbrev pub name_taken : String → List PluginRecord → Bool
name_taken name [] = false
name_taken name (r ∷ rows) = if r.name == name then true else name_taken name rows

abbrev pub update_row : ℕ → (PluginRecord → PluginRecord) → List PluginRecord → List PluginRecord
update_row id f [] = []
update_row id f (r ∷ rows) = (if eqb r.id id then f r else r) ∷ update_row id f rows

abbrev pub update_status : ℕ → PluginStatus → PluginService → PluginService
update_status id status s = record s {
  records = update_row id (λ r. record r { status = status }) s.records;
}

abbrev pub soft_delete : ℕ → PluginService → PluginService
soft_delete id s = record s {
  records = update_row id (λ r. record r { deleted = true; status = removed }) s.records;
}

-- `updateVersion`, with the row of history that its transaction adds
abbrev pub update_version : ℕ → String → String → String → PluginService → PluginService
update_version id version actor from s = record s {
  records = update_row id (λ r. record r { version = version; status = installed }) s.records;
  history =
      record { plugin_id = id; from_version = some from; to_version = version; actor_id = actor }
      ∷ s.history;
}

abbrev same_guild : Option String → Option String → Bool
same_guild none none = true
same_guild (some a) (some b) = a == b
same_guild _ _ = false

abbrev upsert_enablement : Enablement → List Enablement → List Enablement
upsert_enablement e [] = e ∷ []
upsert_enablement e (x ∷ xs) =
    if eqb x.plugin_id e.plugin_id && same_guild x.guild_id e.guild_id
    then e ∷ xs
    else x ∷ upsert_enablement e xs

-- `setEnablement`, whose upsert throws without a guild.
abbrev pub set_enablement : ℕ → Option String → Bool → String → PluginService → Outcome
set_enablement id none flag actor s = (err null_in_key, s)
set_enablement id (some g) flag actor s = (
  ok tt,
  record s {
    enablements =
        upsert_enablement
          (record { plugin_id = id; guild_id = some g; enabled_flag = flag; enabled_by = actor })
          s.enablements;
  },
)

abbrev pub set_entry : String → LoadedPluginEntry → PluginService → PluginService
set_entry name e s = record s { registry = insert name e s.registry }

abbrev pub publish : PluginEvent → PluginService → PluginService
publish e s = record s { events = e ∷ s.events }

-- The event that follows a write, unless it threw.
abbrev pub publish_after : PluginEvent → Outcome → Outcome
publish_after e (err x, s) = (err x, s)
publish_after e (ok _, s) = (ok tt, publish e s)

abbrev pub with_status : PluginStatus → LoadedPluginEntry → LoadedPluginEntry
with_status status e = record e { status = status }

-- `markErrored` and `emitErrored`, for an entry that is in the registry under `name`.
abbrev pub fail_hook :
    Phase
    → Option String
    → PluginRecord
    → String
    → LoadedPluginEntry
    → PluginError
    → PluginService
    → Outcome
fail_hook phase guild r name e error s = (
  err error,
  publish (errored_event name phase guild)
      (update_status r.id errored (set_entry name (with_status errored e) s)),
)

-- `validateSdkRange` and `validateDependencies` of plugin-dependency.resolver.ts, by the external
-- `semver.satisfies`.
module _ (satisfies : String → String → Bool) where
  abbrev pub validate_sdk_range : PluginManifest → String → Result PluginError (Unit {0})
  validate_sdk_range m host = guard (satisfies host m.sdk_range) (sdk_incompatible m.name)

  validate_dependency :
      String → PluginDependency → Option LoadedPluginEntry → Result PluginError (Unit {0})
  validate_dependency name dep none = err (dependency_missing name dep.name)
  validate_dependency name dep (some e) =
      guard (satisfies e.plugin.manifest.version dep.range) (dependency_incompatible name dep.name)

  validate_all :
      String
      → List PluginDependency
      → List (String × LoadedPluginEntry)
      → Result PluginError (Unit {0})
  validate_all name [] registry = ok tt
  validate_all name (dep ∷ deps) registry = do
    if dep.required then validate_dependency name dep (lookup dep.name registry) else ok tt
    validate_all name deps registry

  unfoldable pub validate_dependencies :
      PluginManifest → List (String × LoadedPluginEntry) → Result PluginError (Unit {0})
  unfolding validate_all validate_dependency
  validate_dependencies m registry = validate_all m.name m.dependencies registry
