-- ===== src/Plugins/Service/Operations.antt =====
-- The operations of src/core/plugins/application/plugin.application-service.ts.
pub mod Requests
pub mod Follows
pub mod Rows
pub mod Statuses
pub mod Registered
pub mod Stuck
use armstrong_bot.Prelude.{
  ◌+◌, String, Bool, true, false, not, List, [], ◌∷◌, ◌++◌, Option, none, some, filter,
  if◌then◌else◌, Result, ok, err, ◌>>=◌, ◌>>◌, lookup, includes, ◌==◌,
}
use armstrong_bot.Prelude as P
use armstrong_bot.Plugins.Manifest.{
  PluginStatus, installed, enabled, disabled, updating, removed, install, enable, disable, update,
  Plugin, PluginError, not_found, invalid_transition, already_installed, unique_violation,
  LoadedPluginEntry,
}
use armstrong_bot.Plugins.Lifecycle.{can_transition, HookRun, run_hook, after_hook, drain_disposers}
use armstrong_bot.Plugins.Service.{
  PluginRecord, installed_event, enabled_event, disabled_event, updated_event, removed_event,
  PluginService, Outcome, find_by_name, name_taken, update_status, soft_delete, update_version,
  set_enablement, set_entry, publish, publish_after, with_status, fail_hook, validate_sdk_range,
  validate_dependencies,
}

-- `requireRecord`, `requireEntry` and `assertTransition`, in front of an operation.
unfoldable pub on_plugin :
    PluginStatus
    → String
    → (PluginRecord → LoadedPluginEntry → PluginService → Outcome)
    → PluginService
    → Outcome
on_plugin next name run s = elim (find_by_name name s.records) [
  | none ↦ (err (not_found name), s)
  | some r ↦ elim (lookup name s.registry) [
    | none ↦ (err (not_found name), s)
    | some e ↦
        if can_transition e.status next
        then run r e s
        else (err (invalid_transition name e.status next), s)
  ]
]

abbrev add_guild : Option String → List String → List String
add_guild none gs = gs
add_guild (some g) gs = if includes g gs then gs else gs ++ g ∷ []

abbrev without : String → List String → List String
without g gs = filter (λ x. not (x == g)) gs

abbrev delete_guild : Option String → List String → List String
delete_guild none gs = gs
delete_guild (some g) gs = without g gs

finish_enable :
    PluginRecord
    → String
    → Option String
    → String
    → LoadedPluginEntry
    → Result PluginError (Unit {0})
    → PluginService
    → Outcome
finish_enable r name guild actor e (err x) s = fail_hook enable guild r name e x s
finish_enable r name guild actor e (ok _) s = publish_after (enabled_event name guild) (
    set_enablement r.id guild true actor (
      update_status r.id enabled (
        set_entry name
          (record e { status = enabled; enabled_guilds = add_guild guild e.enabled_guilds }) s)))

enable_entry :
    HookRun
    → String
    → Option String
    → String
    → PluginRecord
    → LoadedPluginEntry
    → PluginService
    → Outcome
enable_entry run name guild actor r e =
    finish_enable r name guild actor (after_hook enable run e)
      (run_hook e.plugin enable run e.plugin.manifest.name)

unfoldable pub enable_plugin : HookRun → String → Option String → String → PluginService → Outcome
unfolding on_plugin enable_entry finish_enable run_hook after_hook
enable_plugin run name guild actor = on_plugin enabled name (enable_entry run name guild actor)

finish_disable :
    PluginRecord
    → String
    → Option String
    → String
    → LoadedPluginEntry
    → Result PluginError (Unit {0})
    → PluginService
    → Outcome
finish_disable r name guild actor e (err x) s = fail_hook disable guild r name e x s
finish_disable r name guild actor e (ok _) s = publish_after (disabled_event name guild) (
    set_enablement r.id guild false actor (
      update_status r.id disabled (
        set_entry name
          (record (drain_disposers e) {
            status = disabled;
            enabled_guilds = delete_guild guild e.enabled_guilds;
          })
          s)))

disable_entry :
    HookRun
    → String
    → Option String
    → String
    → PluginRecord
    → LoadedPluginEntry
    → PluginService
    → Outcome
disable_entry run name guild actor r e =
    finish_disable r name guild actor (after_hook disable run e)
      (run_hook e.plugin disable run e.plugin.manifest.name)

unfoldable pub disable_plugin : HookRun → String → Option String → String → PluginService → Outcome
unfolding on_plugin disable_entry finish_disable run_hook after_hook drain_disposers
disable_plugin run name guild actor = on_plugin disabled name (disable_entry run name guild actor)

-- `updatePlugin` after the hook: the entry is `e` with the effects of the hook.
finish_update :
    PluginRecord
    → String
    → String
    → Plugin
    → LoadedPluginEntry
    → Result PluginError (Unit {0})
    → PluginService
    → Outcome
finish_update r name actor new_plugin e (err x) s = fail_hook update none r name e x s
finish_update r name actor new_plugin e (ok _) s = (
  ok tt,
  publish (updated_event name r.version new_plugin.manifest.version) (
      update_version r.id new_plugin.manifest.version actor r.version
        (set_entry name (record e { plugin = new_plugin; status = installed }) s)),
)

abbrev new_row : Plugin → PluginService → PluginRecord
new_row plugin s = record {
  id = s.next_id;
  name = plugin.manifest.name;
  version = plugin.manifest.version;
  status = installed;
  deleted = false;
}

abbrev new_entry : Plugin → LoadedPluginEntry
new_entry plugin = record {
  plugin = plugin;
  status = installed;
  enabled_guilds = [];
  registered_command_ids = [];
  disposers = [];
}

-- The row, its first version and the entry.
abbrev with_new_plugin : Plugin → String → PluginService → PluginService
with_new_plugin plugin actor s = set_entry plugin.manifest.name (new_entry plugin) (record s {
  records = s.records ++ new_row plugin s ∷ [];
  next_id = s.next_id + 1;
  history =
      record {
        plugin_id = s.next_id;
        from_version = none;
        to_version = plugin.manifest.version;
        actor_id = actor;
      }
      ∷ s.history;
})

-- `tempEntry` shares the lists of the entry, so what the hook registers stays.
after_update_hook : HookRun → Plugin → LoadedPluginEntry → LoadedPluginEntry
after_update_hook run new_plugin e =
    record (after_hook update run (record e { plugin = new_plugin })) { plugin = e.plugin }

-- The entry has the status `updating` here, in the registry and in its row.
continue_update :
    HookRun
    → PluginRecord
    → String
    → String
    → Result PluginError Plugin
    → LoadedPluginEntry
    → PluginService
    → Outcome
continue_update run r name actor (err x) e s = (err x, s)
continue_update run r name actor (ok new_plugin) e s =
    finish_update r name actor new_plugin (after_update_hook run new_plugin e)
      (run_hook new_plugin update run new_plugin.manifest.name) s

finish_install :
    PluginRecord → LoadedPluginEntry → Result PluginError (Unit {0}) → PluginService → Outcome
finish_install r e (err x) s = fail_hook install none r r.name e x s
finish_install r e (ok _) s =
    (ok tt, publish (installed_event r.name r.version) (set_entry r.name e s))

-- From `repo.create` on.
pub create_plugin : HookRun → Plugin → String → PluginService → Outcome
create_plugin run plugin actor s =
    if name_taken plugin.manifest.name s.records
    then (err (unique_violation plugin.manifest.name), s)
    else finish_install (new_row plugin s) (after_hook install run (new_entry plugin))
        (run_hook plugin install run plugin.manifest.name) (with_new_plugin plugin actor s)

module _ (satisfies : String → String → Bool) (sdk_version : String) where
  -- `loader.load(source)` and the check of the range, both outside of the `try`.
  abbrev load_checked : Result PluginError Plugin → Result PluginError Plugin
  load_checked loaded = do
    new_plugin ← loaded
    validate_sdk_range satisfies new_plugin.manifest sdk_version
    ok new_plugin

  update_entry :
      HookRun
      → Result PluginError Plugin
      → String
      → String
      → PluginRecord
      → LoadedPluginEntry
      → PluginService
      → Outcome
  update_entry run loaded name actor r e s =
      continue_update run r name actor (load_checked loaded) (with_status updating e)
        (update_status r.id updating (set_entry name (with_status updating e) s))

  unfoldable pub update_plugin :
      HookRun → Result PluginError Plugin → String → String → PluginService → Outcome
  unfolding on_plugin update_entry continue_update finish_update run_hook after_hook
      after_update_hook
  update_plugin run loaded name actor = on_plugin updating name (update_entry run loaded name actor)

  validated_install : HookRun → Result PluginError Plugin → String → PluginService → Outcome
  validated_install run (err x) actor s = (err x, s)
  validated_install run (ok plugin) actor s =
      elim (validate_sdk_range satisfies plugin.manifest sdk_version
        >> validate_dependencies satisfies plugin.manifest s.registry) [
          | err x ↦ (err x, s)
          | ok _ ↦ create_plugin run plugin actor s
        ]

  -- `base` is the file's name without its extension.
  unfoldable pub install_plugin :
      HookRun → String → Result PluginError Plugin → String → PluginService → Outcome
  unfolding validated_install create_plugin finish_install run_hook after_hook validate_dependencies
  install_plugin run base loaded actor s = elim (find_by_name base s.records) [
    | some existing ↦ (err (already_installed existing.name), s)
    | none ↦ validated_install run loaded actor s
  ]

-- `removePlugin`: a failing hook is only logged, and what the hook registers goes with the entry.
remove_entry : String → PluginRecord → LoadedPluginEntry → PluginService → Outcome
remove_entry name r e s = (
  ok tt,
  publish (removed_event name)
      (soft_delete r.id (record s { registry = P.remove name s.registry })),
)

unfoldable pub remove_plugin : String → PluginService → Outcome
unfolding on_plugin remove_entry
remove_plugin name = on_plugin removed name (remove_entry name)
