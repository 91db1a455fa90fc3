-- ===== src/Plugins/Service/Operations/Requests.antt =====
-- Shutdown and the removal of a guild in src/core/plugins/application/plugin.application-service.ts,
-- and one call of the service.
use armstrong_bot.Prelude.{
  String, Bool, List, [], ◌∷◌, Option, if◌then◌else◌, Result, ok, err, includes,
}
use armstrong_bot.Plugins.Manifest.{
  enabled, disabled, errored, disable, Plugin, PluginError, LoadedPluginEntry,
}
use armstrong_bot.Plugins.Lifecycle.{status_eq, HookRun, run_hook, after_hook, drain_disposers}
use armstrong_bot.Plugins.Service.{PluginService, Outcome, with_status}
use armstrong_bot.Plugins.Service.Operations.{
  without, enable_plugin, disable_plugin, update_plugin, install_plugin, remove_plugin,
}

-- One round of `disableAll`.
unfoldable pub shut_down_entry : HookRun → LoadedPluginEntry → LoadedPluginEntry
shut_down_entry run e =
    if status_eq e.status enabled
    then elim (run_hook e.plugin disable run e.plugin.manifest.name) [
      | ok _ ↦ with_status disabled (drain_disposers (after_hook disable run e))
      | err _ ↦ with_status errored (after_hook disable run e)
    ]
    else e

-- The loop over `registry.all()`: each entry is changed in place.
unfoldable pub map_entries :
    (String → LoadedPluginEntry → LoadedPluginEntry)
    → List (String × LoadedPluginEntry)
    → List (String × LoadedPluginEntry)
map_entries f [] = []
map_entries f ((name, e) ∷ rest) = (name, f name e) ∷ map_entries f rest

unfoldable pub disable_all : (String → HookRun) → PluginService → PluginService
unfolding map_entries shut_down_entry run_hook after_hook drain_disposers
disable_all runs s = record s {
  registry = map_entries (λ name. shut_down_entry (runs name)) s.registry;
}

-- One round of `disableForGuild`.
unfoldable pub leave_guild : String → HookRun → LoadedPluginEntry → LoadedPluginEntry
leave_guild guild run e =
    if includes guild e.enabled_guilds
    then elim (run_hook e.plugin disable run e.plugin.manifest.name) [
      | ok _ ↦
          let e' = drain_disposers (after_hook disable run e) in
          record e' { enabled_guilds = without guild e'.enabled_guilds }
      | err _ ↦ after_hook disable run e
    ]
    else e

unfoldable pub disable_for_guild : String → (String → HookRun) → PluginService → PluginService
unfolding map_entries leave_guild run_hook after_hook drain_disposers
disable_for_guild guild runs s = record s {
  registry = map_entries (λ name. leave_guild guild (runs name)) s.registry;
}

-- The calls that reach the service: by the REST interface, and by the bus for the last two.
pub data Request : Type 0 where
  install_request : HookRun → String → Result PluginError Plugin → String → Request
  enable_request disable_request : HookRun → String → Option String → String → Request
  update_request : HookRun → Result PluginError Plugin → String → String → Request
  remove_request : String → Request
  shutdown_request : (String → HookRun) → Request
  guild_removed_request : String → (String → HookRun) → Request

module _ (satisfies : String → String → Bool) (sdk_version : String) where
  unfoldable pub handle : Request → PluginService → Outcome
  unfolding install_plugin enable_plugin disable_plugin update_plugin remove_plugin disable_all
      disable_for_guild
  handle (install_request run base loaded actor) s =
      install_plugin satisfies sdk_version run base loaded actor s
  handle (enable_request run name guild actor) s = enable_plugin run name guild actor s
  handle (disable_request run name guild actor) s = disable_plugin run name guild actor s
  handle (update_request run loaded name actor) s =
      update_plugin satisfies sdk_version run loaded name actor s
  handle (remove_request name) s = remove_plugin name s
  handle (shutdown_request runs) s = (ok tt, disable_all runs s)
  handle (guild_removed_request guild runs) s = (ok tt, disable_for_guild guild runs s)
