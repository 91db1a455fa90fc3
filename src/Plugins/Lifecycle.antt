-- ===== src/Plugins/Lifecycle.antt =====
-- src/core/plugins/domain/plugin-lifecycle.service.ts.
use armstrong_bot.Prelude.{
  ℕ, String, Bool, true, false, ◌||◌, List, [], ◌∷◌, ◌++◌, if◌then◌else◌, Result, ok, err, guard,
}
use armstrong_bot.Plugins.Manifest.{
  PluginStatus, installed, enabled, disabled, errored, updating, removed, Phase, install, enable,
  disable, update, remove, Plugin, PluginError, hook_failed, hook_timeout, invalid_transition,
  LoadedPluginEntry,
}

abbrev pub allowed_transitions : PluginStatus → List PluginStatus
allowed_transitions installed = enabled ∷ removed ∷ errored ∷ []
allowed_transitions enabled = disabled ∷ updating ∷ errored ∷ []
allowed_transitions disabled = enabled ∷ removed ∷ errored ∷ []
allowed_transitions errored = disabled ∷ removed ∷ []
allowed_transitions updating = installed ∷ errored ∷ []
allowed_transitions removed = []

abbrev pub status_eq : PluginStatus → PluginStatus → Bool
status_eq installed installed = true
status_eq enabled enabled = true
status_eq disabled disabled = true
status_eq errored errored = true
status_eq updating updating = true
status_eq removed removed = true
status_eq _ _ = false

abbrev includes_status : PluginStatus → List PluginStatus → Bool
includes_status s [] = false
includes_status s (t ∷ ts) = status_eq t s || includes_status s ts

abbrev pub can_transition : PluginStatus → PluginStatus → Bool
can_transition current next = includes_status next (allowed_transitions current)

unfoldable pub assert_transition :
    PluginStatus → PluginStatus → String → Result PluginError (Unit {0})
assert_transition current next name =
    guard (can_transition current next) (invalid_transition name current next)

-- How a hook of a plugin ends: `Promise.race` gives its own end or the timer's.
pub data HookEnd : Type 0 where
  returned timed_out : HookEnd
  threw : HookEnd
  threw_plugin_error : PluginError → HookEnd

-- What a hook does: it may register commands and subscribe to events by its context before it ends.
pub record HookRun : Type 0 where
  pub end : HookEnd
  pub commands : List String
  pub subscriptions : List ℕ

-- Whether the switch on the phase finds a hook.
abbrev pub has_hook : Plugin → Phase → Bool
has_hook p install = p.has_on_install
has_hook p enable = true
has_hook p disable = true
has_hook p update = p.has_on_update
has_hook p remove = p.has_on_remove

abbrev pub hook_result : HookEnd → Phase → String → Result PluginError (Unit {0})
hook_result returned phase name = ok tt
hook_result timed_out phase name = err (hook_timeout phase name)
hook_result threw phase name = err (hook_failed phase name)
hook_result (threw_plugin_error e) phase name = err e

unfoldable pub run_hook : Plugin → Phase → HookRun → String → Result PluginError (Unit {0})
run_hook plugin phase run name =
    if has_hook plugin phase then hook_result run.end phase name else ok tt

-- The entry after the hook ran, whether it failed or not.
unfoldable pub after_hook : Phase → HookRun → LoadedPluginEntry → LoadedPluginEntry
after_hook phase run e =
    if has_hook e.plugin phase
    then record e {
      registered_command_ids = e.registered_command_ids ++ run.commands;
      disposers = e.disposers ++ run.subscriptions;
    }
    else e

unfoldable pub drain_disposers : LoadedPluginEntry → LoadedPluginEntry
drain_disposers e = record e { disposers = [] }
