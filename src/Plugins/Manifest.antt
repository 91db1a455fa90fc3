-- ===== src/Plugins/Manifest.antt =====
-- src/core/plugins/contracts and errors: the statuses, the manifests, the errors and the registry's
-- entries. The fields of a manifest that only describe it are left out.
use armstrong_bot.Prelude.{ℕ, String, Bool, List}

pub data PluginStatus : Type 0 where
  installed enabled disabled errored updating removed : PluginStatus

pub data Phase : Type 0 where
  install enable disable update remove : Phase

pub record PluginDependency : Type 0 where
  pub name : String
  pub range : String
  -- `required !== false`
  pub required : Bool

pub record PluginManifest : Type 0 where
  pub name : String
  pub version : String
  pub sdk_range : String
  pub dependencies : List PluginDependency

-- A loaded plugin: its manifest, and which of the optional hooks it has.
pub record Plugin : Type 0 where
  pub manifest : PluginManifest
  pub has_on_install : Bool
  pub has_on_update : Bool
  pub has_on_remove : Bool

pub data PluginError : Type 0 where
  sdk_incompatible : String → PluginError
  dependency_missing : String → String → PluginError
  dependency_incompatible : String → String → PluginError
  dependency_cycle : String → PluginError
  load_failed : PluginError
  manifest_invalid : PluginError
  hook_failed : Phase → String → PluginError
  hook_timeout : Phase → String → PluginError
  invalid_transition : String → PluginStatus → PluginStatus → PluginError
  not_found : String → PluginError
  already_installed : String → PluginError
  config_invalid : String → PluginError
  -- not a `PluginError` of the source: the database refuses a second row of one name
  unique_violation : String → PluginError
  -- nor this one: the client refuses `null` in the key of an upsert
  null_in_key : PluginError

pub record LoadedPluginEntry : Type 0 where
  pub plugin : Plugin
  pub status : PluginStatus
  pub enabled_guilds : List String
  pub registered_command_ids : List String
  -- the subscriptions to undo, by number
  pub disposers : List ℕ
