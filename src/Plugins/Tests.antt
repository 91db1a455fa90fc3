-- ===== src/Plugins/Tests.antt =====
-- Runs of the plugin service at concrete states.
use armstrong_bot.Prelude.{
  ◌≡◌, ◌≢◌, refl, String, Bool, true, false, [], ◌∷◌, none, some, ok, err, arith, if◌then◌else◌, In,
  inl, inr, ap, sym, ◌∙◌, eq_iff, ◌==◌, Bool-cases,
}
use armstrong_bot.Plugins.Manifest.{
  PluginStatus, installed, enabled, disabled, Plugin, invalid_transition, LoadedPluginEntry,
}
use armstrong_bot.Plugins.Lifecycle.{HookRun, returned, threw}
use armstrong_bot.Plugins.Service.{PluginRecord, PluginService}
use armstrong_bot.Plugins.Service.Operations.{enable_plugin, remove_plugin, install_plugin}
use armstrong_bot.Plugins.Service.Operations.Requests.{enable_request, handle}
use armstrong_bot.Plugins.Service.Operations.Statuses.{Moves, handle-Follows}
use armstrong_bot.Plugins.Service.Operations.Follows.{Follows}
use armstrong_bot.Plugins.Service.Operations.Registered.{IsRegistered, handle-IsRegistered}
use armstrong_bot.Plugins.Service.Operations.Stuck.{
  enable_plugin-enable_plugin, install_plugin-remove_plugin,
}

-- Every version satisfies every range.
abbrev any_version : String → String → Bool
any_version version range = true

abbrev quiet : HookRun
quiet = record { end = returned; commands = []; subscriptions = [] }

abbrev failing : HookRun
failing = record { end = threw; commands = "cmd" ∷ []; subscriptions = 7 ∷ [] }

abbrev sample_plugin : Plugin
sample_plugin = record {
  manifest = record { name = "music"; version = "1.0.0"; sdk_range = "^1"; dependencies = [] };
  has_on_install = true;
  has_on_update = false;
  has_on_remove = false;
}

abbrev entry_in : PluginStatus → LoadedPluginEntry
entry_in status = record {
  plugin = sample_plugin;
  status = status;
  enabled_guilds = [];
  registered_command_ids = [];
  disposers = [];
}

abbrev service_in : PluginStatus → PluginService
service_in status = record {
  records =
      record { id = 0; name = "music"; version = "1.0.0"; status = status; deleted = false } ∷ [];
  registry = ("music", entry_in status) ∷ [];
  enablements = [];
  history = [];
  events = [];
  next_id = 1;
}

only_row : (row r : PluginRecord) → In r (row ∷ []) → r ≡ row
only_row row r (inl same) = same
only_row row r (inr none_left) = elim none_left [ ]

service_in-IsRegistered : (status : PluginStatus) → IsRegistered (service_in status)
service_in-IsRegistered status =
    let row : PluginRecord = record {
      id = 0;
      name = "music";
      version = "1.0.0";
      status = status;
      deleted = false;
    } in
    (
      λ n e h. elim (Bool-cases ("music" == n)) [
        | inl same ↦ (row, inl refl, (eq_iff "music" n).0 same, refl)
        | inr other ↦
            absurd (cc (h, ap (λ (b : Bool). if b then some (entry_in status) else none) other))
      ],
      record {
        own_ids = λ r x i j same. only_row row r i ∙ sym (only_row row x j);
        own_names = λ r x i j same. only_row row r i ∙ sym (only_row row x j);
        below = λ r i.
            let ids = ap (λ (y : PluginRecord). y.id) (only_row row r i) in omega (arith, ids);
      },
    )

handle-IsRegistered_example :
    IsRegistered
      (handle any_version "1.0.0" (enable_request quiet "music" none "u") (service_in installed)).1
handle-IsRegistered_example =
    handle-IsRegistered any_version "1.0.0" (enable_request quiet "music" none "u")
      (service_in installed) (service_in-IsRegistered installed)

handle-Follows_example :
    Follows
      (Moves (enable_request failing "music" none "u"))
      (service_in installed).registry
      (handle any_version "1.0.0"
        (enable_request failing "music" none "u")
        (service_in installed)).1.registry
handle-Follows_example =
    handle-Follows any_version "1.0.0" (enable_request failing "music" none "u")
      (service_in installed) (service_in-IsRegistered installed)

enable_plugin-enable_plugin_example :
    enable_plugin quiet "music"
      (some "g2")
      "u"
      (enable_plugin quiet "music" (some "g1") "u" (service_in installed)).1
    ≡ (
      err (invalid_transition "music" enabled enabled),
      (enable_plugin quiet "music" (some "g1") "u" (service_in installed)).1,
    )
unfolding enable_plugin
enable_plugin-enable_plugin_example =
    enable_plugin-enable_plugin quiet quiet "music" "u" "u" (some "g1") (some "g2")
      (service_in installed) refl

install_plugin-remove_plugin_example :
    (install_plugin any_version "1.0.0" quiet "music"
      (ok sample_plugin)
      "u"
      (remove_plugin "music" (service_in disabled)).1).0
    ≢ ok tt
unfolding remove_plugin
install_plugin-remove_plugin_example =
    install_plugin-remove_plugin any_version "1.0.0" quiet "music" "music" "u" sample_plugin
      (service_in disabled) refl refl
