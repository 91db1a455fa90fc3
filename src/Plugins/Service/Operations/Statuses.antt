-- ===== src/Plugins/Service/Operations/Statuses.antt =====
-- What each call of plugin.application-service.ts does to the statuses of the registry.
use armstrong_bot.Prelude.{
  ◌≡◌, ◌≢◌, ◌⊎◌, refl, ap, ◌∙◌, inl, inr, String, Bool, true, false, Option, none, some, Result, ok,
  err, lookup, insert, arith, Bool-cases, Option-cases,
}
use armstrong_bot.Plugins.Manifest.{
  PluginStatus, Phase, hook_timeout, hook_failed, installed, enabled, disabled, errored, updating,
  removed, install, enable, disable, update, Plugin, PluginError, LoadedPluginEntry,
}
use armstrong_bot.Plugins.Lifecycle.{
  can_transition, status_eq, HookEnd, returned, timed_out, threw, threw_plugin_error, has_hook,
  hook_result, HookRun, run_hook, after_hook, drain_disposers,
}
use armstrong_bot.Plugins.Service.{PluginRecord, PluginService, name_taken, with_status}
use armstrong_bot.Plugins.Service.Operations.{
  new_row, new_entry, with_new_plugin, after_update_hook, enable_entry, disable_entry, update_entry,
  remove_entry, finish_enable, enable_plugin, finish_disable, disable_plugin, finish_update,
  load_checked, continue_update, update_plugin, finish_install, create_plugin, install_plugin,
  remove_plugin,
}
use armstrong_bot.Plugins.Service.Operations.Requests.{
  shut_down_entry, disable_all, leave_guild, disable_for_guild, Request, install_request,
  enable_request, disable_request, update_request, remove_request, shutdown_request,
  guild_removed_request, handle,
}
use armstrong_bot.Plugins.Service.Operations.Follows.{
  Follows, Follows-refl, Follows-to, Follows-insert, Follows-insert_twice, Follows-insert_new,
  Follows-map_entries, Follows-remove, status-after_hook, on_plugin-keeps, install_plugin-keeps,
}
use armstrong_bot.Plugins.Service.Operations.Registered.{IsRegistered}
use armstrong_bot.Plugins.Service.Operations.Rows.{name_taken-In}

-- Where a status goes when a hook ran: to the one meant, if and only if the hook returned.
abbrev pub Ends : HookEnd → PluginStatus → PluginStatus → Type 0
Ends end next b = ((b ≡ next) × (end ≡ returned)) ⊎ ((b ≡ errored) × (end ≢ returned))

-- How a call may move the status of the plugin `n` from `a` to `b`.
abbrev pub Moves : Request → String → PluginStatus → PluginStatus → Type 0
Moves (install_request _ _ _ _) n a b = ⊥
Moves (enable_request run name _ _) n a b =
    (name ≡ n) × ((a ≡ installed) ⊎ (a ≡ disabled)) × Ends run.end enabled b
Moves (disable_request run name _ _) n a b =
    (name ≡ n) × ((a ≡ enabled) ⊎ (a ≡ errored)) × Ends run.end disabled b
Moves (update_request run _ name _) n a b =
    (name ≡ n)
    × (a ≡ enabled)
    × ((b ≡ updating) ⊎ (b ≡ installed) ⊎ ((b ≡ errored) × (run.end ≢ returned)))
Moves (remove_request _) n a b = ⊥
Moves (shutdown_request runs) n a b = (a ≡ enabled) × Ends (runs n).end disabled b
Moves (guild_removed_request _ _) n a b = ⊥

-- The registry that a call leaves follows the one that it found.
abbrev FollowsFrom : Request → PluginService → PluginService → Type 0
FollowsFrom q s t = Follows (Moves q) s.registry t.registry

may-enable : (a : PluginStatus) → can_transition a enabled ≡ true → (a ≡ installed) ⊎ (a ≡ disabled)
may-enable installed h = inl refl
may-enable enabled h = cc h
may-enable disabled h = inr refl
may-enable errored h = cc h
may-enable updating h = cc h
may-enable removed h = cc h

may-disable : (a : PluginStatus) → can_transition a disabled ≡ true → (a ≡ enabled) ⊎ (a ≡ errored)
may-disable installed h = cc h
may-disable enabled h = inl refl
may-disable disabled h = cc h
may-disable errored h = inr refl
may-disable updating h = cc h
may-disable removed h = cc h

may-update : (a : PluginStatus) → can_transition a updating ≡ true → a ≡ enabled
may-update installed h = cc h
may-update enabled h = refl
may-update disabled h = cc h
may-update errored h = cc h
may-update updating h = cc h
may-update removed h = cc h

-- What a hook that is run gives: its end is no error, or it is.
abbrev Gives : HookEnd → Result PluginError (Unit {0}) → Type 0
Gives end res =
    ((end ≡ returned) × (res ≡ ok tt)) ⊎ ((end ≢ returned) × ((x : PluginError) × (res ≡ err x)))

-- A hook returns, or its result is an error.
hook_result-cases :
    (end : HookEnd) (phase : Phase) (label : String) → Gives end (hook_result end phase label)
hook_result-cases returned phase label = inl (refl, refl)
hook_result-cases timed_out phase label = inr (λ h. cc h, (hook_timeout phase label, refl))
hook_result-cases threw phase label = inr (λ h. cc h, (hook_failed phase label, refl))
hook_result-cases (threw_plugin_error e) phase label = inr (λ h. cc h, (e, refl))

-- The end of `enablePlugin` or `disablePlugin` on the entry `e`, on both branches.
module _ (r : PluginRecord) (run : HookRun) (name actor : String) (guild : Option String)
    (s : PluginService) (e f : LoadedPluginEntry) (found : lookup name s.registry ≡ some e) where
  enable-Follows :
      (res : Result PluginError (Unit {0}))
      → Gives run.end res
      → (g : Option String) → can_transition e.status enabled ≡ true
      → FollowsFrom (enable_request run name guild actor) s (finish_enable r name g actor f res s).1
  unfolding finish_enable
  enable-Follows (ok _) (inl (fine, _)) none may =
      Follows-insert (Moves (enable_request run name guild actor)) s.registry name e _ found
        (refl, may-enable e.status may, inl (refl, fine))
  enable-Follows (ok _) (inl (fine, _)) (some g) may =
      Follows-insert (Moves (enable_request run name guild actor)) s.registry name e _ found
        (refl, may-enable e.status may, inl (refl, fine))
  enable-Follows (ok _) (inr (_, (x, wrong))) g may = cc wrong
  enable-Follows (err x) (inl (_, wrong)) g may = cc wrong
  enable-Follows (err x) (inr (failed, _)) g may =
      Follows-insert (Moves (enable_request run name guild actor)) s.registry name e _ found
        (refl, may-enable e.status may, inr (refl, failed))

  disable-Follows :
      (res : Result PluginError (Unit {0}))
      → Gives run.end res
      → (g : Option String) → can_transition e.status disabled ≡ true
      → FollowsFrom
          (disable_request run name guild actor)
          s
          (finish_disable r name g actor f res s).1
  unfolding finish_disable
  disable-Follows (ok _) (inl (fine, _)) none may =
      Follows-insert (Moves (disable_request run name guild actor)) s.registry name e _ found
        (refl, may-disable e.status may, inl (refl, fine))
  disable-Follows (ok _) (inl (fine, _)) (some g) may =
      Follows-insert (Moves (disable_request run name guild actor)) s.registry name e _ found
        (refl, may-disable e.status may, inl (refl, fine))
  disable-Follows (ok _) (inr (_, (x, wrong))) g may = cc wrong
  disable-Follows (err x) (inl (_, wrong)) g may = cc wrong
  disable-Follows (err x) (inr (failed, _)) g may =
      Follows-insert (Moves (disable_request run name guild actor)) s.registry name e _ found
        (refl, may-disable e.status may, inr (refl, failed))

-- A hook that is run, or that the plugin does not have.
run_hook-cases :
    (p : Plugin) (phase : Phase) (run : HookRun) (label : String)
    → (run_hook p phase run label ≡ ok tt)
      ⊎ ((run.end ≢ returned) × ((x : PluginError) × (run_hook p phase run label ≡ err x)))
unfolding run_hook
run_hook-cases p phase run label = elim (Bool-cases (has_hook p phase)) [
  | inr without_it ↦ inl (rw without_it refl)
  | inl with_it ↦ elim (hook_result-cases run.end phase label) [
    | inl (fine, is) ↦ inl (rw with_it is)
    | inr (failed, (x, is)) ↦ inr (failed, (x, rw with_it is))
  ]
]

-- `updatePlugin` ends by storing an entry that is installed, or errored when the hook failed.
finish_update-ends :
    (r : PluginRecord) (run : HookRun) (name actor : String) (p : Plugin) (e : LoadedPluginEntry)
    (res : Result PluginError (Unit {0})) (t : PluginService)
    → (res ≡ ok tt) ⊎ ((run.end ≢ returned) × ((x : PluginError) × (res ≡ err x)))
    → (f : LoadedPluginEntry) × ((finish_update r name actor p e res t).1.registry
        ≡ insert name f t.registry)
      × ((f.status ≡ installed) ⊎ ((f.status ≡ errored) × (run.end ≢ returned)))
unfolding finish_update
finish_update-ends r run name actor p e (ok _) t h =
    (record e { plugin = p; status = installed }, refl, inl refl)
finish_update-ends r run name actor p e (err x) t (inl wrong) = cc wrong
finish_update-ends r run name actor p e (err x) t (inr (failed, _)) =
    (record e { status = errored }, refl, inr (refl, failed))

enable_plugin-Follows :
    (run : HookRun) (name : String) (guild : Option String) (actor : String) (s : PluginService)
    → FollowsFrom (enable_request run name guild actor) s (enable_plugin run name guild actor s).1
unfolding enable_plugin enable_entry run_hook
enable_plugin-Follows run name guild actor s =
    let q = enable_request run name guild actor in
    on_plugin-keeps (FollowsFrom q s) enabled name (enable_entry run name guild actor) s
      (Follows-refl (Moves q) s.registry)
      λ r e row found may.
        enable-Follows r run name actor guild s e (after_hook enable run e) found
          (run_hook e.plugin enable run e.plugin.manifest.name)
          (hook_result-cases run.end enable e.plugin.manifest.name) guild may

disable_plugin-Follows :
    (run : HookRun) (name : String) (guild : Option String) (actor : String) (s : PluginService)
    → FollowsFrom (disable_request run name guild actor) s (disable_plugin run name guild actor s).1
unfolding disable_plugin disable_entry run_hook
disable_plugin-Follows run name guild actor s =
    let q = disable_request run name guild actor in
    on_plugin-keeps (FollowsFrom q s) disabled name (disable_entry run name guild actor) s
      (Follows-refl (Moves q) s.registry)
      λ r e row found may.
        disable-Follows r run name actor guild s e (after_hook disable run e) found
          (run_hook e.plugin disable run e.plugin.manifest.name)
          (hook_result-cases run.end disable e.plugin.manifest.name) guild may

status_eq-enabled : (a : PluginStatus) → status_eq a enabled ≡ true → a ≡ enabled
status_eq-enabled installed h = cc h
status_eq-enabled enabled h = refl
status_eq-enabled disabled h = cc h
status_eq-enabled errored h = cc h
status_eq-enabled updating h = cc h
status_eq-enabled removed h = cc h

remove_plugin-Follows :
    (name : String) (s : PluginService)
    → FollowsFrom (remove_request name) s (remove_plugin name s).1
unfolding remove_plugin remove_entry
remove_plugin-Follows name s =
    let q = remove_request name in
    on_plugin-keeps (FollowsFrom q s) removed name (remove_entry name) s
      (Follows-refl (Moves q) s.registry)
      λ r e row found may. Follows-remove (Moves q) s.registry name

shut_down_entry-Ends :
    (run : HookRun) (e : LoadedPluginEntry)
    → (e.status ≡ (shut_down_entry run e).status)
      ⊎ (e.status ≡ enabled) × Ends run.end disabled (shut_down_entry run e).status
unfolding shut_down_entry drain_disposers run_hook
shut_down_entry-Ends run e = elim (Bool-cases (status_eq e.status enabled)) [
  | inr off ↦ inl (rw off refl)
  | inl on ↦ elim (hook_result-cases run.end disable e.plugin.manifest.name) [
    | inl (fine, is) ↦
        inr (status_eq-enabled e.status on, inl (rw (on, is, shut_down_entry) refl, fine))
    | inr (failed, (x, is)) ↦
        inr (status_eq-enabled e.status on, inr (rw (on, is, shut_down_entry) refl, failed))
  ]
]

leave_guild-status :
    (guild : String) (run : HookRun) (e : LoadedPluginEntry)
    → e.status ≡ (leave_guild guild run e).status
unfolding leave_guild drain_disposers
leave_guild-status guild run e = ground (arith, status-after_hook disable run e)

module _ (satisfies : String → String → Bool) (sdk_version : String) where
  continue_update-Follows :
      (run : HookRun) (r : PluginRecord) (name actor : String)
      (source loaded : Result PluginError Plugin) (s t : PluginService) (e : LoadedPluginEntry)
      → lookup name s.registry ≡ some e
      → t.registry ≡ insert name (with_status updating e) s.registry
      → can_transition e.status updating ≡ true
      → FollowsFrom
          (update_request run source name actor)
          s
          (continue_update run r name actor loaded (with_status updating e) t).1
  unfolding continue_update
  continue_update-Follows run r name actor source (err x) s t e found is may = rw is (
      Follows-insert (Moves (update_request run source name actor)) s.registry name e _ found
        (refl, may-update e.status may, inl refl))
  continue_update-Follows run r name actor source (ok p) s t e found is may =
      let T = Moves (update_request run source name actor) in
      let (f, ends, last) =
        finish_update-ends r run name actor p (after_update_hook run p (with_status updating e))
          (run_hook p update run p.manifest.name) t (run_hook-cases p update run p.manifest.name) in
      Follows-to T s.registry (ends ∙ ap (λ x. insert name f x) is) (
        Follows-insert_twice T s.registry name (with_status updating e) f
          (Follows-insert T s.registry name e f found (refl, may-update e.status may, inr last)))

  update_plugin-Follows :
      (run : HookRun) (loaded : Result PluginError Plugin) (name actor : String) (s : PluginService)
      → FollowsFrom
          (update_request run loaded name actor)
          s
          (update_plugin satisfies sdk_version run loaded name actor s).1
  unfolding update_plugin update_entry
  update_plugin-Follows run loaded name actor s =
      let q = update_request run loaded name actor in
      on_plugin-keeps (FollowsFrom q s) updating name
        (update_entry satisfies sdk_version run loaded name actor) s
        (Follows-refl (Moves q) s.registry)
        λ r e row found may.
          continue_update-Follows run r name actor loaded
            (load_checked satisfies sdk_version loaded) s _ e found refl may

  unregistered :
      (s : PluginService) (p : Plugin)
      → IsRegistered s
      → name_taken p.manifest.name s.records ≡ false
      → lookup p.manifest.name s.registry ≡ none
  unregistered s p reg free = elim (Option-cases (lookup p.manifest.name s.registry)) [
    | inl absent ↦ absent
    | inr (e, present) ↦
        let (r, i, named, live) = reg.0 p.manifest.name e present in
        let taken = name_taken-In s.records r i in
        absurd (cc (ap (λ n. name_taken n s.records) named, taken, free))
  ]

  finish_install-ends :
      (r : PluginRecord) (e : LoadedPluginEntry) (res : Result PluginError (Unit {0}))
      (t : PluginService)
      → (f : LoadedPluginEntry) × ((finish_install r e res t).1.registry
          ≡ insert r.name f t.registry)
  unfolding finish_install
  finish_install-ends r e (ok _) t = (e, refl)
  finish_install-ends r e (err x) t = (record e { status = errored }, refl)

  create_plugin-Follows :
      (q : Request) (run : HookRun) (p : Plugin) (actor : String) (s : PluginService)
      → IsRegistered s
      → FollowsFrom q s (create_plugin run p actor s).1
  unfolding create_plugin
  create_plugin-Follows q run p actor s reg =
      elim (Bool-cases (name_taken p.manifest.name s.records)) [
        | inl taken ↦ rw taken (Follows-refl (Moves q) s.registry)
        | inr free ↦
            let name = p.manifest.name in
            let (f, ends) =
              finish_install-ends (new_row p s) (after_hook install run (new_entry p))
                (run_hook p install run name) (with_new_plugin p actor s) in
            rw free (
              Follows-to (Moves q) s.registry ends (
                Follows-insert_twice (Moves q) s.registry name (new_entry p) f
                  (Follows-insert_new (Moves q) s.registry name f (unregistered s p reg free))))
      ]

  install_plugin-Follows :
      (run : HookRun) (base : String) (loaded : Result PluginError Plugin) (actor : String)
      (s : PluginService)
      → IsRegistered s
      → FollowsFrom
          (install_request run base loaded actor)
          s
          (install_plugin satisfies sdk_version run base loaded actor s).1
  install_plugin-Follows run base loaded actor s reg =
      let q = install_request run base loaded actor in
      install_plugin-keeps satisfies sdk_version (FollowsFrom q s) run base loaded actor s
        (Follows-refl (Moves q) s.registry) (λ p. create_plugin-Follows q run p actor s reg)

  -- If every registered plugin has a row that is not deleted and rows share no id or name, then a
  -- call changes the status of a plugin that is registered before and after it in these ways only.
  -- Enabling moves the named plugin from installed or disabled to enabled if its hook returns, else
  -- to errored. Disabling moves it from enabled or errored to disabled if its hook returns, else to
  -- errored. An update moves it from enabled to updating or installed, or to errored, then only if
  -- its hook does not return. A shutdown moves an enabled plugin to disabled if its hook returns,
  -- else to errored. No other plugin moves, and no other call moves any.
  pub handle-Follows :
      (q : Request) (s : PluginService)
      → IsRegistered s
      → Follows (Moves q) s.registry (handle satisfies sdk_version q s).1.registry
  unfolding handle disable_all disable_for_guild
  handle-Follows (install_request run base loaded actor) s reg =
      install_plugin-Follows run base loaded actor s reg
  handle-Follows (enable_request run name guild actor) s reg =
      enable_plugin-Follows run name guild actor s
  handle-Follows (disable_request run name guild actor) s reg =
      disable_plugin-Follows run name guild actor s
  handle-Follows (update_request run loaded name actor) s reg =
      update_plugin-Follows run loaded name actor s
  handle-Follows (remove_request name) s reg = remove_plugin-Follows name s
  handle-Follows (shutdown_request runs) s reg =
      Follows-map_entries (Moves (shutdown_request runs)) _ s.registry
        (λ n e. shut_down_entry-Ends (runs n) e)
  handle-Follows (guild_removed_request guild runs) s reg =
      Follows-map_entries (Moves (guild_removed_request guild runs)) _ s.registry
        (λ n e. inl (leave_guild-status guild (runs n) e))
