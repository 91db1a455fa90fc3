-- ===== src/Plugins/Service/Operations/Registered.antt =====
-- The registry and the table of plugin.application-service.ts agree on who is installed.
use armstrong_bot.Prelude.{
  In, In-find, In-append, ◌==◌, ◌&&◌, not, subst, ℕ, ◌+◌, ◌≡◌, refl, ◌∙◌, inl, inr, String, Bool,
  true, List, [], ◌∷◌, ◌++◌, Option, none, some, Result, ok, err, lookup, insert, lookup-insert,
  lookup-remove, arith, eq_iff, Bool-cases, Option-cases, Result-cases, eqb, eq_refl, eq_refl,
}
use armstrong_bot.Prelude as P
use armstrong_bot.Plugins.Manifest.{
  enabled, disabled, updating, removed, install, enable, disable, Plugin, PluginError,
  LoadedPluginEntry,
}
use armstrong_bot.Plugins.Lifecycle.{HookRun, run_hook, after_hook}
use armstrong_bot.Plugins.Service.{
  PluginRecord, PluginService, update_status, set_entry, name_taken, update_row, with_status,
}
use armstrong_bot.Plugins.Service.Operations.{
  new_row, new_entry, with_new_plugin, enable_entry, disable_entry, update_entry, remove_entry,
  finish_enable, enable_plugin, finish_disable, disable_plugin, finish_update, load_checked,
  continue_update, update_plugin, finish_install, create_plugin, install_plugin, remove_plugin,
}
use armstrong_bot.Plugins.Service.Operations.Requests.{
  map_entries, disable_all, disable_for_guild, Request, install_request, enable_request,
  disable_request, update_request, remove_request, shutdown_request, guild_removed_request, handle,
}
use armstrong_bot.Plugins.Service.Operations.Rows.{
  KeepsKeys, IsTidy, IsTidy-update_row, IsTidy-append, IsLive, IsLive-update_row, IsLive-other,
}
use armstrong_bot.Plugins.Service.Operations.Follows.{
  Registry, on_plugin-keeps, install_plugin-keeps,
}

-- Every registered plugin has a row of its name that is not deleted.
abbrev pub HasRows : List (String × LoadedPluginEntry) → List PluginRecord → Type 0
HasRows m rows = (n : String) (e : LoadedPluginEntry) → lookup n m ≡ some e → IsLive n rows

-- The registry and the table agree, and the rows do not share ids or names.
abbrev pub IsRegistered : PluginService → Type 0
IsRegistered s = HasRows s.registry s.records × IsTidy s.records s.next_id

pub name_taken-update_row :
    (n : String) (id : ℕ) (f : PluginRecord → PluginRecord) (rows : List PluginRecord)
    → ((r : PluginRecord) → (f r).name ≡ r.name)
    → name_taken n (update_row id f rows) ≡ name_taken n rows
name_taken-update_row n id f [] h = refl
name_taken-update_row n id f (r ∷ rows) h = elim (Bool-cases (eqb r.id id)) [
  | inl here ↦ rw (here, h, name_taken-update_row n id f rows h)
  | inr there ↦ rw (there, name_taken-update_row n id f rows h)
]

HasRows-insert :
    (m : Registry) (rows : List PluginRecord) (name : String) (e : LoadedPluginEntry)
    → HasRows m rows
    → IsLive name rows
    → HasRows (insert name e m) rows
HasRows-insert m rows name e h live n x k = elim (Bool-cases (name == n)) [
  | inl same ↦ subst (λ y. IsLive y rows) ((eq_iff name n).0 same) live
  | inr other ↦ h n x (rw (lookup-insert name n e m, other) at k)
]

HasRows-update :
    (m : Registry) (rows : List PluginRecord) (id : ℕ) (f : PluginRecord → PluginRecord)
    → HasRows m rows
    → KeepsKeys f
    → ((r : PluginRecord) → (f r).deleted ≡ r.deleted)
    → HasRows m (update_row id f rows)
HasRows-update m rows id f h keep left n x k = IsLive-update_row n rows id f keep left (h n x k)

-- A removal: the row of the name is deleted, and the name leaves the registry.
HasRows-remove :
    (m : Registry) (rows : List PluginRecord) (next_id : ℕ) (r : PluginRecord)
    (f : PluginRecord → PluginRecord)
    → HasRows m rows
    → IsTidy rows next_id
    → In r rows
    → HasRows (P.remove r.name m) (update_row r.id f rows)
HasRows-remove m rows next_id r f h tidy there n x k =
    let left = lookup-remove r.name n m in
    elim (Bool-cases (r.name == n)) [
      | inl same ↦ absurd (cc (rw (left, same) at k))
      | inr other ↦
          IsLive-other n rows next_id r f tidy there (λ e. cc ((eq_iff r.name n).1 e, other))
            (h n x (rw (left, other) at k))
    ]

lookup-map_entries-none :
    (f : String → LoadedPluginEntry → LoadedPluginEntry) (n : String) (m : Registry)
    → lookup n m ≡ none
    → lookup n (map_entries f m) ≡ none
unfolding map_entries
lookup-map_entries-none f n [] h = refl
lookup-map_entries-none f n ((j, x) ∷ m) h = ground (arith, lookup-map_entries-none f n m)

HasRows-map_entries :
    (f : String → LoadedPluginEntry → LoadedPluginEntry) (m : Registry) (rows : List PluginRecord)
    → HasRows m rows
    → HasRows (map_entries f m) rows
HasRows-map_entries f m rows h n x k = elim (Option-cases (lookup n m)) [
  | inl absent ↦ absurd (cc (lookup-map_entries-none f n m absent))
  | inr (e, present) ↦ h n e present
]

-- A hook's end stores an entry under the name, and changes rows without renaming or deleting them.
module _ (r : PluginRecord) (name : String) (f : LoadedPluginEntry) (s : PluginService)
    (h : IsRegistered s) (known : IsLive name s.records) where
  store-IsRegistered :
      (id : ℕ) (change : PluginRecord → PluginRecord) (e : LoadedPluginEntry)
      → KeepsKeys change
      → ((x : PluginRecord) → (change x).deleted ≡ x.deleted)
      → HasRows (insert name e s.registry) (update_row id change s.records)
        × IsTidy (update_row id change s.records) s.next_id
  store-IsRegistered id change e keep left = (
    HasRows-update (insert name e s.registry) s.records id change
        (HasRows-insert s.registry s.records name e h.0 known) keep left,
    IsTidy-update_row s.records s.next_id id change h.1 keep,
  )

  finish_enable-IsRegistered :
      (guild : Option String) (actor : String) (res : Result PluginError (Unit {0}))
      → IsRegistered (finish_enable r name guild actor f res s).1
  unfolding finish_enable
  finish_enable-IsRegistered none actor (ok _) =
      store-IsRegistered r.id _ _ (λ x. (refl, refl)) (λ x. refl)
  finish_enable-IsRegistered (some g) actor (ok _) =
      store-IsRegistered r.id _ _ (λ x. (refl, refl)) (λ x. refl)
  finish_enable-IsRegistered guild actor (err x) =
      store-IsRegistered r.id _ _ (λ x. (refl, refl)) (λ x. refl)

  finish_disable-IsRegistered :
      (guild : Option String) (actor : String) (res : Result PluginError (Unit {0}))
      → IsRegistered (finish_disable r name guild actor f res s).1
  unfolding finish_disable
  finish_disable-IsRegistered none actor (ok _) =
      store-IsRegistered r.id _ _ (λ x. (refl, refl)) (λ x. refl)
  finish_disable-IsRegistered (some g) actor (ok _) =
      store-IsRegistered r.id _ _ (λ x. (refl, refl)) (λ x. refl)
  finish_disable-IsRegistered guild actor (err x) =
      store-IsRegistered r.id _ _ (λ x. (refl, refl)) (λ x. refl)

  finish_update-IsRegistered :
      (actor : String) (p : Plugin) (res : Result PluginError (Unit {0}))
      → IsRegistered (finish_update r name actor p f res s).1
  unfolding finish_update
  finish_update-IsRegistered actor p (ok _) =
      store-IsRegistered r.id _ _ (λ x. (refl, refl)) (λ x. refl)
  finish_update-IsRegistered actor p (err x) =
      store-IsRegistered r.id _ _ (λ x. (refl, refl)) (λ x. refl)

finish_install-IsRegistered :
    (r : PluginRecord) (f : LoadedPluginEntry) (res : Result PluginError (Unit {0}))
    (s : PluginService)
    → IsRegistered s
    → IsLive r.name s.records
    → IsRegistered (finish_install r f res s).1
unfolding finish_install
finish_install-IsRegistered r f (ok _) s h known =
    (HasRows-insert s.registry s.records r.name f h.0 known, h.1)
finish_install-IsRegistered r f (err x) s h known =
    store-IsRegistered r r.name f s h known r.id _ _ (λ y. (refl, refl)) (λ y. refl)

create_plugin-IsRegistered :
    (run : HookRun) (p : Plugin) (actor : String) (s : PluginService)
    → IsRegistered s
    → IsRegistered (create_plugin run p actor s).1
unfolding create_plugin
create_plugin-IsRegistered run p actor s h =
    elim (Bool-cases (name_taken p.manifest.name s.records)) [
      | inl taken ↦ rw taken h
      | inr free ↦
          let row = new_row p s in
          let rows = s.records ++ row ∷ [] in
          let known : IsLive p.manifest.name rows =
            (row, (In-append row s.records (row ∷ [])).1 (inr (inl refl)), refl, refl) in
          let old : HasRows s.registry rows = λ n e k.
            let (r, i, named, live) = h.0 n e k in
            (r, (In-append r s.records (row ∷ [])).1 (inl i), named, live) in
          rw free (
            finish_install-IsRegistered row (after_hook install run (new_entry p))
              (run_hook p install run p.manifest.name) (with_new_plugin p actor s)
              (
                HasRows-insert s.registry rows p.manifest.name (new_entry p) old known,
                IsTidy-append s.records row h.1 free,
              )
              known)
    ]

module _ (satisfies : String → String → Bool) (sdk_version : String) where
  install_plugin-IsRegistered :
      (run : HookRun) (base : String) (loaded : Result PluginError Plugin) (actor : String)
      (s : PluginService)
      → IsRegistered s
      → IsRegistered (install_plugin satisfies sdk_version run base loaded actor s).1
  install_plugin-IsRegistered run base loaded actor s h =
      install_plugin-keeps satisfies sdk_version IsRegistered run base loaded actor s h
        (λ p. create_plugin-IsRegistered run p actor s h)

  update_entry-IsRegistered :
      (run : HookRun) (loaded : Result PluginError Plugin) (name actor : String) (r : PluginRecord)
      (e : LoadedPluginEntry) (s : PluginService)
      → IsRegistered s
      → IsLive name s.records
      → IsRegistered (update_entry satisfies sdk_version run loaded name actor r e s).1
  unfolding update_entry continue_update
  update_entry-IsRegistered run loaded name actor r e s h known =
      elim (Result-cases (load_checked satisfies sdk_version loaded)) [
        | inl (p, fine) ↦
            rw (fine, continue_update)
              (finish_update-IsRegistered r name _
                (update_status r.id updating (set_entry name (with_status updating e) s))
                (store-IsRegistered r name e s h known r.id _ _ (λ x. (refl, refl)) (λ x. refl))
                (IsLive-update_row name s.records r.id _ (λ x. (refl, refl)) (λ x. refl) known)
                actor p _)
        | inr (x, failed) ↦
            rw (failed, continue_update)
              (store-IsRegistered r name e s h known r.id _ _ (λ y. (refl, refl)) (λ y. refl))
      ]

  -- Every call keeps this: each registered plugin has a row of its name that is not deleted, no two
  -- rows share an id or a name, the deleted ones included, and every id is below the next new one.
  pub handle-IsRegistered :
      (q : Request) (s : PluginService)
      → IsRegistered s
      → IsRegistered (handle satisfies sdk_version q s).1
  unfolding handle disable_all disable_for_guild enable_plugin disable_plugin update_plugin
      remove_plugin enable_entry disable_entry remove_entry
  handle-IsRegistered (install_request run base loaded actor) s h =
      install_plugin-IsRegistered run base loaded actor s h
  handle-IsRegistered (enable_request run name guild actor) s h =
      on_plugin-keeps IsRegistered enabled name (enable_entry run name guild actor) s h
        λ r e row found may.
          finish_enable-IsRegistered r name (after_hook enable run e) s h (h.0 name e found) guild
            actor (run_hook e.plugin enable run e.plugin.manifest.name)
  handle-IsRegistered (disable_request run name guild actor) s h =
      on_plugin-keeps IsRegistered disabled name (disable_entry run name guild actor) s h
        λ r e row found may.
          finish_disable-IsRegistered r name (after_hook disable run e) s h (h.0 name e found) guild
            actor (run_hook e.plugin disable run e.plugin.manifest.name)
  handle-IsRegistered (update_request run loaded name actor) s h =
      on_plugin-keeps IsRegistered updating name
        (update_entry satisfies sdk_version run loaded name actor) s h
        λ r e row found may.
          update_entry-IsRegistered run loaded name actor r e s h (h.0 name e found)
  handle-IsRegistered (remove_request name) s h =
      on_plugin-keeps IsRegistered removed name (remove_entry name) s h λ r e row found may.
        let deletes : PluginRecord → PluginRecord =
          λ x. record x { deleted = true; status = removed } in
        let (there, holds) = In-find (λ x. x.name == name && not x.deleted) s.records r row in
        let named : r.name ≡ name = ground (arith, eq_iff r.name name, holds) in
        (
          subst (λ n. HasRows (P.remove n s.registry) (update_row r.id deletes s.records)) named
              (HasRows-remove s.registry s.records s.next_id r deletes h.0 h.1 there),
          IsTidy-update_row s.records s.next_id r.id deletes h.1 (λ x. (refl, refl)),
        )
  handle-IsRegistered (shutdown_request runs) s h =
      (HasRows-map_entries _ s.registry s.records h.0, h.1)
  handle-IsRegistered (guild_removed_request guild runs) s h =
      (HasRows-map_entries _ s.registry s.records h.0, h.1)
