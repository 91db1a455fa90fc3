-- ===== src/Plugins/Service/Operations/Stuck.antt =====
-- Where the calls of plugin.application-service.ts leave no way on: after a failed load of an
-- update, for a second guild, and after a removal.
use armstrong_bot.Prelude.{
  ℕ, ◌≡◌, ◌≢◌, refl, sym, ap, ◌∙◌, subst, inl, inr, String, Bool, true, false, ◌&&◌, not, List, [],
  ◌∷◌, Option, none, some, Result, ok, err, ◌>>◌, lookup, lookup-insert, ◌==◌, arith, eq_refl,
  Bool-cases, Option-cases, Result-cases, eqb,
}
use armstrong_bot.Plugins.Manifest.{
  PluginStatus, enabled, disabled, updating, removed, enable, Plugin, PluginError,
  LoadedPluginEntry, invalid_transition,
}
use armstrong_bot.Plugins.Lifecycle.{can_transition, HookRun, run_hook, after_hook}
use armstrong_bot.Plugins.Service.{
  PluginRecord, PluginService, Outcome, find_by_name, name_taken, update_row, validate_sdk_range,
  validate_dependencies,
}
use armstrong_bot.Plugins.Service.Operations.{
  on_plugin, enable_entry, remove_entry, finish_enable, enable_plugin, disable_plugin,
  update_plugin, create_plugin, validated_install, install_plugin, remove_plugin, add_guild,
}
use armstrong_bot.Plugins.Service.Operations.Registered.{name_taken-update_row}

-- A row is found again after a change that keeps its name and does not delete it.
find_by_name-update_row :
    (n : String) (id : ℕ) (f : PluginRecord → PluginRecord) (rows : List PluginRecord)
    (r : PluginRecord)
    → ((x : PluginRecord) → ((f x).name ≡ x.name) × ((f x).deleted ≡ x.deleted))
    → find_by_name n rows ≡ some r
    → (r' : PluginRecord) × (find_by_name n (update_row id f rows) ≡ some r')
find_by_name-update_row n id f [] r keep h = cc
find_by_name-update_row n id f (x ∷ rows) r keep h =
    elim (Bool-cases (x.name == n && not x.deleted)) [
      | inl here ↦ elim (Bool-cases (eqb x.id id)) [
        | inl changed ↦ (f x, rw (changed, (keep x).0, (keep x).1, here))
        | inr same ↦ (x, rw (same, here))
      ]
      | inr later ↦
          let (r', found) = find_by_name-update_row n id f rows r keep (rw later at h) in
          elim (Bool-cases (eqb x.id id)) [
            | inl changed ↦ (r', rw (changed, (keep x).0, (keep x).1, later, found))
            | inr same ↦ (r', rw (same, later, found))
          ]
    ]

-- A transition that is not allowed stops the operation and changes nothing.
on_plugin-stops :
    (next : PluginStatus) (name : String)
    (run : PluginRecord → LoadedPluginEntry → PluginService → Outcome) (s : PluginService)
    (r : PluginRecord) (e : LoadedPluginEntry)
    → find_by_name name s.records ≡ some r
    → lookup name s.registry ≡ some e
    → can_transition e.status next ≡ false
    → on_plugin next name run s ≡ (err (invalid_transition name e.status next), s)
unfolding on_plugin
on_plugin-stops next name run s r e found present stopped = rw (found, present, stopped, on_plugin)

on_plugin-runs :
    (next : PluginStatus) (name : String)
    (run : PluginRecord → LoadedPluginEntry → PluginService → Outcome) (s : PluginService)
    (r : PluginRecord) (e : LoadedPluginEntry)
    → find_by_name name s.records ≡ some r
    → lookup name s.registry ≡ some e
    → can_transition e.status next ≡ true
    → on_plugin next name run s ≡ run r e s
unfolding on_plugin
on_plugin-runs next name run s r e found present may = rw (found, present, may, on_plugin)

-- A successful operation was let through.
on_plugin-ok :
    (next : PluginStatus) (name : String)
    (run : PluginRecord → LoadedPluginEntry → PluginService → Outcome) (s : PluginService)
    → (on_plugin next name run s).0 ≡ ok tt
    → (r : PluginRecord) × (e : LoadedPluginEntry) × (find_by_name name s.records ≡ some r)
      × (lookup name s.registry ≡ some e)
      × (on_plugin next name run s ≡ run r e s)
unfolding on_plugin
on_plugin-ok next name run s h = elim (Option-cases (find_by_name name s.records)) [
  | inl missing ↦ absurd (cc (rw (missing, on_plugin) at h))
  | inr (r, found) ↦ elim (Option-cases (lookup name s.registry)) [
    | inl absent ↦ absurd (cc (rw (found, absent, on_plugin) at h))
    | inr (e, present) ↦ elim (Bool-cases (can_transition e.status next)) [
      | inl may ↦ (r, e, found, present, on_plugin-runs next name run s r e found present may)
      | inr stopped ↦ absurd (cc (rw (found, present, stopped, on_plugin) at h))
    ]
  ]
]

-- An entry whose status is `updating` can be neither enabled nor disabled, updated or removed.
module _ (satisfies : String → String → Bool) (sdk_version : String) (run : HookRun)
    (loaded : Result PluginError Plugin) (name actor : String) (guild : Option String) where
  abbrev pub IsStuck : PluginService → Type 0
  IsStuck s =
      (enable_plugin run name guild actor s ≡ (err (invalid_transition name updating enabled), s))
      × (disable_plugin run name guild actor s
          ≡ (err (invalid_transition name updating disabled), s))
      × (update_plugin satisfies sdk_version run loaded name actor s
          ≡ (err (invalid_transition name updating updating), s))
      × (remove_plugin name s ≡ (err (invalid_transition name updating removed), s))

-- A plugin that is enabled, with its row.
record IsEnabled (name : String) (s : PluginService) : Type 0 where
  row : PluginRecord
  entry : LoadedPluginEntry
  found : find_by_name name s.records ≡ some row
  present : lookup name s.registry ≡ some entry
  on : entry.status ≡ enabled

finish_enable-IsEnabled :
    (r : PluginRecord) (name : String) (guild : Option String) (actor : String)
    (f : LoadedPluginEntry) (res : Result PluginError (Unit {0})) (s : PluginService)
    → find_by_name name s.records ≡ some r
    → (finish_enable r name guild actor f res s).0 ≡ ok tt
    → IsEnabled name (finish_enable r name guild actor f res s).1
unfolding finish_enable
finish_enable-IsEnabled r name guild actor f (err x) s found h = cc
finish_enable-IsEnabled r name none actor f (ok _) s found h = absurd (cc h)
finish_enable-IsEnabled r name (some g) actor f (ok _) s found h =
    let (r', again) =
      find_by_name-update_row name r.id (λ y. record y { status = enabled }) s.records r
        (λ y. (refl, refl)) found in
    record {
      row = r';
      entry = record f { status = enabled; enabled_guilds = add_guild (some g) f.enabled_guilds };
      found = again;
      present = rw (lookup-insert name name, eq_refl name);
      on = refl;
    }

-- A plugin that was just enabled cannot be enabled again, for another guild or for all: the second
-- call fails and changes nothing.
pub enable_plugin-enable_plugin :
    (run run' : HookRun) (name actor actor' : String) (guild guild' : Option String)
    (s : PluginService)
    → (enable_plugin run name guild actor s).0 ≡ ok tt
    → enable_plugin run' name guild' actor' (enable_plugin run name guild actor s).1
      ≡ (err (invalid_transition name enabled enabled), (enable_plugin run name guild actor s).1)
unfolding enable_plugin enable_entry
enable_plugin-enable_plugin run run' name actor actor' guild guild' s h =
    let (r, e, found, present, ran) =
      on_plugin-ok enabled name (enable_entry run name guild actor) s h in
    let t = (enable_plugin run name guild actor s).1 in
    let done : IsEnabled name t =
      subst (λ (o : Outcome). IsEnabled name o.1) (sym ran)
        (finish_enable-IsEnabled r name guild actor (after_hook enable run e)
          (run_hook e.plugin enable run e.plugin.manifest.name) s found
          (ap (λ (o : Outcome). o.0) (sym ran) ∙ h)) in
    on_plugin-stops enabled name (enable_entry run' name guild' actor') t done.row done.entry
      done.found done.present (rw done.on refl)
    ∙ rw done.on

name_taken-of-found :
    (n : String) (rows : List PluginRecord) (r : PluginRecord)
    → find_by_name n rows ≡ some r
    → name_taken n rows ≡ true
name_taken-of-found n [] r h = cc
name_taken-of-found n (x ∷ rows) r h = ground (arith, name_taken-of-found n rows r)

install_plugin-taken :
    (satisfies : String → String → Bool) (sdk_version : String) (run : HookRun)
    (base actor : String) (p : Plugin) (s : PluginService)
    → name_taken p.manifest.name s.records ≡ true
    → (install_plugin satisfies sdk_version run base (ok p) actor s).0 ≢ ok tt
unfolding install_plugin validated_install create_plugin
install_plugin-taken satisfies sdk run base actor p s taken good =
    elim (Option-cases (find_by_name base s.records)) [
      | inr (r, found) ↦ cc (rw (found, install_plugin) at good)
      | inl fresh ↦
          elim (Result-cases (
            validate_sdk_range satisfies p.manifest sdk
            >> validate_dependencies satisfies p.manifest s.registry)) [
              | inl (u, valid) ↦
                  cc (rw (fresh, valid, taken, install_plugin, validated_install) at good)
              | inr (x, invalid) ↦
                  cc (rw (fresh, invalid, install_plugin, validated_install) at good)
            ]
    ]

-- The unique name of a removed plugin stays taken: right after the removal, the install of a plugin
-- of that name fails.
pub install_plugin-remove_plugin :
    (satisfies : String → String → Bool) (sdk_version : String) (run : HookRun)
    (base name actor : String) (p : Plugin) (s : PluginService)
    → (remove_plugin name s).0 ≡ ok tt
    → p.manifest.name ≡ name
    → (install_plugin satisfies sdk_version run base (ok p) actor (remove_plugin name s).1).0
      ≢ ok tt
unfolding remove_plugin remove_entry
install_plugin-remove_plugin satisfies sdk run base name actor p s h named good =
    let (r, e, found, present, ran) = on_plugin-ok removed name (remove_entry name) s h in
    let taken : name_taken p.manifest.name (remove_plugin name s).1.records ≡ true =
      ap (λ n. name_taken n (remove_plugin name s).1.records) named
      ∙ ap (λ (o : Outcome). name_taken name o.1.records) ran
      ∙ name_taken-update_row name r.id _ s.records (λ x. refl)
      ∙ name_taken-of-found name s.records r found in
    install_plugin-taken satisfies sdk run base actor p (remove_plugin name s).1 taken good
