-- ===== src/Plugins/Service/Operations/Follows.antt =====
-- Registries whose entries move from status to status (plugin.application-service.ts).
use armstrong_bot.Prelude.{
  ◌≡◌, ◌⊎◌, refl, sym, ap, ◌∙◌, subst, inl, inr, String, Bool, true, List, [], ◌∷◌, Option, none,
  some, Result, ◌>>◌, lookup, insert, lookup-insert, lookup-remove, ◌==◌, arith, eq_iff, Bool-cases,
  Option-cases, Result-cases,
}
use armstrong_bot.Prelude as P
use armstrong_bot.Plugins.Manifest.{PluginStatus, Phase, Plugin, PluginError, LoadedPluginEntry}
use armstrong_bot.Plugins.Lifecycle.{can_transition, HookRun, after_hook}
use armstrong_bot.Plugins.Service.{
  PluginRecord, PluginService, Outcome, find_by_name, validate_sdk_range, validate_dependencies,
}
use armstrong_bot.Plugins.Service.Operations.{
  on_plugin, create_plugin, validated_install, install_plugin,
}
use armstrong_bot.Plugins.Service.Operations.Requests.{map_entries}

abbrev pub Registry : Type 0
Registry = List (String × LoadedPluginEntry)

-- Whoever is registered before and after keeps the status, or moves as `T` says.
abbrev pub Follows :
    (String → PluginStatus → PluginStatus → Type 0)
    → List (String × LoadedPluginEntry)
    → List (String × LoadedPluginEntry)
    → Type 0
Follows T m m' =
    (n : String) (e e' : LoadedPluginEntry)
    → lookup n m ≡ some e
    → lookup n m' ≡ some e'
    → (e.status ≡ e'.status) ⊎ T n e.status e'.status

lookup-insert_twice :
    (n name : String) (e f : LoadedPluginEntry) (m : Registry)
    → lookup n (insert name f (insert name e m)) ≡ lookup n (insert name f m)
lookup-insert_twice n name e f m = ground (
  arith,
  lookup-insert name n f (insert name e m),
  lookup-insert name n e m,
  lookup-insert name n f m,
)

pub lookup-map_entries :
    (f : String → LoadedPluginEntry → LoadedPluginEntry) (n : String) (e : LoadedPluginEntry)
    (m : Registry)
    → lookup n m ≡ some e
    → lookup n (map_entries f m) ≡ some (f n e)
unfolding map_entries
lookup-map_entries f n e [] h = cc
lookup-map_entries f n e ((j, x) ∷ m) h = ground (arith, eq_iff j n, lookup-map_entries f n e m)

module _ (T : String → PluginStatus → PluginStatus → Type 0) where
  pub Follows-refl : (m : Registry) → Follows T m m
  Follows-refl m n e e' h k =
      let same : e ≡ e' = cc in inl (ap (λ (y : LoadedPluginEntry). y.status) same)

  pub Follows-to : (m : Registry) {m' m'' : Registry} → m'' ≡ m' → Follows T m m' → Follows T m m''
  Follows-to m is h = subst (λ x. Follows T m x) (sym is) h

  pub Follows-insert :
      (m : Registry) (name : String) (e e' : LoadedPluginEntry)
      → lookup name m ≡ some e
      → T name e.status e'.status
      → Follows T m (insert name e' m)
  Follows-insert m name e e' h l n x x' a b = elim (Bool-cases (name == n)) [
    | inl same ↦
        let is : name ≡ n = (eq_iff name n).0 same in
        let old : x ≡ e = cc (ap (λ k. lookup k m) is) in
        let new : x' ≡ e' = cc (rw (lookup-insert name n e' m, same) at b) in
        inr (
          subst (λ (k : String). T k x.status x'.status) is
            (subst (λ (y : LoadedPluginEntry). T name y.status x'.status) (sym old)
              (subst (λ (y : LoadedPluginEntry). T name e.status y.status) (sym new) l)))
    | inr other ↦
        let b' : lookup n m ≡ some x' = rw (lookup-insert name n e' m, other) at b in
        let unmoved : x ≡ x' = cc in inl (ap (λ (y : LoadedPluginEntry). y.status) unmoved)
  ]

  -- Only the last entry that is stored counts.
  pub Follows-insert_twice :
      (m : Registry) (name : String) (e f : LoadedPluginEntry)
      → Follows T m (insert name f m)
      → Follows T m (insert name f (insert name e m))
  Follows-insert_twice m name e f h n x x' a b =
      h n x x' a (sym (lookup-insert_twice n name e f m) ∙ b)

  pub Follows-insert_new :
      (m : Registry) (name : String) (e : LoadedPluginEntry)
      → lookup name m ≡ none
      → Follows T m (insert name e m)
  Follows-insert_new m name e h n x x' a b = elim (Bool-cases (name == n)) [
    | inl same ↦ absurd (cc (h, a, ap (λ k. lookup k m) ((eq_iff name n).0 same)))
    | inr other ↦
        let b' : lookup n m ≡ some x' = rw (lookup-insert name n e m, other) at b in
        let unmoved : x ≡ x' = cc in inl (ap (λ (y : LoadedPluginEntry). y.status) unmoved)
  ]

  pub Follows-map_entries :
      (f : String → LoadedPluginEntry → LoadedPluginEntry) (m : Registry)
      → ((n : String) (e : LoadedPluginEntry)
          → (e.status ≡ (f n e).status) ⊎ T n e.status (f n e).status)
      → Follows T m (map_entries f m)
  Follows-map_entries f m l n e e' a b =
      let is : f n e ≡ e' = cc (lookup-map_entries f n e m a) in
      subst (λ (y : LoadedPluginEntry). (e.status ≡ y.status) ⊎ T n e.status y.status) is (l n e)

  pub Follows-remove : (m : Registry) (name : String) → Follows T m (P.remove name m)
  Follows-remove m name n x x' a b = elim (Bool-cases (name == n)) [
    | inl same ↦ absurd (cc (rw (lookup-remove name n m, same) at b))
    | inr other ↦
        let b' : lookup n m ≡ some x' = rw (lookup-remove name n m, other) at b in
        let unmoved : x ≡ x' = cc in inl (ap (λ (y : LoadedPluginEntry). y.status) unmoved)
  ]

pub status-after_hook :
    (phase : Phase) (run : HookRun) (e : LoadedPluginEntry)
    → (after_hook phase run e).status ≡ e.status
unfolding after_hook
status-after_hook phase run e = ground arith

-- What holds of the state, whether or not the operation is let through.
pub on_plugin-keeps :
    (P : PluginService → Type 0) (next : PluginStatus) (name : String)
    (run : PluginRecord → LoadedPluginEntry → PluginService → Outcome) (s : PluginService)
    → P s
    → ((r : PluginRecord) (e : LoadedPluginEntry)
        → find_by_name name s.records ≡ some r
        → lookup name s.registry ≡ some e
        → can_transition e.status next ≡ true
        → P (run r e s).1)
    → P (on_plugin next name run s).1
unfolding on_plugin
on_plugin-keeps P next name run s p k = elim (Option-cases (find_by_name name s.records)) [
  | inl missing ↦ rw (missing, on_plugin) p
  | inr (r, found) ↦ elim (Option-cases (lookup name s.registry)) [
    | inl absent ↦ rw (found, absent, on_plugin) p
    | inr (e, present) ↦ elim (Bool-cases (can_transition e.status next)) [
      | inl may ↦ rw (found, present, may, on_plugin) (k r e found present may)
      | inr stopped ↦ rw (found, present, stopped, on_plugin) p
    ]
  ]
]

module _ (satisfies : String → String → Bool) (sdk_version : String) where
  -- What holds of the state, whether or not the install comes to its row.
  pub install_plugin-keeps :
      (P : PluginService → Type 0) (run : HookRun) (base : String)
      (loaded : Result PluginError Plugin) (actor : String) (s : PluginService)
      → P s
      → ((p : Plugin) → P (create_plugin run p actor s).1)
      → P (install_plugin satisfies sdk_version run base loaded actor s).1
  unfolding install_plugin validated_install
  install_plugin-keeps P run base loaded actor s h k =
      elim (Option-cases (find_by_name base s.records)) [
        | inr (r, found) ↦ rw (found, install_plugin) h
        | inl fresh ↦ elim (Result-cases loaded) [
          | inr (x, failed) ↦ rw (fresh, failed, install_plugin, validated_install) h
          | inl (p, fine) ↦
              elim (Result-cases (
                validate_sdk_range satisfies p.manifest sdk_version
                >> validate_dependencies satisfies p.manifest s.registry)) [
                  | inl (u, valid) ↦
                      rw (fresh, fine, valid, install_plugin, validated_install) (k p)
                  | inr (x, invalid) ↦
                      rw (fresh, fine, invalid, install_plugin, validated_install) h
                ]
        ]
      ]
