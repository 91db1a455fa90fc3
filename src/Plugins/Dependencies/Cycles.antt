-- ===== src/Plugins/Dependencies/Cycles.antt =====
-- That a cycle which plugin-dependency.resolver.ts reports is one.
use armstrong_bot.Prelude.{
  ℕ, zero, suc, ◌+◌, ◌≡◌, refl, sym, ap, ◌∙◌, subst, inl, inr, String, List, [], ◌∷◌, Result, ok,
  err, ◌>>=◌, includes, includes_iff, length, arith, eq_iff, In, Bool-cases, Option-cases,
  Result-cases,
}
use armstrong_bot.Plugins.Manifest.{PluginDependency, PluginManifest}
use armstrong_bot.Plugins.Dependencies.{
  SortError, dependency_cycle, Sorting, names_of, find_named, drop_name, finish_visit,
  visit_dependency, visit_dependencies, enter, visit, visit_all, empty_sorting, topological_order,
}
use armstrong_bot.Plugins.Dependencies.Sorted.{find_named-name}

empty-of : (v : List String) → ((x : String) → In x v → ⊥) → v ≡ []
empty-of [] h = refl
empty-of (x ∷ v) h = absurd (h x (inl refl))

module _ (manifests : List PluginManifest) where
  -- A manifest of the name `a` asks for a plugin of the name `b`.
  pub record DependsOn (a b : String) : Type 0 where
    pub manifest : PluginManifest
    pub listed : In manifest manifests
    pub named : manifest.name ≡ a
    pub dependency : PluginDependency
    pub asked : In dependency manifest.dependencies
    pub for_name : dependency.name ≡ b

  -- In one step or more.
  pub data Needs (a : String) : String → Type 0 where
    direct : {b : String} → DependsOn a b → Needs a b
    through : {b c : String} → Needs a b → DependsOn b c → Needs a c

  -- Everything that is being visited needs the name.
  abbrev AllNeed : List String → String → Type 0
  AllNeed v name = (x : String) → In x v → Needs x name

  -- A call visits no more at its end than at its start, and a cycle that it reports is one.
  record IsSound (s : Sorting) (r : Result SortError Sorting) : Type 0 where
    kept : (t : Sorting) → r ≡ ok t → (x : String) → In x t.visiting → In x s.visiting
    real : (n : String) → r ≡ err (dependency_cycle n) → Needs n n

  IsSound-ok :
      (s t : Sorting) → ((x : String) → In x t.visiting → In x s.visiting) → IsSound s (ok t)
  IsSound-ok s t sub = record {
    kept = λ u same x i.
        let ends : t ≡ u = cc same in sub x (subst (λ (y : Sorting). In x y.visiting) (sym ends) i);
    real = λ n bad. absurd (cc bad);
  }

  -- Two calls in a row.
  IsSound-then :
      (s : Sorting) (r : Result SortError Sorting) (next : Sorting → Result SortError Sorting)
      → IsSound s r
      → ((t : Sorting) → r ≡ ok t → IsSound t (next t))
      → IsSound s (r >>= next)
  IsSound-then s (ok t) next a b = record {
    kept = λ u done x i. a.kept t refl x ((b t refl).kept u done x i);
    real = (b t refl).real;
  }
  IsSound-then s (err e) next a b = record {
    kept = λ t bad. absurd (cc bad);
    real = λ n same. a.real n (cc same);
  }

  abbrev AllSound : (PluginManifest → Sorting → Result SortError Sorting) → Type 0
  AllSound go =
      (m : PluginManifest) (s : Sorting)
      → In m manifests
      → AllNeed s.visiting m.name
      → IsSound s (go m s)

  visit_dependency-IsSound :
      (go : PluginManifest → Sorting → Result SortError Sorting) (dep : PluginDependency)
      (s : Sorting)
      → AllSound go
      → AllNeed s.visiting dep.name
      → IsSound s (visit_dependency go manifests dep s)
  unfolding visit_dependency
  visit_dependency-IsSound go dep s all need =
      elim (Bool-cases (includes dep.name (names_of manifests))) [
        | inr unknown ↦ rw unknown (IsSound-ok s s (λ x i. i))
        | inl known ↦ elim (Option-cases (find_named dep.name manifests)) [
          | inl missing ↦ rw (known, missing) (IsSound-ok s s (λ x i. i))
          | inr (d, found) ↦
              let (named, listed) = find_named-name dep.name manifests d found in
              rw (known, found)
                (all d s listed (subst (λ (n : String). AllNeed s.visiting n) (sym named) need))
        ]
      ]

  visit_dependencies-IsSound :
      (go : PluginManifest → Sorting → Result SortError Sorting) (deps : List PluginDependency)
      (s : Sorting)
      → AllSound go
      → ((dep : PluginDependency) → In dep deps → AllNeed s.visiting dep.name)
      → IsSound s (visit_dependencies go manifests deps s)
  unfolding visit_dependencies
  visit_dependencies-IsSound go [] s all need = IsSound-ok s s (λ x i. i)
  visit_dependencies-IsSound go (d ∷ deps) s all need =
      let first = visit_dependency-IsSound go d s all (need d (inl refl)) in
      IsSound-then s (visit_dependency go manifests d s) (visit_dependencies go manifests deps)
        first
        (λ t done.
          visit_dependencies-IsSound go deps t all
            (λ dep i x j. need dep (inr i) x (first.kept t done x j)))

  In-drop_name :
      (x n : String) (v w : List String)
      → ((y : String) → In y v → In y (n ∷ w))
      → In x (drop_name n v)
      → In x w
  In-drop_name x n [] w sub i = elim i [ ]
  In-drop_name x n (y ∷ v) w sub i =
      ground (arith, sub y (inl refl), eq_iff y n, In-drop_name x n v w (λ z j. sub z (inr j)))

  IsSound-finish :
      (m : PluginManifest) (s : Sorting) (r : Result SortError Sorting)
      → IsSound (enter m s) r
      → IsSound s (r >>= λ t. ok (finish_visit m t))
  IsSound-finish m s (ok t) a =
      IsSound-ok s (finish_visit m t)
        (λ x i. In-drop_name x m.name t.visiting s.visiting (a.kept t refl) i)
  IsSound-finish m s (err e) a = record {
    kept = λ t bad. absurd (cc bad);
    real = λ n same. a.real n (cc same);
  }

  -- What is being visited needs the dependencies of the manifest that is entered.
  AllNeed-dependency :
      (m : PluginManifest) (s : Sorting)
      → In m manifests
      → AllNeed s.visiting m.name
      → (dep : PluginDependency) → In dep m.dependencies
      → AllNeed (enter m s).visiting dep.name
  AllNeed-dependency m s listed need dep i x j =
      let step : DependsOn m.name dep.name = record {
        manifest = m;
        listed = listed;
        named = refl;
        dependency = dep;
        asked = i;
        for_name = refl;
      } in
      elim j [
        | inl same ↦ subst (λ (y : String). Needs y dep.name) (sym same) (direct step)
        | inr k ↦ through (need x k) step
      ]

  visit-AllSound : (left : ℕ) → AllSound (visit left manifests)
  unfolding visit
  visit-AllSound zero m s listed need = record {
    kept = λ t bad. absurd (cc bad);
    real = λ n bad. absurd (cc bad);
  }
  visit-AllSound (suc left) m s listed need = elim (Bool-cases (includes m.name s.visited)) [
    | inl seen ↦ rw seen (IsSound-ok s s (λ x i. i))
    | inr new ↦ elim (Bool-cases (includes m.name s.visiting)) [
      | inl cycle ↦
          rw (new, cycle)
            (record {
              kept = λ t bad. absurd (cc bad);
              real = λ n same.
                  let named : m.name ≡ n = cc same in
                  subst (λ (k : String). Needs k k) named
                    (need m.name ((includes_iff m.name s.visiting).0 cycle));
            })
      | inr clear ↦
          rw (new, clear)
            (IsSound-finish m s
              (visit_dependencies (visit left manifests) manifests m.dependencies (enter m s))
              (visit_dependencies-IsSound (visit left manifests) m.dependencies (enter m s)
                (visit-AllSound left) (λ dep i x j. AllNeed-dependency m s listed need dep i x j)))
    ]
  ]

  visit_all-IsSound :
      (left : ℕ) (ms : List PluginManifest) (s : Sorting)
      → ((m : PluginManifest) → In m ms → In m manifests)
      → s.visiting ≡ []
      → IsSound s (visit_all left manifests ms s)
  unfolding visit_all
  visit_all-IsSound left [] s sub none_open = IsSound-ok s s (λ x i. i)
  visit_all-IsSound left (m ∷ ms) s sub none_open =
      let first =
        visit-AllSound left m s (sub m (inl refl))
          (λ x i. absurd (subst (λ (v : List String). In x v) none_open i)) in
      IsSound-then s (visit left manifests m s) (visit_all left manifests ms) first (λ t done.
        visit_all-IsSound left ms t (λ y j. sub y (inr j))
          (empty-of t.visiting
            (λ x i. subst (λ (v : List String). In x v) none_open (first.kept t done x i))))

-- A cycle that `topologicalOrder` reports is real: the plugin that it names needs itself, by one or
-- more steps from a manifest to one that it depends on.
pub topological_order-Needs :
    (manifests : List PluginManifest) (n : String)
    → topological_order manifests ≡ err (dependency_cycle n)
    → Needs manifests n n
unfolding topological_order
topological_order-Needs manifests n cycle =
    let left = length manifests + 1 in
    elim (Result-cases (visit_all left manifests manifests empty_sorting)) [
      | inl (t, done) ↦ absurd (cc (rw (done, topological_order) at cycle))
      | inr (e, failed) ↦
          let ends : topological_order manifests ≡ err e = rw (failed, topological_order) in
          let named : e ≡ dependency_cycle n = cc (sym ends ∙ cycle) in
          (visit_all-IsSound manifests left manifests empty_sorting (λ m i. i) refl).real n
            (failed ∙ ap (λ (x : SortError). err x) named)
    ]
