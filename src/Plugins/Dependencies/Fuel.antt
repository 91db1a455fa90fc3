-- ===== src/Plugins/Dependencies/Fuel.antt =====
-- That the nesting of `visit` in plugin-dependency.resolver.ts is bounded by the manifests.
use armstrong_bot.Prelude.{
  ℕ, zero, suc, ◌+◌, ◌≤◌, ◌<◌, ◌≡◌, refl, sym, ap, ◌∙◌, subst, ◌⊎◌, inl, inr, String, false, List,
  [], ◌∷◌, if◌then◌else◌, Result, ok, err, includes, length, arith, eq_iff, eq_refl, In, Bool-cases,
  Option-cases,
}
use armstrong_bot.Plugins.Manifest.{PluginDependency, PluginManifest}
use armstrong_bot.Plugins.Dependencies.{
  SortError, dependency_cycle, Sorting, names_of, find_named, drop_name, finish_visit,
  visit_dependency, visit_dependencies, enter, visit, visit_all, empty_sorting, topological_order,
}
use armstrong_bot.Plugins.Dependencies.Sorted.{find_named-name}

-- How many manifests are not being visited.
abbrev remaining : List PluginManifest → List String → ℕ
remaining [] v = 0
remaining (m ∷ ms) v = (if includes m.name v then 0 else 1) + remaining ms v

remaining-le : (ms : List PluginManifest) (v : List String) → remaining ms v ≤ length ms
remaining-le [] v = omega arith
remaining-le (m ∷ ms) v = ground (arith, remaining-le ms v)

remaining_mono :
    (ms : List PluginManifest) (n : String) (v : List String)
    → remaining ms (n ∷ v) ≤ remaining ms v
remaining_mono [] n v = omega arith
remaining_mono (m ∷ ms) n v = ground (arith, remaining_mono ms n v)

remaining-lt :
    (ms : List PluginManifest) (m : PluginManifest) (v : List String)
    → In m ms
    → includes m.name v ≡ false
    → remaining ms (m.name ∷ v) < remaining ms v
remaining-lt [] m v i new = elim i [ ]
remaining-lt (x ∷ ms) m v (inl same) new =
    let counted : includes x.name v ≡ false =
      subst (λ (y : PluginManifest). includes y.name v ≡ false) same new in
    let named : m.name ≡ x.name = ap (λ (y : PluginManifest). y.name) same in
    ground (arith, counted, named, eq_iff m.name x.name, remaining_mono ms m.name v)
remaining-lt (x ∷ ms) m v (inr later) new =
    ground (arith, remaining-lt ms m v later new, eq_iff m.name x.name)

drop_name-absent : (n : String) (v : List String) → includes n v ≡ false → drop_name n v ≡ v
drop_name-absent n [] h = refl
drop_name-absent n (x ∷ v) h = ground (arith, drop_name-absent n v)

drop_name-own : (n : String) (v : List String) → includes n v ≡ false → drop_name n (n ∷ v) ≡ v
drop_name-own n v h = rw (eq_refl n) (drop_name-absent n v h)

-- A call ends, and leaves the names that are being visited as they were.
abbrev Ends : Sorting → Result SortError Sorting → Type 0
Ends s r =
    ((t : Sorting) × (r ≡ ok t) × (t.visiting ≡ s.visiting))
    ⊎ ((n : String) × (r ≡ err (dependency_cycle n)))

module _ (manifests : List PluginManifest) where
  abbrev AllEnd : ℕ → (PluginManifest → Sorting → Result SortError Sorting) → Type 0
  AllEnd left go =
      (m : PluginManifest) (s : Sorting)
      → In m manifests
      → remaining manifests s.visiting < left
      → Ends s (go m s)

  visit_dependency-Ends :
      (left : ℕ) (go : PluginManifest → Sorting → Result SortError Sorting) (dep : PluginDependency)
      (s : Sorting)
      → AllEnd left go
      → remaining manifests s.visiting < left
      → Ends s (visit_dependency go manifests dep s)
  unfolding visit_dependency
  visit_dependency-Ends left go dep s all lt =
      elim (Bool-cases (includes dep.name (names_of manifests))) [
        | inr unknown ↦ inl (s, rw unknown, refl)
        | inl known ↦ elim (Option-cases (find_named dep.name manifests)) [
          | inl missing ↦ inl (s, rw (known, missing), refl)
          | inr (d, found) ↦
              let goes : visit_dependency go manifests dep s ≡ go d s =
                rw (known, found, visit_dependency) in
              subst (λ (r : Result SortError Sorting). Ends s r) (sym goes)
                (all d s (find_named-name dep.name manifests d found).1 lt)
        ]
      ]

  visit_dependencies-Ends :
      (left : ℕ) (go : PluginManifest → Sorting → Result SortError Sorting)
      (deps : List PluginDependency) (s : Sorting)
      → AllEnd left go
      → remaining manifests s.visiting < left
      → Ends s (visit_dependencies go manifests deps s)
  unfolding visit_dependencies
  visit_dependencies-Ends left go [] s all lt = inl (s, refl, refl)
  visit_dependencies-Ends left go (d ∷ deps) s all lt =
      elim (visit_dependency-Ends left go d s all lt) [
        | inr (n, cycle) ↦ inr (n, rw cycle)
        | inl (t, done, kept) ↦
            elim (visit_dependencies-Ends left go deps t all
              (subst (λ (v : List String). remaining manifests v < left) (sym kept) lt)) [
                | inl (u, rest, again) ↦ inl (u, rw done rest, again ∙ kept)
                | inr (n, cycle) ↦ inr (n, rw done cycle)
              ]
      ]

  visit-AllEnd : (left : ℕ) → AllEnd left (visit left manifests)
  unfolding visit
  visit-AllEnd zero m s i lt = absurd (omega (arith, lt))
  visit-AllEnd (suc left) m s i lt = elim (Bool-cases (includes m.name s.visited)) [
    | inl seen ↦ inl (s, rw seen, refl)
    | inr new ↦ elim (Bool-cases (includes m.name s.visiting)) [
      | inl cycle ↦ inr (m.name, rw (new, cycle))
      | inr clear ↦
          elim (visit_dependencies-Ends left (visit left manifests) m.dependencies (enter m s)
            (visit-AllEnd left) (omega (arith, lt, remaining-lt manifests m s.visiting i clear))) [
              | inr (n, cycle) ↦ inr (n, rw (new, clear, cycle))
              | inl (t, done, kept) ↦ inl (
                finish_visit m t,
                rw (new, clear, done),
                rw kept (drop_name-own m.name s.visiting clear),
              )
            ]
    ]
  ]

  visit_all-Ends :
      (left : ℕ) (ms : List PluginManifest) (s : Sorting)
      → ((m : PluginManifest) → In m ms → In m manifests)
      → remaining manifests s.visiting < left
      → Ends s (visit_all left manifests ms s)
  unfolding visit_all
  visit_all-Ends left [] s sub lt = inl (s, refl, refl)
  visit_all-Ends left (m ∷ ms) s sub lt = elim (visit-AllEnd left m s (sub m (inl refl)) lt) [
    | inr (n, cycle) ↦ inr (n, rw cycle)
    | inl (t, done, kept) ↦
        elim (visit_all-Ends left ms t (λ x i. sub x (inr i))
          (subst (λ (v : List String). remaining manifests v < left) (sym kept) lt)) [
            | inl (u, rest, again) ↦ inl (u, rw done rest, again ∙ kept)
            | inr (n, cycle) ↦ inr (n, rw done cycle)
          ]
  ]

-- `topologicalOrder` always ends: it returns an order, or it reports a cycle.
pub topological_order-ends :
    (manifests : List PluginManifest)
    → ((sorted : List PluginManifest) × (topological_order manifests ≡ ok sorted))
      ⊎ ((n : String) × (topological_order manifests ≡ err (dependency_cycle n)))
unfolding topological_order
topological_order-ends manifests =
    elim (visit_all-Ends manifests (length manifests + 1) manifests empty_sorting (λ m i. i)
      (omega (arith, remaining-le manifests []))) [
        | inl (t, done, kept) ↦ inl (t.sorted, rw done)
        | inr (n, cycle) ↦ inr (n, rw cycle)
      ]
