-- ===== src/Plugins/Dependencies/Sorted.antt =====
-- The order that `topologicalOrder` of plugin-dependency.resolver.ts gives.
use armstrong_bot.Prelude.{
  ℕ, zero, suc, ◌+◌, ◌≡◌, ◌≢◌, refl, sym, subst, ◌⊎◌, inl, inr, String, List, [], ◌∷◌, ◌++◌, none,
  some, Result, ok, >>=-eq-ok, includes, includes_iff, length, arith, eq_iff, In, In-append,
  Bool-cases, Option-cases,
}
use armstrong_bot.Plugins.Manifest.{PluginDependency, PluginManifest}
use armstrong_bot.Plugins.Dependencies.{
  SortError, Sorting, names_of, find_named, finish_visit, visit_dependency, visit_dependencies,
  enter, visit, visit_all, empty_sorting, topological_order,
}

-- The dependencies of `m` among the manifests are before it.
abbrev pub Ready : List PluginManifest → List String → PluginManifest → Type 0
Ready manifests before m =
    (dep : PluginDependency)
    → In dep m.dependencies
    → In dep.name (names_of manifests)
    → In dep.name before

-- Each manifest stands behind its dependencies.
abbrev pub IsOrdered : List PluginManifest → List String → List PluginManifest → Type 0
IsOrdered manifests before [] = Unit {0}
IsOrdered manifests before (m ∷ ms) =
    Ready manifests before m × IsOrdered manifests (before ++ m.name ∷ []) ms

pub find_named-name :
    (name : String) (ms : List PluginManifest) (m : PluginManifest)
    → find_named name ms ≡ some m
    → (m.name ≡ name) × In m ms
find_named-name name [] m h = cc
find_named-name name (x ∷ ms) m h = ground (arith, eq_iff x.name name, find_named-name name ms m)

find_named-In :
    (name : String) (ms : List PluginManifest) → In name (names_of ms) → find_named name ms ≢ none
find_named-In name [] i h = i
find_named-In name (x ∷ ms) i h = ground (arith, eq_iff x.name name, find_named-In name ms)

module _ (manifests : List PluginManifest) where
  -- What holds of the state between the calls.
  pub record IsSorting (s : Sorting) : Type 0 where
    pub ordered : IsOrdered manifests [] s.sorted
    pub placed : (n : String) → In n s.visited → In n (names_of s.sorted)

  -- A call keeps that, forgets no visited name, and visits what it should.
  pub record Visits (s t : Sorting) : Type 0 where
    pub sorting : IsSorting t
    pub grows : (n : String) → In n s.visited → In n t.visited

  -- the step that a visit has to be
  abbrev VisitsAll : (PluginManifest → Sorting → Result SortError Sorting) → Type 0
  VisitsAll go =
      (m : PluginManifest) (s t : Sorting)
      → IsSorting s
      → go m s ≡ ok t
      → Visits s t × In m.name t.visited

  Visits-refl : (s : Sorting) → IsSorting s → Visits s s
  Visits-refl s h = record { sorting = h; grows = λ n i. i }

  Visits-trans : (s t u : Sorting) → Visits s t → Visits t u → Visits s u
  Visits-trans s t u a b = record { sorting = b.sorting; grows = λ n i. b.grows n (a.grows n i) }

  In-names_snoc :
      (n : String) (m : PluginManifest) (ms : List PluginManifest)
      → In n (names_of ms) ⊎ (n ≡ m.name)
      → In n (names_of (ms ++ m ∷ []))
  In-names_snoc n m [] h = ground arith
  In-names_snoc n m (x ∷ ms) h = ground (arith, In-names_snoc n m ms)

  IsOrdered-snoc :
      (before : List String) (ms : List PluginManifest) (m : PluginManifest)
      → IsOrdered manifests before ms
      → Ready manifests (before ++ names_of ms) m
      → IsOrdered manifests before (ms ++ m ∷ [])
  IsOrdered-snoc before [] m h ready =
      (λ dep i known. ground (arith, ready dep i known, In-append dep.name before []), tt)
  IsOrdered-snoc before (x ∷ ms) m h ready = (
    h.0,
    IsOrdered-snoc (before ++ x.name ∷ []) ms m h.1 (λ dep i known. ground (
      arith,
      ready dep i known,
      In-append dep.name before (x.name ∷ names_of ms),
      In-append dep.name before (x.name ∷ []),
      In-append dep.name (before ++ x.name ∷ []) (names_of ms),
    )),
  )

  visit_dependency-Visits :
      (go : PluginManifest → Sorting → Result SortError Sorting) (dep : PluginDependency)
      (s t : Sorting)
      → VisitsAll go
      → IsSorting s
      → visit_dependency go manifests dep s ≡ ok t
      → Visits s t × (In dep.name (names_of manifests) → In dep.name t.visited)
  unfolding visit_dependency
  visit_dependency-Visits go dep s t all h done =
      elim (Bool-cases (includes dep.name (names_of manifests))) [
        | inr unknown ↦
            let same : s ≡ t = cc (rw (unknown, visit_dependency) at done) in
            (
              subst (λ (x : Sorting). Visits s x) same (Visits-refl s h),
              λ i. absurd (cc ((includes_iff dep.name (names_of manifests)).1 i, unknown)),
            )
        | inl known ↦ elim (Option-cases (find_named dep.name manifests)) [
          | inl missing ↦ absurd (
              find_named-In dep.name manifests
                ((includes_iff dep.name (names_of manifests)).0 known) missing)
          | inr (d, found) ↦
              let (visits, i) = all d s t h (rw (known, found, visit_dependency) at done) in
              (
                visits,
                λ k.
                    subst (λ (n : String). In n t.visited)
                      (find_named-name dep.name manifests d found).0 i,
              )
        ]
      ]

  visit_dependencies-Visits :
      (go : PluginManifest → Sorting → Result SortError Sorting) (deps : List PluginDependency)
      (s t : Sorting)
      → VisitsAll go
      → IsSorting s
      → visit_dependencies go manifests deps s ≡ ok t
      → Visits s t
        × ((dep : PluginDependency)
            → In dep deps
            → In dep.name (names_of manifests)
            → In dep.name t.visited)
  unfolding visit_dependencies
  visit_dependencies-Visits go [] s t all h done =
      (subst (λ (x : Sorting). Visits s x) (cc done) (Visits-refl s h), λ dep i. elim i [ ])
  visit_dependencies-Visits go (d ∷ deps) s t all h done =
      let (u, first, rest) =
        >>=-eq-ok (visit_dependency go manifests d s) (visit_dependencies go manifests deps) done in
      let (a, seen) = visit_dependency-Visits go d s u all h first in
      let (b, others) = visit_dependencies-Visits go deps u t all a.sorting rest in
      (
        Visits-trans s u t a b,
        λ dep i known. elim i [
          | inl same ↦ b.grows dep.name (
              subst (λ (x : PluginDependency). In x.name u.visited) (sym same)
                (seen
                  (subst (λ (x : PluginDependency). In x.name (names_of manifests)) same known)))
          | inr later ↦ others dep later known
        ],
      )

  finish_visit-Visits :
      (m : PluginManifest) (s t : Sorting)
      → Visits (enter m s) t
      → ((dep : PluginDependency)
          → In dep m.dependencies
          → In dep.name (names_of manifests)
          → In dep.name t.visited)
      → Visits s (finish_visit m t)
  finish_visit-Visits m s t v ready = record {
    sorting = record {
      ordered =
          IsOrdered-snoc [] t.sorted m v.sorting.ordered
            (λ dep i known. v.sorting.placed dep.name (ready dep i known));
      placed = λ n i.
          In-names_snoc n m t.sorted
            (elim i [ inl same ↦ inr same | inr later ↦ inl (v.sorting.placed n later) ]);
    };
    grows = λ n i. inr (v.grows n i);
  }

  visit-VisitsAll : (left : ℕ) → VisitsAll (visit left manifests)
  unfolding visit
  visit-VisitsAll zero m s t h done = absurd (cc done)
  visit-VisitsAll (suc left) m s t h done = elim (Bool-cases (includes m.name s.visited)) [
    | inl seen ↦
        let same : s ≡ t = cc (rw (seen, visit) at done) in
        (
          subst (λ (x : Sorting). Visits s x) same (Visits-refl s h),
          subst (λ (x : Sorting). In m.name x.visited) same
              ((includes_iff m.name s.visited).0 seen),
        )
    | inr new ↦ elim (Bool-cases (includes m.name s.visiting)) [
      | inl cycle ↦ absurd (cc (rw (new, cycle, visit) at done))
      | inr clear ↦
          let (u, inner, last) =
            >>=-eq-ok
              (visit_dependencies (visit left manifests) manifests m.dependencies (enter m s))
              (λ x. ok (finish_visit m x)) (rw (new, clear, visit) at done) in
          let (v, ready) =
            visit_dependencies-Visits (visit left manifests) m.dependencies (enter m s) u
              (visit-VisitsAll left) (record { ordered = h.ordered; placed = h.placed }) inner in
          let same : finish_visit m u ≡ t = cc last in
          (
            subst (λ (x : Sorting). Visits s x) same (finish_visit-Visits m s u v ready),
            subst (λ (x : Sorting). In m.name x.visited) same (inl refl),
          )
    ]
  ]

  visit_all-Visits :
      (left : ℕ) (ms : List PluginManifest) (s t : Sorting)
      → IsSorting s
      → visit_all left manifests ms s ≡ ok t
      → Visits s t × ((m : PluginManifest) → In m ms → In m.name t.visited)
  unfolding visit_all
  visit_all-Visits left [] s t h done =
      (subst (λ (x : Sorting). Visits s x) (cc done) (Visits-refl s h), λ m i. elim i [ ])
  visit_all-Visits left (x ∷ ms) s t h done =
      let (u, first, rest) =
        >>=-eq-ok (visit left manifests x s) (visit_all left manifests ms) done in
      let (a, seen) = visit-VisitsAll left x s u h first in
      let (b, others) = visit_all-Visits left ms u t a.sorting rest in
      (
        Visits-trans s u t a b,
        λ m i. elim i [
          | inl same ↦
              b.grows m.name (subst (λ (y : PluginManifest). In y.name u.visited) (sym same) seen)
          | inr later ↦ others m later
        ],
      )

-- If `topologicalOrder` returns, each plugin stands behind all of its dependencies that are among
-- the manifests, and the name of each manifest has its place.
pub topological_order-IsOrdered :
    (manifests sorted : List PluginManifest)
    → topological_order manifests ≡ ok sorted
    → IsOrdered manifests [] sorted
      × ((m : PluginManifest) → In m manifests → In m.name (names_of sorted))
unfolding topological_order
topological_order-IsOrdered manifests sorted done =
    let (s, all, last) =
      >>=-eq-ok (visit_all (length manifests + 1) manifests manifests empty_sorting)
        (λ x. ok x.sorted) done in
    let (v, seen) =
      visit_all-Visits manifests (length manifests + 1) manifests empty_sorting s
        (record { ordered = tt; placed = λ n i. i }) all in
    let same : s.sorted ≡ sorted = cc last in
    (
      subst (λ (x : List PluginManifest). IsOrdered manifests [] x) same v.sorting.ordered,
      λ m i.
          subst (λ (x : List PluginManifest). In m.name (names_of x)) same
            (v.sorting.placed m.name (seen m i)),
    )
