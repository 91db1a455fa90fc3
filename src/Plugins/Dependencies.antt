-- ===== src/Plugins/Dependencies.antt =====
-- `topologicalOrder` of src/core/plugins/domain/plugin-dependency.resolver.ts. The number of nested
-- calls that are left is fuel, and Plugins.Dependencies.Fuel shows that it is never used up.
pub mod Sorted
pub mod Fuel
pub mod Cycles
mod Tests
use armstrong_bot.Prelude.{
  ℕ, zero, suc, ◌+◌, String, not, List, [], ◌∷◌, ◌++◌, map, Option, none, some, find, filter,
  if◌then◌else◌, Result, ok, err, ◌>>=◌, includes, length, ◌==◌,
}
use armstrong_bot.Plugins.Manifest.{PluginDependency, PluginManifest}

pub data SortError : Type 0 where
  dependency_cycle : String → SortError
  out_of_fuel : SortError

-- What the closure `visit` changes. The sets list their members.
pub record Sorting : Type 0 where
  pub visited : List String
  pub visiting : List String
  pub sorted : List PluginManifest

abbrev pub names_of : List PluginManifest → List String
names_of ms = map (λ (m : PluginManifest). m.name) ms

abbrev pub find_named : String → List PluginManifest → Option PluginManifest
find_named name ms = find (λ (m : PluginManifest). m.name == name) ms

abbrev pub drop_name : String → List String → List String
drop_name name xs = filter (λ x. not (x == name)) xs

-- The end of `visit`.
abbrev pub finish_visit : PluginManifest → Sorting → Sorting
finish_visit m s = record {
  visited = m.name ∷ s.visited;
  visiting = drop_name m.name s.visiting;
  sorted = s.sorted ++ m ∷ [];
}

-- One dependency, with the recursive call passed in.
pub visit_dependency :
    (PluginManifest → Sorting → Result SortError Sorting)
    → List PluginManifest
    → PluginDependency
    → Sorting
    → Result SortError Sorting
visit_dependency visit manifests dep s =
    if includes dep.name (names_of manifests)
    then elim (find_named dep.name manifests) [ none ↦ ok s | some d ↦ visit d s ]
    else ok s

-- The loop over `manifest.dependencies`.
pub visit_dependencies :
    (PluginManifest → Sorting → Result SortError Sorting)
    → List PluginManifest
    → List PluginDependency
    → Sorting
    → Result SortError Sorting
visit_dependencies visit manifests [] s = ok s
visit_dependencies visit manifests (dep ∷ deps) s =
    visit_dependency visit manifests dep s >>= visit_dependencies visit manifests deps

abbrev enter : PluginManifest → Sorting → Sorting
enter m s = record s { visiting = m.name ∷ s.visiting }

pub visit : ℕ → List PluginManifest → PluginManifest → Sorting → Result SortError Sorting
visit zero manifests m s = err out_of_fuel
visit (suc left) manifests m s =
    if includes m.name s.visited
    then ok s
    else if includes m.name s.visiting
    then err (dependency_cycle m.name)
    else visit_dependencies (visit left manifests) manifests m.dependencies (enter m s) >>= λ t.
        ok (finish_visit m t)

pub visit_all : ℕ → List PluginManifest → List PluginManifest → Sorting → Result SortError Sorting
visit_all left manifests [] s = ok s
visit_all left manifests (m ∷ ms) s = visit left manifests m s >>= visit_all left manifests ms

abbrev pub empty_sorting : Sorting
empty_sorting = record { visited = []; visiting = []; sorted = [] }

unfoldable pub topological_order : List PluginManifest → Result SortError (List PluginManifest)
unfolding visit_all visit visit_dependencies visit_dependency
topological_order manifests =
    visit_all (length manifests + 1) manifests manifests empty_sorting >>= λ s. ok s.sorted
