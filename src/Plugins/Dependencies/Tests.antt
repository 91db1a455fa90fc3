-- ===== src/Plugins/Dependencies/Tests.antt =====
-- Runs of the topological order at concrete manifests.
use armstrong_bot.Prelude.{◌≡◌, ◌⊎◌, refl, String, true, List, [], ◌∷◌, ok, err, In}
use armstrong_bot.Plugins.Manifest.{PluginManifest}
use armstrong_bot.Plugins.Dependencies.{dependency_cycle, names_of, topological_order}
use armstrong_bot.Plugins.Dependencies.Sorted.{IsOrdered, topological_order-IsOrdered}
use armstrong_bot.Plugins.Dependencies.Fuel.{topological_order-ends}
use armstrong_bot.Plugins.Dependencies.Cycles.{Needs, topological_order-Needs}

abbrev manifest_of : String → List String → PluginManifest
manifest_of name [] = record { name = name; version = "1.0.0"; sdk_range = "^1"; dependencies = [] }
manifest_of name (d ∷ ds) = record {
  name = name;
  version = "1.0.0";
  sdk_range = "^1";
  dependencies = record { name = d; range = "*"; required = true } ∷ [];
}

abbrev app_and_base : List PluginManifest
app_and_base = manifest_of "app" ("base" ∷ []) ∷ manifest_of "base" [] ∷ []

abbrev base_and_app : List PluginManifest
base_and_app = manifest_of "base" [] ∷ manifest_of "app" ("base" ∷ []) ∷ []

abbrev tangled : List PluginManifest
tangled = manifest_of "a" ("b" ∷ []) ∷ manifest_of "b" ("a" ∷ []) ∷ []

topological_order-IsOrdered_example :
    IsOrdered app_and_base [] base_and_app
    × ((m : PluginManifest) → In m app_and_base → In m.name (names_of base_and_app))
unfolding topological_order
topological_order-IsOrdered_example = topological_order-IsOrdered app_and_base base_and_app refl

topological_order-ends_example :
    ((sorted : List PluginManifest) × (topological_order tangled ≡ ok sorted))
    ⊎ ((n : String) × (topological_order tangled ≡ err (dependency_cycle n)))
topological_order-ends_example = topological_order-ends tangled

topological_order-Needs_example : Needs tangled "a" "a"
unfolding topological_order
topological_order-Needs_example = topological_order-Needs tangled "a" refl
