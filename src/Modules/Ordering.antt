-- ===== src/Modules/Ordering.antt =====
-- `_ordered_manifests` and `_validate_dependencies` of platform/src/businessos/modules/registry.py.
pub mod Rounds
pub mod Total
pub mod Order
pub mod Complete
use businessos.Prelude.{
  ℕ, zero, suc, String, Bool, true, false, not, ◌&&◌, Option, none, some, List, [], ◌∷◌, ◌++◌, ◌==◌,
  Eq, string_eq, if◌then◌else◌, contains, all, map, length,
}
use businessos.Prelude.Dict.{Dict, get, keys}
use businessos.Prelude.Sorting.{sorted, str_leb}
use businessos.Errors.{Result, ok, err, configuration_error, key_error, ◌>>=◌, ◌>>◌, require}
use businessos.Modules.Packaging.{Packaging}
use businessos.Modules.Manifest.{ModuleDependency, ModuleManifest}

-- all(dependency.module_id in resolved for dependency in manifest.dependencies)
abbrev pub is_ready : List String → ModuleManifest → Bool
is_ready resolved m = all (λ d. contains resolved d.module_id) m.dependencies

-- The identifiers that are not removed from `pending`.
abbrev pub without : List String → List String → List String
without gone [] = []
without gone (id ∷ ids) =
    let rest = without gone ids in if contains gone id then rest else id ∷ rest

module _ (p : Packaging) (manifests : Dict String ModuleManifest) where
  unfoldable pub validate_dependency : ModuleDependency → Result (Unit {0})
  validate_dependency d = elim (get manifests d.module_id) [
    | none ↦ err configuration_error
    | some target ↦ require (p.satisfies target.version d.version) configuration_error
  ]

  unfoldable pub validate_dependencies : List ModuleDependency → Result (Unit {0})
  unfolding validate_dependency
  validate_dependencies [] = ok tt
  validate_dependencies (d ∷ ds) = do validate_dependency d; validate_dependencies ds

  -- The loop over `sorted(pending)`.
  unfoldable pub ready_of : List String → List String → Result (List String)
  unfolding validate_dependencies
  ready_of resolved [] = ok []
  ready_of resolved (id ∷ ids) = elim (get manifests id) [
    | none ↦ err key_error
    | some m ↦ do
      validate_dependencies m.dependencies
      rest ← ready_of resolved ids
      ok (if is_ready resolved m then id ∷ rest else rest)
  ]

  -- The `while` loop; `none` means that the fuel ran out.
  unfoldable pub rounds : ℕ → List String → List String → Option (Result (List String))
  unfolding ready_of
  rounds fuel [] resolved = some (ok resolved)
  rounds zero (id ∷ ids) resolved = none
  rounds (suc fuel) (id ∷ ids) resolved = elim (ready_of resolved (sorted str_leb (id ∷ ids))) [
    | err e ↦ some (err e)
    | ok ready ↦ elim ready [
      | [] ↦ some (err configuration_error)
      | first ∷ more ↦ rounds fuel (without (first ∷ more) (id ∷ ids)) (resolved ++ first ∷ more)
    ]
  ]

  -- The identifiers of the manifests in the order of the result.
  unfoldable pub ordered_manifests : Option (Result (List String))
  unfolding rounds
  ordered_manifests = rounds (length manifests) (keys manifests) []
