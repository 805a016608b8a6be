-- ===== src/Modules/Upgrade.antt =====
-- `_validate_contract_upgrade`, `_validate_manifest_upgrade`, `_validate_resource_claims` and
-- `UpgradeCoordinator` of platform/src/businessos/modules/registry.py.
pub mod Claims
pub mod Planning
use businessos.Prelude.{
  ℕ, String, Bool, true, false, not, ◌&&◌, ◌||◌, Option, none, some, List, [], ◌∷◌, ◌++◌, ◌==◌, Eq,
  string_eq, pair_eq, if◌then◌else◌, contains, all, map, length, nat_eq,
}
use businessos.Prelude.Dict.{Dict, get, put, keys, values}
use businessos.Prelude.Sorting.{sorted, str_leb}
use businessos.Errors.{
  Result, ok, err, configuration_error, conflict_error, key_error, ◌>>=◌, ◌>>◌, require,
}
use businessos.Modules.Packaging.{Packaging}
use businessos.Modules.Manifest.{
  ModuleContractDeclaration, ResourceOwnership, ModuleManifest, claimed, supports,
}
use businessos.Modules.Ordering.{ordered_manifests}

-- {declaration.contract_id: declaration for declaration in target}, a later one replacing an earlier.
unfoldable pub by_contract_id :
    List ModuleContractDeclaration
    → Dict String ModuleContractDeclaration
    → Dict String ModuleContractDeclaration
by_contract_id [] d = d
by_contract_id (declaration ∷ rest) d =
    by_contract_id rest (put d declaration.contract_id declaration)

unfoldable pub check_contracts :
    Packaging
    → Dict String ModuleContractDeclaration
    → List ModuleContractDeclaration
    → Result (Unit {0})
check_contracts p proposed [] = ok tt
check_contracts p proposed (declaration ∷ rest) = elim (get proposed declaration.contract_id) [
  | none ↦ err configuration_error
  | some replacement ↦ do
    require (not (p.lt replacement.version declaration.version)) configuration_error
    check_contracts p proposed rest
]

unfoldable pub validate_contract_upgrade :
    Packaging → List ModuleContractDeclaration → List ModuleContractDeclaration → Result (Unit {0})
unfolding by_contract_id check_contracts
validate_contract_upgrade p current target = check_contracts p (by_contract_id target []) current

-- not (set(old_values) - set(new_values))
abbrev pub is_subset {ℓ} : {A : Type ℓ} ⦃e : Eq A⦄ → List A → List A → Bool
is_subset old_values new_values = all (λ v. contains new_values v) old_values

-- A declaration of support is withdrawn: True becomes anything else, or False becomes None.
abbrev pub is_withdrawn : Option Bool → Option Bool → Bool
is_withdrawn none _ = false
is_withdrawn (some true) (some true) = false
is_withdrawn (some true) _ = true
is_withdrawn (some false) none = true
is_withdrawn (some false) (some b) = false

unfoldable pub by_namespace :
    List ResourceOwnership
    → Dict (String × String) ResourceOwnership
    → Dict (String × String) ResourceOwnership
by_namespace [] d = d
by_namespace (item ∷ rest) d =
    by_namespace rest (put d (item.resource_namespace, item.contract_version) item)

unfoldable pub check_resources :
    Dict (String × String) ResourceOwnership → List ResourceOwnership → Result (Unit {0})
check_resources next [] = ok tt
check_resources next (old ∷ rest) = elim (get next (old.resource_namespace, old.contract_version)) [
  | none ↦ err configuration_error
  | some replacement ↦ do
    require (is_subset old.aliases replacement.aliases) configuration_error
    check_resources next rest
]

unfoldable pub validate_manifest_upgrade :
    Packaging → ModuleManifest → ModuleManifest → Result (Unit {0})
validate_manifest_upgrade p current target = do
  validate_contract_upgrade p current.api_contracts target.api_contracts
  validate_contract_upgrade p current.event_contracts target.event_contracts
  validate_contract_upgrade p current.public_contracts target.public_contracts
  require (is_subset current.ui_contributions target.ui_contributions) configuration_error
  require (is_subset current.configuration_scopes target.configuration_scopes) configuration_error
  require (is_subset current.localization_resources target.localization_resources)
      configuration_error
  require (not (is_withdrawn current.tenant_export_supported target.tenant_export_supported))
      configuration_error
  require (not (is_withdrawn current.tenant_delete_supported target.tenant_delete_supported))
      configuration_error
  check_resources (by_namespace target.resource_ownership []) current.resource_ownership

-- The two inner loops over the claims of one manifest; `allocated` maps each claim to its module.
unfoldable pub allocate :
    String
    → Dict (String × String) String
    → List (String × String)
    → Result (Dict (String × String) String)
allocate module_id allocated [] = ok allocated
allocate module_id allocated (key ∷ rest) = elim (get allocated key) [
  | some prior ↦ err conflict_error
  | none ↦ allocate module_id (put allocated key module_id) rest
]

abbrev pub claims_of : List ResourceOwnership → List (String × String)
claims_of [] = []
claims_of (ownership ∷ rest) = claimed ownership ++ claims_of rest

unfoldable pub allocate_all :
    Dict (String × String) String → List ModuleManifest → Result (Dict (String × String) String)
unfolding allocate
allocate_all allocated [] = ok allocated
allocate_all allocated (m ∷ ms) = do
  allocated' ← allocate m.module_id allocated (claims_of m.resource_ownership)
  allocate_all allocated' ms

unfoldable pub validate_resource_claims : List ModuleManifest → Result (Unit {0})
unfolding allocate_all
validate_resource_claims manifests = do _ ← allocate_all [] manifests; ok tt

-- The versions of the running platform.
pub record Runtime : Type 0 where
  pub platform_version : String
  pub sdk_version : String
  pub python_version : String

pub record UpgradePlan : Type 0 where
  pub ordered_module_ids : List String
  pub migration_locations : List (String × String)

unfoldable pub by_module_id :
    List ModuleManifest → Dict String ModuleManifest → Dict String ModuleManifest
by_module_id [] d = d
by_module_id (m ∷ ms) d = by_module_id ms (put d m.module_id m)

abbrev pub or_current : Option ModuleManifest → ModuleManifest → ModuleManifest
or_current none current = current
or_current (some target) current = target

-- `entries()`: the registered manifests by identifier.
unfoldable pub entries_of : Dict String ModuleManifest → List String → Result (List ModuleManifest)
entries_of registered [] = ok []
entries_of registered (id ∷ ids) = elim (get registered id) [
  | none ↦ err key_error
  | some m ↦ do rest ← entries_of registered ids; ok (m ∷ rest)
]

-- The dict of the manifests after the upgrade.
unfoldable pub propose :
    Dict String ModuleManifest → List ModuleManifest → Dict String ModuleManifest
propose targets [] = []
propose targets (current ∷ rest) =
    (current.module_id, or_current (get targets current.module_id) current) ∷ propose targets rest

unfoldable pub check_targets :
    Packaging → Runtime → Dict String ModuleManifest → List ModuleManifest → Result (Unit {0})
check_targets p runtime targets [] = ok tt
check_targets p runtime targets (current ∷ rest) = do
  let target = or_current (get targets current.module_id) current
  require (not (p.lt target.version current.version)) configuration_error
  require (supports p runtime.platform_version runtime.sdk_version runtime.python_version target)
      configuration_error
  validate_manifest_upgrade p current target
  check_targets p runtime targets rest

unfoldable pub migrations_of : Dict String ModuleManifest → List String → List (String × String)
migrations_of proposed [] = []
migrations_of proposed (id ∷ ids) = elim (get proposed id) [
  | none ↦ migrations_of proposed ids
  | some m ↦ map (λ location. (m.module_id, location)) m.migrations ++ migrations_of proposed ids
]

unfoldable pub plan_of :
    Dict String ModuleManifest → Option (Result (List String)) → Option (Result UpgradePlan)
unfolding migrations_of
plan_of proposed none = none
plan_of proposed (some (err e)) = some (err e)
plan_of proposed (some (ok ids)) =
    some
      (ok (record { ordered_module_ids = ids; migration_locations = migrations_of proposed ids }))

-- The part of `plan` before the order is computed: the proposed manifests.
unfoldable pub admit_targets :
    Packaging
    → Runtime
    → Dict String ModuleManifest
    → List ModuleManifest
    → Result (Dict String ModuleManifest)
admit_targets p runtime registered targets = do
  let target_map = by_module_id targets []
  require (length target_map == length targets) conflict_error
  require (is_subset (keys target_map) (keys registered)) configuration_error
  entries ← entries_of registered (sorted str_leb (keys registered))
  check_targets p runtime target_map entries
  validate_resource_claims (values (propose target_map entries))
  ok (propose target_map entries)

-- `none` is a dependency loop that ran out of fuel, which does not happen.
unfoldable pub plan :
    Packaging
    → Runtime
    → Dict String ModuleManifest
    → List ModuleManifest
    → Option (Result UpgradePlan)
unfolding admit_targets plan_of
plan p runtime registered targets = elim (admit_targets p runtime registered targets) [
  | err e ↦ some (err e)
  | ok proposed ↦ plan_of proposed (ordered_manifests p proposed)
]
