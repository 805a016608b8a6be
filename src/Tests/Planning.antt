-- ===== src/Tests/Planning.antt =====
-- A base module and an application that depends on it.
use businessos.Prelude.{
  ℕ, String, true, none, some, List, [], ◌∷◌, ◌≡◌, refl, arith, length, ltb, count, nat_eq,
  string_eq, pair_eq, ◌==◌, if◌then◌else◌,
}
use businessos.Prelude.Dict.{Dict, get, put, keys}
use businessos.Prelude.Text.{codes, starts_with, has_ink}
use businessos.Prelude.Sorting.{sorted, insert_sorted, str_leb}
use businessos.Errors.{Result, ok, err, value_error, conflict_error, configuration_error}
use businessos.Modules.Packaging.{Packaging}
use businessos.Modules.Manifest.{
  ModuleManifest, ModuleContractDeclaration, ResourceOwnership, in_process, validate, is_id,
  is_resource_namespace, add_claims, check_claims, is_unique, supports, validate_canonical_identity,
}
use businessos.Modules.Ordering.{
  validate_dependency, validate_dependencies, ready_of, rounds, ordered_manifests,
}
use businessos.Modules.Ordering.Total.{ordered_manifests_total}
use businessos.Modules.Ordering.Order.{IsOrdered, ordered_manifests_order}
use businessos.Modules.Ordering.Complete.{IsAcyclic, ordered_manifests_complete}
use businessos.Modules.Upgrade.{
  by_contract_id, check_contracts, validate_contract_upgrade, by_namespace, check_resources,
  validate_manifest_upgrade, allocate, allocate_all, validate_resource_claims, Runtime, UpgradePlan,
  by_module_id, entries_of, propose, check_targets, migrations_of, plan_of, admit_targets, plan,
}
use businessos.Modules.Upgrade.Claims.{all_claims, outcome, resource_claims_unique}
use businessos.Modules.Upgrade.Planning.{IsPlanned, plan_sound}

-- Versions in unary.
abbrev pub unary : Packaging
unary = record {
  is_version = λ v. true;
  is_specifier = λ s. true;
  lt = λ a b. ltb (length (codes a)) (length (codes b));
  satisfies = λ v s. starts_with (codes v) (codes s);
}

abbrev ledger : ResourceOwnership
ledger = record {
  resource_namespace = "base.ledger";
  owner_module_id = "base";
  contract_version = "1";
  aliases = "base.book" ∷ [];
}

abbrev api : String → List ModuleContractDeclaration
api version = record { contract_id = "base.api"; version = version } ∷ []

abbrev pub base_version : String → ModuleManifest
base_version version = record {
  module_id = "base";
  name = "Base";
  publisher = "acme";
  version = version;
  platform = "1";
  sdk = "1";
  python = "1";
  execution_type = in_process;
  entry_point = some "base:module";
  dependencies = [];
  capabilities = [];
  permissions = [];
  api_contracts = api version;
  event_contracts = [];
  public_contracts = [];
  resource_ownership = ledger ∷ [];
  ui_contributions = [];
  configuration_scopes = [];
  localization_resources = [];
  tenant_export_supported = some true;
  tenant_delete_supported = none;
  migrations = "base/migrations" ∷ [];
  migration_namespace = some "base";
}

abbrev pub base : ModuleManifest
base = base_version "1"

abbrev pub app : ModuleManifest
app = record base {
  module_id = "app";
  dependencies = record { module_id = "base"; version = "1" } ∷ [];
  api_contracts = [];
  resource_ownership = [];
  migrations = [];
  migration_namespace = none;
}

abbrev registered : Dict String ModuleManifest
registered = ("app", app) ∷ ("base", base) ∷ []

module_code : Unit {0}
unfolding validate is_id is_resource_namespace validate_canonical_identity add_claims check_claims
    is_unique starts_with has_ink validate_dependency validate_dependencies ready_of rounds
    ordered_manifests str_leb get put sorted insert_sorted by_contract_id check_contracts
    validate_contract_upgrade by_namespace check_resources validate_manifest_upgrade allocate
    allocate_all validate_resource_claims by_module_id entries_of propose check_targets
    migrations_of plan_of admit_targets plan supports
module_code = tt

valid_base : validate unary base ≡ ok tt
unfolding module_code
valid_base = refl

valid_ledger : validate_canonical_identity unary ledger ≡ ok tt
unfolding module_code
valid_ledger = refl

foreign_claim : validate unary (record base { module_id = "stock" }) ≡ err value_error
unfolding module_code
foreign_claim = refl

double_claim : validate_resource_claims (base ∷ base ∷ []) ≡ err conflict_error
unfolding module_code
double_claim = refl

in_order : ordered_manifests unary registered ≡ some (ok ("base" ∷ "app" ∷ []))
unfolding module_code
in_order = refl

missing_dependency : ordered_manifests unary (("app", app) ∷ []) ≡ some (err configuration_error)
unfolding module_code
missing_dependency = refl

abbrev targets : List ModuleManifest
targets = base_version "11" ∷ []

abbrev runtime : Runtime
runtime = record { platform_version = "1"; sdk_version = "1"; python_version = "1" }

abbrev planned : UpgradePlan
planned = record {
  ordered_module_ids = "base" ∷ "app" ∷ [];
  migration_locations = ("base", "base/migrations") ∷ [];
}

plans : plan unary runtime registered targets ≡ some (ok planned)
unfolding module_code
plans = refl

downgrade_refused :
    plan unary runtime (("base", base_version "11") ∷ []) (base ∷ [])
    ≡ some (err configuration_error)
unfolding module_code
downgrade_refused = refl

ordered_manifests_total_example :
    (r : Result (List String)) × (ordered_manifests unary registered ≡ some r)
ordered_manifests_total_example = ordered_manifests_total unary registered

ordered_manifests_order_example :
    IsOrdered registered [] ("base" ∷ "app" ∷ [])
    × ((id : String) → count id ("base" ∷ "app" ∷ []) ≡ count id (keys registered))
ordered_manifests_order_example =
    ordered_manifests_order unary registered ("base" ∷ "app" ∷ []) in_order

abbrev rank : String → ℕ
rank id = if id == "app" then 1 else 0

registered-IsAcyclic : IsAcyclic unary registered rank
unfolding module_code
registered-IsAcyclic = record {
  valid = λ id m is. ground (arith, is);
  ranked = λ id m is. ground (arith, is, string_eq.eqb_iff "app" id, string_eq.eqb_iff "base" id);
}

ordered_manifests_complete_example :
    (out : List String) × (ordered_manifests unary registered ≡ some (ok out))
ordered_manifests_complete_example =
    ordered_manifests_complete unary registered rank registered-IsAcyclic

resource_claims_unique_example :
    validate_resource_claims (base ∷ app ∷ []) ≡ outcome (is_unique (all_claims (base ∷ app ∷ [])))
resource_claims_unique_example = resource_claims_unique (base ∷ app ∷ [])

plan_sound_example : IsPlanned unary runtime registered targets planned
plan_sound_example = plan_sound unary runtime registered targets planned plans
