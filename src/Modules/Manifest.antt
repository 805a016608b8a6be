-- ===== src/Modules/Manifest.antt =====
-- platform/src/businessos/modules/manifest.py: the manifest and its validation.
use businessos.Prelude.{
  ℕ, String, Bool, true, false, not, ◌&&◌, ◌||◌, Option, none, some, List, [], ◌∷◌, ◌++◌, ◌==◌, Eq,
  nat_eq, string_eq, pair_eq, if◌then◌else◌, contains, all, map, is_none, is_some,
}
use businessos.Prelude.Text.{codes, is_lower, is_digit, starts_with, has_ink}
use businessos.Errors.{Result, ok, err, value_error, ◌>>=◌, ◌>>◌, require}
use businessos.Modules.Packaging.{Packaging}

pub data ModuleExecutionType : Type 0 where
  in_process declarative isolated_service : ModuleExecutionType

abbrev pub is_in_process : ModuleExecutionType → Bool
is_in_process in_process = true
is_in_process _ = false

pub record ModuleDependency : Type 0 where
  pub module_id : String
  pub version : String

pub record ModuleContractDeclaration : Type 0 where
  pub contract_id : String
  pub version : String

pub record ResourceOwnership : Type 0 where
  pub resource_namespace : String
  pub owner_module_id : String
  pub contract_version : String
  pub aliases : List String

pub record ModuleManifest : Type 0 where
  pub module_id : String
  pub name : String
  pub publisher : String
  pub version : String
  pub platform : String
  pub sdk : String
  pub python : String
  pub execution_type : ModuleExecutionType
  pub entry_point : Option String
  pub dependencies : List ModuleDependency
  pub capabilities : List String
  pub permissions : List String
  pub api_contracts : List ModuleContractDeclaration
  pub event_contracts : List ModuleContractDeclaration
  pub public_contracts : List ModuleContractDeclaration
  pub resource_ownership : List ResourceOwnership
  pub ui_contributions : List String
  pub configuration_scopes : List String
  pub localization_resources : List String
  pub tenant_export_supported : Option Bool
  pub tenant_delete_supported : Option Bool
  pub migrations : List String
  pub migration_namespace : Option String

-- `[a-z0-9_.-]`
abbrev is_id_char : ℕ → Bool
is_id_char c = is_lower c || is_digit c || (c == b'_') || (c == b'.') || (c == b'-')

-- `^[a-z][a-z0-9_.-]+$`
unfoldable pub is_id : List ℕ → Bool
is_id [] = false
is_id (c ∷ []) = false
is_id (c ∷ d ∷ s) = is_lower c && all is_id_char (d ∷ s)

-- `_RESOURCE_NAMESPACE`: after a segment has begun, with or without a dot seen before it.
segment : Bool → List ℕ → Bool
segment dotted [] = dotted
segment dotted (c ∷ []) = dotted && (is_lower c || is_digit c || (c == b'_') || (c == b'-'))
segment dotted (c ∷ d ∷ s) = elim (c == b'.') [
  | true ↦ is_lower d && segment true s
  | false ↦ (is_lower c || is_digit c || (c == b'_') || (c == b'-')) && segment dotted (d ∷ s)
]

unfoldable pub is_resource_namespace : List ℕ → Bool
unfolding segment
is_resource_namespace [] = false
is_resource_namespace (c ∷ s) = is_lower c && segment false s

-- len(values) == len(set(values))
unfoldable pub is_unique {ℓ} : {A : Type ℓ} ⦃e : Eq A⦄ → List A → Bool
is_unique [] = true
is_unique (x ∷ xs) = not (contains xs x) && is_unique xs

-- `ResourceOwnership.validate_canonical_identity`
unfoldable pub validate_canonical_identity : Packaging → ResourceOwnership → Result (Unit {0})
validate_canonical_identity p r = do
  require (is_resource_namespace (codes r.resource_namespace)) value_error
  require (starts_with (codes r.resource_namespace) (codes r.owner_module_id ++ b'.' ∷ []))
      value_error
  require (p.is_version r.contract_version) value_error
  require (is_unique r.aliases) value_error
  require
      (all (λ alias. is_resource_namespace (codes alias) && not (alias == r.resource_namespace))
        r.aliases)
      value_error

-- The keys that one ownership claims.
abbrev pub claimed : ResourceOwnership → List (String × String)
claimed r = map (λ namespace. (namespace, r.contract_version)) (r.resource_namespace ∷ r.aliases)

-- The inner loop over the namespaces of one ownership.
unfoldable pub add_claims :
    List (String × String) → List (String × String) → Result (List (String × String))
add_claims claims [] = ok claims
add_claims claims (key ∷ keys) =
    let rest = add_claims (key ∷ claims) keys in
    if contains claims key then err value_error else rest

unfoldable pub check_claims :
    String → List (String × String) → List ResourceOwnership → Result (Unit {0})
unfolding add_claims
check_claims module_id claims [] = ok tt
check_claims module_id claims (declaration ∷ rest) = do
  require (declaration.owner_module_id == module_id) value_error
  claims' ← add_claims claims (claimed declaration)
  check_claims module_id claims' rest

abbrev truthy : Option String → Bool
truthy none = false
truthy (some s) = not (s == "")

abbrev nonempty : List String → Bool
nonempty [] = false
nonempty (x ∷ xs) = true

abbrev contract_ids : List ModuleContractDeclaration → List String
contract_ids = map (λ d. d.contract_id)

abbrev are_labels : List String → Bool
are_labels values = is_unique values && all (λ v. has_ink (codes v)) values

-- `ModuleManifest.validate_versions_and_entry_point`
unfoldable pub validate : Packaging → ModuleManifest → Result (Unit {0})
unfolding check_claims
validate p m = do
  require
      (p.is_version m.version
        && p.is_specifier m.platform
        && p.is_specifier m.sdk
        && p.is_specifier m.python)
      value_error
  require (not (is_in_process m.execution_type && not (truthy m.entry_point))) value_error
  require (not (nonempty m.migrations && is_none m.migration_namespace)) value_error
  require (not (not (nonempty m.migrations) && is_some m.migration_namespace)) value_error
  require (is_unique (map (λ d. d.module_id) m.dependencies)) value_error
  require (is_unique (contract_ids m.api_contracts)) value_error
  require (is_unique (contract_ids m.event_contracts)) value_error
  require (is_unique (contract_ids m.public_contracts)) value_error
  require (are_labels m.ui_contributions) value_error
  require (are_labels m.configuration_scopes) value_error
  require (are_labels m.localization_resources) value_error
  check_claims m.module_id [] m.resource_ownership

unfoldable pub supports : Packaging → String → String → String → ModuleManifest → Bool
supports p platform sdk python m =
    p.satisfies platform m.platform && p.satisfies sdk m.sdk && p.satisfies python m.python
