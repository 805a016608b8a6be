-- ===== src/Policy/Evaluation.antt =====
-- `PolicyEvaluationService` of foundations/policy/src/businessos_policy/contracts.py: the decision of
-- `authorize`. `matches` is `_condition_matches` at the attributes of the context.
pub mod Authorization
use businessos.Prelude.{
  ℕ, String, Bool, true, false, not, ◌&&◌, ◌||◌, Option, none, some, List, [], ◌∷◌, ◌==◌, Eq,
  nat_eq, string_eq, option_eq, if◌then◌else◌, contains, is_none,
}
use Prim.Native.String as Str
use businessos.Policy.Models.{
  ScopeType, tenant, company, legal_entity, operating_site, business_unit, all_records, owned,
  organization, denied, RecordPolicyRecord, RolePermissionRecord, RoleRecord, PolicyContext,
  SubjectRoleAssignmentRecord, DelegationGrantRecord,
}
use businessos.Policy.Roles.{active_role_ids, role_map, expanded_role_ids}

-- next((item for item in policies if p(item)), None)
abbrev pub next_policy :
    (RecordPolicyRecord → Bool) → List RecordPolicyRecord → Option RecordPolicyRecord
next_policy p [] = none
next_policy p (policy ∷ rest) =
    let found = next_policy p rest in if p policy then some policy else found

abbrev pub has_role : List ℕ → RecordPolicyRecord → Bool
has_role ids policy = elim policy.role_id [ none ↦ false | some id ↦ contains ids id ]

abbrev pub matching : String → PolicyContext → List RecordPolicyRecord → List RecordPolicyRecord
matching resource context [] = []
matching resource context (policy ∷ rest) =
    let found = matching resource context rest in
    if (policy.tenant_id == context.tenant_id) && (policy.resource_type == resource)
    then policy ∷ found
    else found

abbrev pub or_else :
    Option RecordPolicyRecord → Option RecordPolicyRecord → Option RecordPolicyRecord
or_else none other = other
or_else (some policy) other = some policy

-- The dict of the scopes of the context, at a scope type.
abbrev pub active_scope : PolicyContext → ScopeType → Option ℕ
active_scope context tenant = none
active_scope context company = context.company_id
active_scope context legal_entity = context.legal_entity_id
active_scope context operating_site = context.operating_site_id
active_scope context business_unit = context.business_unit_id

abbrev pub is_same_scope : PolicyContext → Option ScopeType → Option ℕ → Bool
is_same_scope context none id = false
is_same_scope context (some scope) none = false
is_same_scope context (some scope) (some id) = active_scope context scope == some id

-- f"{resource}.*"
abbrev pub all_actions : String → String
all_actions resource = Str.◌++◌ resource ".*"

-- The tests of one permission of a role.
unfoldable pub is_granted : String → String → PolicyContext → List ℕ → RolePermissionRecord → Bool
is_granted action resource context ids rp =
    not (not (rp.tenant_id == context.tenant_id) || not (contains ids rp.role_id))
    && ((rp.permission_code == action) || (rp.permission_code == all_actions resource))

module _ (matches : Option String → Bool) where
  -- `_record_access_allowed` from the choice of the policy on.
  unfoldable pub policy_allows : PolicyContext → Option RecordPolicyRecord → Bool
  policy_allows context none = false
  policy_allows context (some policy) = elim (matches policy.condition_expression) [
    | false ↦ false
    | true ↦ elim policy.access_scope [
      | denied ↦ false
      | all_records ↦ true
      | owned ↦ context.record_owner_id == some context.subject_id
      | organization ↦ is_same_scope context context.record_scope_type context.record_scope_id
    ]
  ]

  unfoldable pub record_access_allowed :
      String → PolicyContext → List RecordPolicyRecord → List ℕ → Bool
  unfolding policy_allows
  record_access_allowed resource context policies ids = elim (matching resource context policies) [
    | [] ↦ true
    | first ∷ more ↦ policy_allows context (
        or_else (next_policy (has_role ids) (first ∷ more))
          (next_policy (λ p. is_none p.role_id) (first ∷ more)))
  ]

  -- The loop over the permissions: `matched_policy`, or none where the decision is to deny.
  unfoldable pub match_permissions :
      String
      → String
      → PolicyContext
      → List RecordPolicyRecord
      → List ℕ
      → List RolePermissionRecord
      → Option String
  unfolding is_granted record_access_allowed
  match_permissions action resource context policies ids [] = none
  match_permissions action resource context policies ids (rp ∷ rest) =
      let later = match_permissions action resource context policies ids rest in
      if is_granted action resource context ids rp
      then if not (record_access_allowed resource context policies ids)
        then later
        else some rp.permission_code
      else later

  -- The decision; the outer option is the fuel of the role inheritance.
  unfoldable pub authorize :
      String
      → String
      → PolicyContext
      → List RoleRecord
      → List RolePermissionRecord
      → List SubjectRoleAssignmentRecord
      → List DelegationGrantRecord
      → List RecordPolicyRecord
      → Option (Option String)
  unfolding match_permissions
  authorize action resource context roles role_permissions assignments delegations record_policies =
      elim (expanded_role_ids (role_map context.tenant_id roles [])
        (active_role_ids context assignments delegations)) [
          | none ↦ none
          | some ids ↦
              some (match_permissions action resource context record_policies ids role_permissions)
        ]
