-- ===== src/Policy/Roles.antt =====
-- `PolicyEvaluationService.authorize` of foundations/policy/src/businessos_policy/contracts.py: the
-- active roles and their inheritance.
pub mod Inheritance
pub mod Expansion
use businessos.Prelude.{
  ℕ, zero, suc, String, Bool, true, false, not, ◌&&◌, ◌||◌, Option, none, some, List, [], ◌∷◌, ◌++◌,
  ◌==◌, Eq, nat_eq, option_eq, if◌then◌else◌, contains, length, ltb, leb,
}
use businessos.Prelude.Dict.{Dict, get, put}
use businessos.Policy.Models.{
  ScopeType, tenant, company, legal_entity, operating_site, business_unit,
  SubjectRoleAssignmentRecord, DelegationGrantRecord, RoleRecord, PolicyContext,
}

-- The branches on `scope_type`.
unfoldable pub is_in_scope : PolicyContext → ScopeType → Option ℕ → Bool
is_in_scope context tenant scope_id = true
is_in_scope context company scope_id = scope_id == context.company_id
is_in_scope context legal_entity scope_id = scope_id == context.legal_entity_id
is_in_scope context operating_site scope_id = scope_id == context.operating_site_id
is_in_scope context business_unit scope_id = scope_id == context.business_unit_id

abbrev starts_after : Option ℕ → ℕ → Bool
starts_after none now = false
starts_after (some s) now = ltb now s

abbrev ends_before : Option ℕ → ℕ → Bool
ends_before none now = false
ends_before (some e) now = ltb e now

unfoldable pub is_active_assignment : PolicyContext → SubjectRoleAssignmentRecord → Bool
unfolding is_in_scope
is_active_assignment context assignment =
    not (
      not (assignment.tenant_id == context.tenant_id)
      || not (assignment.subject_id == context.subject_id))
    && not (starts_after assignment.valid_from context.timestamp)
    && not (ends_before assignment.valid_to context.timestamp)
    && is_in_scope context assignment.scope_type assignment.scope_id

unfoldable pub is_active_delegation : PolicyContext → DelegationGrantRecord → Bool
unfolding is_in_scope
is_active_delegation context delegation =
    not (
      not (delegation.tenant_id == context.tenant_id)
      || not (delegation.delegatee_id == context.subject_id))
    && not delegation.is_revoked
    && (leb delegation.valid_from context.timestamp && leb context.timestamp delegation.valid_to)
    && is_in_scope context delegation.scope_type delegation.scope_id

-- The loops over the assignments and over the delegations.
unfoldable pub assigned_roles : PolicyContext → List SubjectRoleAssignmentRecord → List ℕ
assigned_roles context [] = []
assigned_roles context (assignment ∷ rest) =
    let roles = assigned_roles context rest in
    if is_active_assignment context assignment then assignment.role_id ∷ roles else roles

unfoldable pub delegated_roles : PolicyContext → List DelegationGrantRecord → List ℕ
delegated_roles context [] = []
delegated_roles context (delegation ∷ rest) =
    let roles = delegated_roles context rest in
    if is_active_delegation context delegation then delegation.role_id ∷ roles else roles

unfoldable pub active_role_ids :
    PolicyContext → List SubjectRoleAssignmentRecord → List DelegationGrantRecord → List ℕ
unfolding assigned_roles delegated_roles
active_role_ids context assignments delegations =
    assigned_roles context assignments ++ delegated_roles context delegations

-- {r.id: r for r in roles if r.tenant_id == context.tenant_id}
unfoldable pub role_map : ℕ → List RoleRecord → Dict ℕ RoleRecord → Dict ℕ RoleRecord
role_map tenant_id [] d = d
role_map tenant_id (r ∷ rs) d =
    role_map tenant_id rs (if r.tenant_id == tenant_id then put d r.id r else d)

unfoldable pub parent_of : Dict ℕ RoleRecord → ℕ → Option ℕ
parent_of roles id = elim (get roles id) [ none ↦ none | some r ↦ r.parent_role_id ]

abbrev pub after : ℕ → Option (List ℕ) → Option (List ℕ)
after p none = none
after p (some added) = some (p ∷ added)

-- The `while` loop: the parents that it adds, above the role `id`. `none` means that the fuel ran out.
unfoldable pub climb : ℕ → Dict ℕ RoleRecord → ℕ → List ℕ → Option (List ℕ)
unfolding parent_of
climb zero roles id visited = none
climb (suc fuel) roles id visited = elim (parent_of roles id) [
  | none ↦ some []
  | some p ↦ elim (contains visited p) [
    | true ↦ some []
    | false ↦ after p (climb fuel roles p (p ∷ visited))
  ]
]

abbrev pub join : Option (List ℕ) → Option (List ℕ) → Option (List ℕ)
join none _ = none
join (some xs) none = none
join (some xs) (some ys) = some (xs ++ ys)

-- The loop over `list(active_role_ids)`, with the roles that it adds.
unfoldable pub inherited : Dict ℕ RoleRecord → List ℕ → Option (List ℕ)
unfolding climb
inherited roles [] = some []
inherited roles (id ∷ ids) =
    join (climb (suc (suc (length roles))) roles id (id ∷ [])) (inherited roles ids)

-- `expanded_role_ids`
unfoldable pub expanded_role_ids : Dict ℕ RoleRecord → List ℕ → Option (List ℕ)
unfolding inherited
expanded_role_ids roles active = join (some active) (inherited roles active)
