-- ===== src/Tests/Organizing.antt =====
-- One company with a division and its department; user 5 delegates the department to user 6.
use businessos.Prelude.{
  ℕ, true, false, none, some, List, [], ◌∷◌, nat_eq, string_eq, pair_eq, contains, ◌≡◌, refl,
}
use businessos.Prelude.Dict.{get, put}
use businessos.Prelude.Sorting.{sorted, insert_sorted, str_leb}
use businessos.Errors.{ok, err, Result}
use businessos.Tenants.Periods.{validate_effective_period, effective_at}
use businessos.Organization.Tables.{
  org_unit, value, Row, Branch, Assignment, DelegatedScope, Tables,
}
use businessos.Organization.Scopes.{
  Scope, require_owned, require_effective_row, canonical_kind, parent_chain, append_parent_chain,
  of_unit, company_lineage, site_lineage, warehouse_lineage, unit_chain, scope_lineage,
  require_effective_scope, require_effective_scope_lineage,
}
use businessos.Organization.Lineage.{scope_lineage-parent}
use businessos.Organization.Delegation.{
  Authorities, Request, DelegationProof, forbidden, period_covers, next_source, discover, root_of,
  is_linked, check_path, lock_rows, is_unchanged, check_unchanged, is_root, root_assignment,
  is_authorized, check_authorized, decide, last_scope, is_deep, check_authority, check_candidates,
  validate_delegation_path,
}
use businessos.Organization.Delegation.Sound.{IsAuthorised, validate_delegation_path-IsAuthorised}
use businessos.Registry.Jobs.{RequestContext}
use businessos.Errors.{◌>>=◌}
use businessos.Organization.Structure.{tenant_of}
use businessos.Organization.Grants.{
  DelegateScope, Selection, selected_scope_covers, request_of, delegate, revoke_delegation,
  revoke_assignment,
}
use businessos.Organization.Grants.Revoked.{here, revoke_delegation-forever}

organization_code : Unit {0}
unfolding tenant_of selected_scope_covers request_of delegate revoke_delegation revoke_assignment
    validate_effective_period effective_at value require_owned require_effective_row canonical_kind
    parent_chain append_parent_chain company_lineage site_lineage warehouse_lineage unit_chain
    scope_lineage require_effective_scope require_effective_scope_lineage period_covers next_source
    discover root_of is_linked check_path lock_rows is_unchanged check_unchanged is_root
    root_assignment is_authorized check_authorized decide last_scope is_deep check_authority
    check_candidates validate_delegation_path get put sorted insert_sorted str_leb
organization_code = tt

abbrev row_of : {A : Type 0} → A → Row A
row_of columns = record {
  tenant_id = 7;
  active = true;
  effective_from = none;
  effective_until = none;
  columns = columns;
}

abbrev division : Row Branch
division = row_of (record { company_id = 3; parent_id = none; unit_type = "division" })

abbrev department : Row Branch
department = row_of (record { company_id = 3; parent_id = some 9; unit_type = "department" })

abbrev assigned_to : ℕ → Assignment
assigned_to unit = record {
  tenant_id = 7;
  principal = ("user", 5);
  scope = ("org_unit", unit);
  valid_from = none;
  valid_until = some 100;
}

abbrev grant : DelegatedScope
grant = record {
  tenant_id = 7;
  grantor = ("user", 5);
  recipient = ("user", 6);
  scope = ("org_unit", 10);
  allowed_actions = "post" ∷ "read" ∷ [];
  valid_from = some 10;
  valid_until = some 90;
  authority_source_kind = some "direct";
  parent_delegation_id = none;
  revoked_at = none;
}

abbrev tables : ℕ → DelegatedScope → Tables
tables unit delegated = record {
  enterprise_groups = (1, row_of tt) ∷ [];
  legal_entities = (2, row_of (record { enterprise_group_id = 1 })) ∷ [];
  companies = (3, row_of (record { legal_entity_id = 2 })) ∷ [];
  org_units = (9, division) ∷ (10, department) ∷ [];
  regions = [];
  site_types = [];
  operating_sites = [];
  financial_dimensions = [];
  warehouses = [];
  assignments = (40, assigned_to unit) ∷ [];
  delegated_scopes = (50, delegated) ∷ [];
}

abbrev authorities : Authorities
authorities = record {
  acquire = ok tt;
  require_active = ok tt;
  lock_many = λ principals. ok tt;
  evaluate = λ root action. record { allowed = true; policy_reference = some "policy-1" };
}

abbrev request : Request
request = record {
  tenant_id = 7;
  consumer = ("user", 6);
  source_id = some 50;
  target_type = org_unit;
  target_id = 10;
  actions = "post" ∷ [];
  start = 20;
  end = 80;
  now = 30;
  today = 3;
  new_recipient = none;
}

abbrev proof : DelegationProof
proof = record {
  root = ("user", 5);
  assignment_id = 40;
  path = 50 ∷ [];
  selected_scope = some ("org_unit", 10);
  policy_references = "policy-1" ∷ [];
}

validates :
    validate_delegation_path authorities request (tables 10 grant) (tables 10 grant) ≡ ok proof
unfolding organization_code
validates = refl

-- The grant is revoked between the discovery and the locks.
revoked_meanwhile :
    validate_delegation_path authorities request
      (tables 10 grant)
      (tables 10 (record grant { revoked_at = some 29 }))
    ≡ err forbidden
unfolding organization_code
revoked_meanwhile = refl

-- The assignment of the root is on the division above the department.
division_refused :
    validate_delegation_path authorities request (tables 9 grant) (tables 9 grant) ≡ err forbidden
unfolding organization_code
division_refused = refl

validate_delegation_path-IsAuthorised_example :
    IsAuthorised authorities request (tables 10 grant) proof
validate_delegation_path-IsAuthorised_example =
    validate_delegation_path-IsAuthorised authorities request (tables 10 grant) (tables 10 grant)
      proof validates

abbrev above : List Scope
above = ("company", 3) ∷ ("legal_entity", 2) ∷ ("enterprise_group", 1) ∷ []

abbrev own : List Scope
own =
    ("org_unit", 10)
    ∷ ("company", 3)
    ∷ ("legal_entity", 2)
    ∷ ("enterprise_group", 1)
    ∷ ("org_unit", 10)
    ∷ ("org_unit", 9)
    ∷ []

own_lineage : scope_lineage (tables 10 grant) 7 3 (of_unit "department" 10 department) ≡ ok own
unfolding organization_code
own_lineage = refl

lineage_by_value :
    scope_lineage (tables 10 grant) 7 3 (of_unit "org_unit" 10 department)
    ≡ ok (("org_unit", 10) ∷ above)
unfolding organization_code
lineage_by_value = refl

scope_lineage-parent_example :
    (contains own ("org_unit", 9) ≡ true)
    × (contains (("org_unit", 10) ∷ above) ("org_unit", 9) ≡ false)
scope_lineage-parent_example =
    scope_lineage-parent (tables 10 grant) 7 3 10 9 department "department" own
      (("org_unit", 10) ∷ above) refl refl refl own_lineage lineage_by_value

-- Two grants from user 5 to user 6, of which the first is revoked.
abbrev two_grants : Tables
two_grants = record (tables 10 grant) { delegated_scopes = (50, grant) ∷ (51, grant) ∷ [] }

abbrev admin : RequestContext
admin = record { tenant = some (record { tenant_id = 7; principal_id = 5 }) }

abbrev revoked_grants : Tables
revoked_grants = record (tables 10 grant) {
  delegated_scopes = (50, record grant { revoked_at = some 25 }) ∷ (51, grant) ∷ [];
}

revokes_first :
    revoke_delegation admin (ok ("user", 5)) authorities 7 50 25 two_grants ≡ ok revoked_grants
unfolding organization_code
revokes_first = refl

abbrev proof_51 : DelegationProof
proof_51 = record proof { path = 51 ∷ [] }

validates_second :
    validate_delegation_path authorities
      (record request { source_id = some 51 })
      two_grants
      revoked_grants
    ≡ ok proof_51
unfolding organization_code
validates_second = refl

first_refused :
    validate_delegation_path authorities request two_grants revoked_grants ≡ err forbidden
unfolding organization_code
first_refused = refl

revoke_delegation-forever_example : contains proof_51.path 50 ≡ false
revoke_delegation-forever_example =
    revoke_delegation-forever admin (ok ("user", 5)) authorities 7 50 25 two_grants revoked_grants
      authorities (record request { source_id = some 51 }) two_grants proof_51 revokes_first here
      validates_second

-- User 6 delegates the department to user 8, under its own grant.
abbrev command : DelegateScope
command = record {
  id = 52;
  tenant_id = 7;
  grantor_principal_type = "user";
  recipient = ("user", 8);
  scope_type = org_unit;
  scope_id = 10;
  allowed_actions = "post" ∷ [];
  valid_from = 20;
  valid_until = 80;
}

abbrev selection : Selection
selection = record { scopes = ("company", some 3) ∷ ("region", none) ∷ []; delegation_id = some 50 }

abbrev granted_twice : Result Tables
granted_twice =
    delegate (record { tenant = some (record { tenant_id = 7; principal_id = 6 }) })
      (ok ("user", 6)) authorities selection command 30 3 (tables 10 grant) (tables 10 grant)

abbrev second_proof : Result DelegationProof
second_proof = granted_twice >>= λ t.
    validate_delegation_path authorities
      (record request { consumer = ("user", 8); source_id = some 52 }) t t

delegates_on : second_proof ≡ ok (record proof { path = 50 ∷ 52 ∷ [] })
unfolding organization_code
delegates_on = refl
