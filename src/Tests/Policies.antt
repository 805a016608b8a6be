-- ===== src/Tests/Policies.antt =====
-- User 2 holds role 5 by a grant of user 1, to whom it is assigned.
use businessos.Prelude.{
  ℕ, Bool, nat_eq, ◌&&◌, true, false, none, some, [], ◌∷◌, ◌≡◌, ◌≤◌, ◌↔◌, refl,
}
use businessos.Policy.Models.{company, tenant, SubjectRoleAssignmentRecord, DelegationGrantRecord}
use businessos.Policy.Delegation.{
  Authority, Source, scope_covers, covers, active_at, is_assigned, is_usable, answer, unbounded,
  try_grants, search_source, has_effective_role_source,
}
use businessos.Policy.Delegation.Paths.{Held, has_effective_role_source_paths}
use businessos.Prelude.{String, Option, List, is_some, contains, string_eq}
use businessos.Prelude.Dict.{Dict, get, put}
use businessos.Policy.Models.{
  RoleRecord, RolePermissionRecord, RecordPolicyRecord, PolicyContext, organization,
}
use businessos.Policy.Conditions.{
  Json, equals, holds, lenient_conditions, lenient_condition_matches, strict_conditions,
  condition_matches, conditions_of, are_present, condition_matches_lem,
}
use businessos.Policy.Roles.{
  is_in_scope, is_active_assignment, is_active_delegation, assigned_roles, delegated_roles,
  active_role_ids, role_map, parent_of, climb, inherited, expanded_role_ids,
}
use businessos.Policy.Roles.Inheritance.{Inherits}
use businessos.Policy.Roles.Expansion.{expanded_role_ids_lem}
use businessos.Policy.Evaluation.{
  policy_allows, record_access_allowed, is_granted, match_permissions, authorize,
}
use businessos.Policy.Evaluation.Authorization.{Listed, IsGrant, authorize_lem}
use businessos.Prelude.{any, ◌||◌, map, ◌-◌, if◌then◌else◌}
use businessos.Prelude.Text.{codes, is_lower}
use businessos.Policy.Decisions.FieldAccess.{IsDecided, evaluate_field_access-IsDecided}
use businessos.Policy.Models.{FieldPolicyRecord, read, write, ApprovalLimitRecord, pos}
use businessos.Policy.Decisions.{
  matching_fields, first_for_role, first_for_all, role_policy, decide_field, evaluate_field_access,
  applies, max_limit, ℤ_leb, evaluate_approval_authority, evaluate_approval_authority_lem,
  check_sod_conflict, authorize_support_access,
}

abbrev assignment : SubjectRoleAssignmentRecord
assignment = record {
  tenant_id = 7;
  subject_id = 1;
  subject_type = some "user";
  role_id = 5;
  scope_type = tenant;
  scope_id = none;
  valid_from = none;
  valid_to = some 100;
}

abbrev grant : DelegationGrantRecord
grant = record {
  tenant_id = 7;
  delegator_id = 1;
  delegator_type = some "user";
  delegatee_id = 2;
  delegatee_type = some "user";
  role_id = 5;
  scope_type = company;
  scope_id = some 9;
  valid_from = 10;
  valid_to = 50;
  is_revoked = false;
}

abbrev authority : Authority
authority = record {
  tenant_id = 7;
  role_id = 5;
  evaluated_at = 20;
  assignments = assignment ∷ [];
  delegations = grant ∷ [];
}

abbrev request : Source
request = record {
  subject_id = 2;
  subject_type = some "user";
  scope_type = company;
  scope_id = some 9;
  valid_from = 20;
  valid_until = 50;
}

delegation_code : Unit {0}
unfolding scope_covers covers active_at is_assigned is_usable try_grants search_source
    has_effective_role_source
delegation_code = tt

delegated_role : has_effective_role_source 18 authority [] request none ≡ answer true none
unfolding delegation_code
delegated_role = refl

-- Two calls are made, and a budget of one call is too small.
budget_spent : has_effective_role_source 18 authority [] request (some 2) ≡ answer true (some 0)
unfolding delegation_code
budget_spent = refl

budget_small : has_effective_role_source 18 authority [] request (some 1) ≡ unbounded
unfolding delegation_code
budget_small = refl

longer_request :
    has_effective_role_source 18 authority [] (record request { valid_until = 51 }) none
    ≡ answer false none
unfolding delegation_code
longer_request = refl

has_effective_role_source_paths_example :
    (b : Bool) × (has_effective_role_source 18 authority [] request none ≡ answer b none)
    × ((b ≡ true) ↔ ((n : ℕ) × (n ≤ 16) × Held authority [] n request))
has_effective_role_source_paths_example = has_effective_role_source_paths authority request

-- Role 5 inherits role 6, and role 6 inherits role 5; role 6 may read orders of its organization.
abbrev roles : List RoleRecord
roles =
    record { id = 5; tenant_id = 7; parent_role_id = some 6 }
    ∷ record { id = 6; tenant_id = 7; parent_role_id = some 5 }
    ∷ []

abbrev by_id : Dict ℕ RoleRecord
by_id =
    (5, record { id = 5; tenant_id = 7; parent_role_id = some 6 })
    ∷ (6, record { id = 6; tenant_id = 7; parent_role_id = some 5 })
    ∷ []

abbrev read_orders : List RolePermissionRecord
read_orders = record { tenant_id = 7; role_id = 6; permission_code = "order.*" } ∷ []

abbrev order_policy : List RecordPolicyRecord
order_policy =
    record {
      tenant_id = 7;
      resource_type = "order";
      role_id = none;
      access_scope = organization;
      condition_expression = some "eu";
    }
    ∷ []

abbrev context : PolicyContext
context = record {
  tenant_id = 7;
  subject_id = 2;
  company_id = some 9;
  legal_entity_id = none;
  operating_site_id = none;
  business_unit_id = none;
  record_owner_id = none;
  record_scope_type = some company;
  record_scope_id = some 9;
  timestamp = 20;
}

-- Conditions on texts, where an expression names the region that it wants.
abbrev regions : Json String
regions = record {
  same = λ a b. string_eq.eqb a b;
  null = "";
  items = λ v. none;
  parse = λ e. some (record { attribute = "region"; operator = equals; value = e } ∷ []);
}

abbrev attributes : Dict String String
attributes = ("region", "eu") ∷ []

evaluation_code : Unit {0}
unfolding holds lenient_conditions lenient_condition_matches strict_conditions condition_matches
    is_in_scope is_active_assignment is_active_delegation assigned_roles delegated_roles
    active_role_ids role_map parent_of climb inherited expanded_role_ids policy_allows
    record_access_allowed is_granted match_permissions authorize get put
evaluation_code = tt

collected_roles : expanded_role_ids by_id (5 ∷ []) ≡ some (5 ∷ 6 ∷ [])
unfolding evaluation_code
collected_roles = refl

allowed_order :
    authorize
      (lenient_condition_matches regions attributes)
      "order.read"
      "order"
      context
      roles
      read_orders
      []
      (grant ∷ [])
      order_policy
    ≡ some (some "order.*")
unfolding evaluation_code
allowed_order = refl

denied_order :
    authorize
      (lenient_condition_matches regions [])
      "order.read"
      "order"
      context
      roles
      read_orders
      []
      (grant ∷ [])
      order_policy
    ≡ some none
unfolding evaluation_code
denied_order = refl

expanded_role_ids_lem_example :
    (out : List ℕ) × (expanded_role_ids by_id (5 ∷ []) ≡ some out)
    × ((x : ℕ)
        → (contains out x ≡ true) ↔ ((a : ℕ) × (contains (5 ∷ []) a ≡ true) × Inherits by_id a x))
expanded_role_ids_lem_example = expanded_role_ids_lem by_id (5 ∷ [])

condition_matches_lem_example :
    condition_matches regions attributes (some "eu")
    ≡ are_present regions attributes (conditions_of regions attributes (some "eu"))
      && lenient_condition_matches regions attributes (some "eu")
condition_matches_lem_example = condition_matches_lem regions attributes (some "eu")

authorize_lem_example :
    (ids : List ℕ) × (decision : Option String) × (authorize
        (lenient_condition_matches regions attributes)
        "order.read"
        "order"
        context
        roles
        read_orders
        []
        (grant ∷ [])
        order_policy
      ≡ some decision)
    × ((x : ℕ)
        → (contains ids x ≡ true) ↔ (
            (a : ℕ) × (contains (active_role_ids context [] (grant ∷ [])) a ≡ true)
            × Inherits (role_map 7 roles []) a x))
    × ((is_some decision ≡ true) ↔ (
        (record_access_allowed
            (lenient_condition_matches regions attributes)
            "order"
            context
            order_policy
            ids
          ≡ true)
        × ((rp : RolePermissionRecord) × Listed rp read_orders
            × IsGrant "order.read" "order" context roles
                (active_role_ids context [] (grant ∷ []))
                rp)))
authorize_lem_example =
    authorize_lem (lenient_condition_matches regions attributes) "order.read" "order" context roles
      [] (grant ∷ []) order_policy read_orders

abbrev salary : FieldPolicyRecord
salary = record {
  tenant_id = 7;
  resource_type = "order";
  field_name = "total";
  role_id = some 6;
  access_type = write;
  mask_pattern = none;
  condition_expression = none;
}

abbrev open_total : FieldPolicyRecord
open_total = record salary { role_id = none; access_type = read }

abbrev open_note : FieldPolicyRecord
open_note = record open_total { field_name = "note" }

-- `str.upper` on ASCII letters.
abbrev ascii_upper : String → List ℕ
ascii_upper s = map (λ c. if is_lower c then c - 32 else c) (codes s)

abbrev limits : List ApprovalLimitRecord
limits =
    record {
      tenant_id = 7;
      action_type = "pay";
      currency = "eur";
      amount_limit = pos 500;
      role_id = some 6;
      subject_id = none;
      valid_from = none;
      valid_to = none;
    }
    ∷ []

decision_code : Unit {0}
unfolding matching_fields first_for_role first_for_all role_policy decide_field
    evaluate_field_access applies max_limit evaluate_approval_authority check_sod_conflict
    authorize_support_access
decision_code = tt

pays_limit :
    evaluate_approval_authority ascii_upper "pay" (pos 500) "EUR" context limits (6 ∷ []) ≡ true
unfolding decision_code
pays_limit = refl

pays_more :
    evaluate_approval_authority ascii_upper "pay" (pos 501) "EUR" context limits (6 ∷ []) ≡ false
unfolding decision_code
pays_more = refl

-- Without a policy for the field a request to write is allowed, with access to read.
unlisted_write :
    evaluate_field_access (λ c. true) "note" "order" context (salary ∷ []) (6 ∷ []) write
    ≡ record { allowed = true; access_type = read; mask_pattern = none }
unfolding decision_code
unlisted_write = refl

pay_and_approve :
    check_sod_conflict
      ("pay" ∷ "approve" ∷ [])
      (record { code = "R1"; permission_a = "pay"; permission_b = "approve" } ∷ [])
    ≡ "R1" ∷ []
unfolding decision_code
pay_and_approve = refl

supported :
    authorize_support_access context (
      record {
        id = 1;
        tenant_id = 7;
        support_principal_id = 2;
        valid_from = 0;
        valid_to = 30;
        revoked_at = some 5;
      }
      ∷ record {
        id = 3;
        tenant_id = 7;
        support_principal_id = 2;
        valid_from = 10;
        valid_to = 20;
        revoked_at = none;
      }
      ∷ [])
    ≡ some 3
unfolding decision_code
supported = refl

evaluate_field_access-IsDecided_example :
    IsDecided "total" "order" context
      (6 ∷ [])
      (λ c. true)
      write
      (open_note ∷ salary ∷ [])
      (evaluate_field_access
        (λ c. true)
        "total"
        "order"
        context
        (open_note ∷ salary ∷ [])
        (6 ∷ [])
        write)
evaluate_field_access-IsDecided_example =
    evaluate_field_access-IsDecided "total" "order" context (6 ∷ []) (λ c. true) write
      (open_note ∷ salary ∷ [])

-- A policy for a role of the subject goes before an earlier one for no role.
role_first :
    evaluate_field_access
      (λ c. true)
      "total"
      "order"
      context
      (open_total ∷ salary ∷ [])
      (6 ∷ [])
      write
    ≡ record { allowed = true; access_type = write; mask_pattern = none }
unfolding decision_code
role_first = refl

evaluate_approval_authority_lem_example :
    evaluate_approval_authority ascii_upper "pay" (pos 500) "EUR" context limits (6 ∷ [])
    ≡ any (applies ascii_upper "pay" "EUR" context (6 ∷ [])) limits
      && (ℤ_leb (pos 500) (pos 0)
          || any
              (λ l.
                applies ascii_upper "pay" "EUR" context (6 ∷ []) l
                && ℤ_leb (pos 500) l.amount_limit)
              limits)
evaluate_approval_authority_lem_example =
    evaluate_approval_authority_lem ascii_upper "pay" (pos 500) "EUR" context limits (6 ∷ [])
