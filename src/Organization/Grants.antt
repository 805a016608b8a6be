-- ===== src/Organization/Grants.antt =====
-- The handlers of module.py that grant and revoke delegations, and that revoke assignments. `actor` is
-- the answer of `_trusted_principal`; events are left out, and a handler that raises changes no table.
pub mod Revoked
use businessos.Prelude.{
  ℕ, String, Bool, true, false, not, ◌&&◌, ◌||◌, Option, none, some, List, [], ◌∷◌, ◌==◌, nat_eq,
  string_eq, option_eq, pair_eq, if◌then◌else◌, contains, all, is_none, is_some, ltb, leb,
}
use businessos.Prelude.Dict.{Dict, get, put, remove}
use businessos.Errors.{Error, Result, ok, err, business_error, ◌>>=◌, ◌>>◌, require}
use businessos.Registry.Jobs.{TenantContext, RequestContext}
use businessos.Tenants.Periods.{TemporalValue, aware, validate_effective_period}
use businessos.Organization.Tables.{
  OrganizationScopeType, value, Principal, Assignment, DelegatedScope, Tables,
}
use businessos.Organization.Scopes.{Scope, scope_lineage, require_effective_scope_lineage}
use businessos.Organization.Structure.{tenant_of, integrity_error}
use businessos.Organization.Delegation.{
  Authorities, Request, DelegationProof, forbidden, validate_delegation_path,
}

-- The scopes that the caller has selected, by their kinds as `_selected_scope_covers` names them, and
-- the delegation under which it acts.
pub record Selection : Type 0 where
  pub scopes : List (String × Option ℕ)
  pub delegation_id : Option ℕ

abbrev is_covered : List Scope → String × Option ℕ → Bool
is_covered lineage (kind, none) = true
is_covered lineage (kind, some identifier) = contains lineage (kind, identifier)

unfoldable pub selected_scope_covers : Selection → List Scope → Bool
selected_scope_covers selection lineage = all (is_covered lineage) selection.scopes

pub record DelegateScope : Type 0 where
  pub id : ℕ
  pub tenant_id : ℕ
  pub grantor_principal_type : String
  pub recipient : Principal
  pub scope_type : OrganizationScopeType
  pub scope_id : ℕ
  pub allowed_actions : List String
  pub valid_from : ℕ
  pub valid_until : ℕ

-- The arguments of the validation of a new delegation.
unfoldable pub request_of : DelegateScope → ℕ → Principal → Selection → ℕ → ℕ → Request
request_of command tenant_id actor selection now today = record {
  tenant_id = tenant_id;
  consumer = actor;
  source_id = selection.delegation_id;
  target_type = command.scope_type;
  target_id = command.scope_id;
  actions = command.allowed_actions;
  start = command.valid_from;
  end = command.valid_until;
  now = now;
  today = today;
  new_recipient = some command.recipient;
}

abbrev pub new_grant : DelegateScope → ℕ → Principal → Selection → DelegatedScope
new_grant command tenant_id actor selection = record {
  tenant_id = tenant_id;
  grantor = actor;
  recipient = command.recipient;
  scope = (value command.scope_type, command.scope_id);
  allowed_actions = command.allowed_actions;
  valid_from = some command.valid_from;
  valid_until = some command.valid_until;
  authority_source_kind = some (if is_some selection.delegation_id then "delegation" else "direct");
  parent_delegation_id = selection.delegation_id;
  revoked_at = none;
}

-- `_delegation`; `before` is what its validation reads before the locks.
unfoldable pub delegate :
    RequestContext
    → Result Principal
    → Authorities
    → Selection
    → DelegateScope
    → ℕ
    → ℕ
    → Tables
    → Tables
    → Result Tables
unfolding tenant_of request_of selected_scope_covers
delegate context actor authorities selection command now today before t = do
  tenant ← tenant_of context command.tenant_id
  caller ← actor
  require (caller.0 == command.grantor_principal_type) forbidden
  validate_effective_period (some (aware command.valid_from)) (some (aware command.valid_until))
  require (ltb now command.valid_until) (business_error "invalid_delegation" 422)
  proof ←
      validate_delegation_path authorities
        (request_of command tenant.tenant_id caller selection now today) before t
  target ←
      require_effective_scope_lineage t command.scope_type command.scope_id tenant.tenant_id today
  lineage ← scope_lineage t tenant.tenant_id today target
  require (selected_scope_covers selection lineage) forbidden
  require (is_none (get t.delegated_scopes command.id)) integrity_error
  ok (record t {
    delegated_scopes =
        put t.delegated_scopes command.id (new_grant command tenant.tenant_id caller selection);
  })

abbrev pub not_found : Error
not_found = business_error "not_found" 404

-- The row that the update of `_revoke_delegation` finds.
abbrev pub revocable : Option DelegatedScope → ℕ → Result DelegatedScope
revocable none tenant_id = err not_found
revocable (some row) tenant_id =
    if (row.tenant_id == tenant_id) && is_some row.authority_source_kind && is_none row.revoked_at
    then ok row
    else err not_found

unfoldable pub revoke_delegation :
    RequestContext → Result Principal → Authorities → ℕ → ℕ → ℕ → Tables → Result Tables
unfolding tenant_of
revoke_delegation context actor authorities tenant_id delegation_id now t = do
  tenant ← tenant_of context tenant_id
  caller ← actor
  authorities.acquire
  authorities.require_active
  row ← revocable (get t.delegated_scopes delegation_id) tenant.tenant_id
  ok (record t {
    delegated_scopes = put t.delegated_scopes delegation_id (record row { revoked_at = some now });
  })

abbrev deletable : Option Assignment → ℕ → Result Assignment
deletable none tenant_id = err not_found
deletable (some row) tenant_id = if row.tenant_id == tenant_id then ok row else err not_found

unfoldable pub revoke_assignment :
    RequestContext → Result Principal → Authorities → ℕ → ℕ → Tables → Result Tables
unfolding tenant_of
revoke_assignment context actor authorities tenant_id assignment_id t = do
  tenant ← tenant_of context tenant_id
  caller ← actor
  authorities.acquire
  authorities.require_active
  row ← deletable (get t.assignments assignment_id) tenant.tenant_id
  ok (record t { assignments = remove t.assignments assignment_id })
