-- ===== src/Organization/Structure.antt =====
-- The handlers of module.py that create scopes. A handler takes the identifier and the columns of its
-- command; the codes, which are unique, are left out, and a handler that raises changes no table.
use businessos.Prelude.{ℕ, true, not, Option, none, some, ◌==◌, nat_eq, if◌then◌else◌, is_none}
use businessos.Prelude.Dict.{Dict, get, put}
use businessos.Errors.{Error, Result, ok, err, business_error, base_exception, ◌>>=◌, ◌>>◌, require}
use businessos.Registry.Jobs.{TenantContext, RequestContext}
use businessos.Tenants.Periods.{TemporalValue, validate_effective_period}
use businessos.Organization.Tables.{
  Row, Branch, OperatingSite, FinancialDimension, Warehouse, SiteType, Tables,
}
use businessos.Organization.Scopes.{invalid_scope, hierarchy_error, require_owned}

-- `_tenant`
unfoldable pub tenant_of : RequestContext → ℕ → Result TenantContext
tenant_of context expected = elim context.tenant [
  | none ↦ err (business_error "unauthenticated" 401)
  | some t ↦ if not (t.tenant_id == expected) then err (business_error "forbidden" 403) else ok t
]

abbrev pub integrity_error : Error
integrity_error = base_exception "IntegrityError"

-- What the command of a named scope has.
pub record Named : Type 0 where
  pub id : ℕ
  pub tenant_id : ℕ
  pub effective_from : Option TemporalValue
  pub effective_until : Option TemporalValue

abbrev pub new_row : {A : Type 0} → Named → ℕ → A → Row A
new_row command tenant_id columns = record {
  tenant_id = tenant_id;
  active = true;
  effective_from = command.effective_from;
  effective_until = command.effective_until;
  columns = columns;
}

unfoldable pub insert_named :
    {A : Type 0} → Dict ℕ (Row A) → Named → ℕ → A → Result (Dict ℕ (Row A))
insert_named table command tenant_id columns = do
  validate_effective_period command.effective_from command.effective_until
  require (is_none (get table command.id)) integrity_error
  ok (put table command.id (new_row command tenant_id columns))

unfoldable pub create_enterprise_group : RequestContext → Named → Tables → Result Tables
unfolding tenant_of insert_named
create_enterprise_group context command t = do
  tenant ← tenant_of context command.tenant_id
  validate_effective_period command.effective_from command.effective_until
  groups ← insert_named t.enterprise_groups command tenant.tenant_id tt
  ok (record t { enterprise_groups = groups })

unfoldable pub create_legal_entity : RequestContext → Named → ℕ → Tables → Result Tables
unfolding tenant_of insert_named
create_legal_entity context command enterprise_group_id t = do
  tenant ← tenant_of context command.tenant_id
  group ← require_owned t.enterprise_groups enterprise_group_id tenant.tenant_id
  entities ←
      insert_named t.legal_entities command tenant.tenant_id
        (record { enterprise_group_id = enterprise_group_id })
  ok (record t { legal_entities = entities })

unfoldable pub create_company : RequestContext → Named → ℕ → Tables → Result Tables
unfolding tenant_of insert_named
create_company context command legal_entity_id t = do
  tenant ← tenant_of context command.tenant_id
  legal ← require_owned t.legal_entities legal_entity_id tenant.tenant_id
  companies ←
      insert_named t.companies command tenant.tenant_id
        (record { legal_entity_id = legal_entity_id })
  ok (record t { companies = companies })

-- The check of the parent of a unit or region.
unfoldable pub check_parent : Dict ℕ (Row Branch) → ℕ → ℕ → Option ℕ → Result (Unit {0})
check_parent table tenant_id company_id none = ok tt
check_parent table tenant_id company_id (some parent_id) = do
  parent ← require_owned table parent_id tenant_id
  require (parent.columns.company_id == company_id) hierarchy_error

-- The check and the insert of a unit or region in its table.
unfoldable pub insert_branch :
    Dict ℕ (Row Branch) → Named → ℕ → Branch → Result (Dict ℕ (Row Branch))
unfolding check_parent insert_named
insert_branch table command tenant_id columns = do
  check_parent table tenant_id columns.company_id columns.parent_id
  insert_named table command tenant_id columns

unfoldable pub create_org_unit : RequestContext → Named → Branch → Tables → Result Tables
unfolding tenant_of insert_branch
create_org_unit context command columns t = do
  tenant ← tenant_of context command.tenant_id
  company_row ← require_owned t.companies columns.company_id tenant.tenant_id
  units ← insert_branch t.org_units command tenant.tenant_id columns
  ok (record t { org_units = units })

unfoldable pub create_region : RequestContext → Named → Branch → Tables → Result Tables
unfolding tenant_of insert_branch
create_region context command columns t = do
  tenant ← tenant_of context command.tenant_id
  company_row ← require_owned t.companies columns.company_id tenant.tenant_id
  regions ← insert_branch t.regions command tenant.tenant_id columns
  ok (record t { regions = regions })

abbrev typed : Option SiteType → ℕ → Result SiteType
typed none tenant_id = err invalid_scope
typed (some row) tenant_id = if row.tenant_id == tenant_id then ok row else err invalid_scope

unfoldable pub create_operating_site :
    RequestContext → Named → OperatingSite → Tables → Result Tables
unfolding tenant_of check_parent insert_named
create_operating_site context command columns t = do
  tenant ← tenant_of context command.tenant_id
  company_row ← require_owned t.companies columns.company_id tenant.tenant_id
  site_type ← typed (get t.site_types columns.site_type_id) tenant.tenant_id
  check_parent t.regions tenant.tenant_id columns.company_id columns.region_id
  sites ← insert_named t.operating_sites command tenant.tenant_id columns
  ok (record t { operating_sites = sites })

unfoldable pub create_financial_dimension :
    RequestContext → Named → FinancialDimension → Tables → Result Tables
unfolding tenant_of insert_named
create_financial_dimension context command columns t = do
  tenant ← tenant_of context command.tenant_id
  company_row ← require_owned t.companies columns.company_id tenant.tenant_id
  dimensions ← insert_named t.financial_dimensions command tenant.tenant_id columns
  ok (record t { financial_dimensions = dimensions })

-- The check of the site of a warehouse.
unfoldable pub check_site : Dict ℕ (Row OperatingSite) → ℕ → ℕ → Option ℕ → Result (Unit {0})
check_site table tenant_id company_id none = ok tt
check_site table tenant_id company_id (some site_id) = do
  site ← require_owned table site_id tenant_id
  require (site.columns.company_id == company_id) hierarchy_error

unfoldable pub create_warehouse : RequestContext → Named → Warehouse → Tables → Result Tables
unfolding tenant_of check_site insert_named
create_warehouse context command columns t = do
  tenant ← tenant_of context command.tenant_id
  company_row ← require_owned t.companies columns.company_id tenant.tenant_id
  check_site t.operating_sites tenant.tenant_id columns.company_id columns.operating_site_id
  warehouses ← insert_named t.warehouses command tenant.tenant_id columns
  ok (record t { warehouses = warehouses })
