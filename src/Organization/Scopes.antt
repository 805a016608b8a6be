-- ===== src/Organization/Scopes.antt =====
-- The reads of scopes in module.py: `_require_owned`, `_require_effective_row`, `_scope_lineage`,
-- `_append_parent_chain` and `_require_effective_scope_lineage`. `today` is the date that the clock
-- shows; row locks do not change what is read.
use businessos.Prelude.{
  ℕ, zero, suc, String, Bool, true, false, Option, none, some, List, [], ◌∷◌, ◌++◌, ◌==◌, nat_eq,
  string_eq, option_eq, pair_eq, if◌then◌else◌, contains, length,
}
use businessos.Prelude.Dict.{Dict, get}
use businessos.Errors.{Error, Result, ok, err, business_error, runtime_error, ◌>>=◌, ◌>>◌, require}
use businessos.Tenants.Periods.{date, effective_at}
use businessos.Organization.Tables.{
  OrganizationScopeType, enterprise_group, legal_entity, company, org_unit, region, operating_site,
  warehouse, financial_dimension, Row, LegalEntity, Branch, OperatingSite, FinancialDimension,
  Warehouse, SiteType, Tables,
}

abbrev pub Scope : Type 0
Scope = String × ℕ

abbrev pub invalid_scope : Error
invalid_scope = business_error "invalid_organization_scope" 422

abbrev pub inactive_scope : Error
inactive_scope = business_error "inactive_organization_scope" 422

abbrev pub hierarchy_error : Error
hierarchy_error = business_error "invalid_organization_hierarchy" 422

abbrev found : {A : Type 0} → Option (Row A) → ℕ → Result (Row A)
found none tenant_id = err invalid_scope
found (some row) tenant_id = if row.tenant_id == tenant_id then ok row else err invalid_scope

unfoldable pub require_owned : {A : Type 0} → Dict ℕ (Row A) → ℕ → ℕ → Result (Row A)
require_owned table identifier tenant_id = found (get table identifier) tenant_id

unfoldable pub require_effective_row : {A : Type 0} → Dict ℕ (Row A) → ℕ → ℕ → ℕ → Result (Row A)
unfolding require_owned
require_effective_row table identifier tenant_id today = do
  row ← require_owned table identifier tenant_id
  require row.active inactive_scope
  effective ← effective_at row.effective_from row.effective_until (date today)
  require effective inactive_scope
  ok row

abbrev pub is_unit_kind : String → Bool
is_unit_kind kind = contains ("business_unit" ∷ "division" ∷ "department" ∷ "team" ∷ []) kind

unfoldable pub canonical_kind : String → String
canonical_kind kind =
    if is_unit_kind kind
    then "org_unit"
    else if contains ("cost_center" ∷ "profit_center" ∷ "project" ∷ []) kind
    then "financial_dimension"
    else kind

-- The loop of `_append_parent_chain`: what it adds to the lineage.
unfoldable pub parent_chain :
    ℕ → Dict ℕ (Row Branch) → ℕ → ℕ → String → ℕ → List ℕ → ℕ → Row Branch → Result (List Scope)
unfolding require_effective_row
parent_chain zero table tenant_id today scope_type company_id visited identifier current =
    err runtime_error
parent_chain (suc fuel) table tenant_id today scope_type company_id visited identifier current =
    if contains visited identifier then err hierarchy_error else elim current.columns.parent_id [
      | none ↦ ok ((scope_type, identifier) ∷ [])
      | some parent_id ↦ do
        parent ← require_effective_row table parent_id tenant_id today
        require (parent.columns.company_id == company_id) hierarchy_error
        rest ←
            parent_chain fuel table tenant_id today scope_type company_id (identifier ∷ visited)
              parent_id parent
        ok ((scope_type, identifier) ∷ rest)
    ]

-- A table of n rows needs at most n + 2 rounds.
unfoldable pub append_parent_chain :
    Dict ℕ (Row Branch) → ℕ → ℕ → String → ℕ → Row Branch → Result (List Scope)
unfolding parent_chain
append_parent_chain table tenant_id today scope_type identifier first =
    parent_chain (suc (suc (length table))) table tenant_id today scope_type
      first.columns.company_id [] identifier first

-- The selected row, with its identifier and, where there are several, its kind.
pub data Selected : Type 0 where
  of_group : ℕ → Selected
  of_legal_entity : ℕ → Row LegalEntity → Selected
  of_company : ℕ → Selected
  of_unit : (kind : String) → ℕ → Row Branch → Selected
  of_region : ℕ → Row Branch → Selected
  of_site : ℕ → Row OperatingSite → Selected
  of_warehouse : ℕ → Row Warehouse → Selected
  of_dimension : (kind : String) → ℕ → Row FinancialDimension → Selected

-- `company_lineage`
unfoldable pub company_lineage : Tables → ℕ → ℕ → ℕ → Result (List Scope)
unfolding require_effective_row
company_lineage t tenant_id today company_id = do
  company_row ← require_effective_row t.companies company_id tenant_id today
  legal ← require_effective_row t.legal_entities company_row.columns.legal_entity_id tenant_id today
  group ←
      require_effective_row t.enterprise_groups legal.columns.enterprise_group_id tenant_id today
  ok (
      ("company", company_id)
      ∷ ("legal_entity", company_row.columns.legal_entity_id)
      ∷ ("enterprise_group", legal.columns.enterprise_group_id)
      ∷ [])

abbrev found_type : Option SiteType → ℕ → Result SiteType
found_type none tenant_id = err invalid_scope
found_type (some row) tenant_id = if row.tenant_id == tenant_id then ok row else err invalid_scope

-- The branch on an operating site.
unfoldable pub site_lineage : Tables → ℕ → ℕ → ℕ → Row OperatingSite → Result (List Scope)
unfolding company_lineage append_parent_chain require_effective_row
site_lineage t tenant_id today identifier site = do
  above ← company_lineage t tenant_id today site.columns.company_id
  site_type ← found_type (get t.site_types site.columns.site_type_id) tenant_id
  require site_type.active hierarchy_error
  elim site.columns.region_id [
    | none ↦ ok (("operating_site", identifier) ∷ above)
    | some region_id ↦ do
      region_row ← require_effective_row t.regions region_id tenant_id today
      require (region_row.columns.company_id == site.columns.company_id) hierarchy_error
      chain ← append_parent_chain t.regions tenant_id today "region" region_id region_row
      ok (("operating_site", identifier) ∷ above ++ chain)
  ]

-- The branch on a warehouse with a site.
unfoldable pub warehouse_lineage : Tables → ℕ → ℕ → Row Warehouse → Result (List Scope)
unfolding site_lineage require_effective_row
warehouse_lineage t tenant_id today row = elim row.columns.operating_site_id [
  | none ↦ ok []
  | some site_id ↦ do
    site ← require_effective_row t.operating_sites site_id tenant_id today
    require (site.columns.company_id == row.columns.company_id) hierarchy_error
    site_lineage t tenant_id today site_id site
]

-- The test of `_scope_lineage` on the kind of a unit.
unfoldable pub unit_chain : Tables → ℕ → ℕ → String → ℕ → Row Branch → Result (List Scope)
unfolding append_parent_chain
unit_chain t tenant_id today kind identifier row = elim (is_unit_kind kind) [
  | true ↦ append_parent_chain t.org_units tenant_id today "org_unit" identifier row
  | false ↦ ok []
]

unfoldable pub scope_lineage : Tables → ℕ → ℕ → Selected → Result (List Scope)
unfolding canonical_kind company_lineage append_parent_chain site_lineage warehouse_lineage
    unit_chain
scope_lineage t tenant_id today (of_group identifier) = ok (("enterprise_group", identifier) ∷ [])
scope_lineage t tenant_id today (of_legal_entity identifier row) = do
  group ← require_effective_row t.enterprise_groups row.columns.enterprise_group_id tenant_id today
  ok (("legal_entity", identifier) ∷ ("enterprise_group", row.columns.enterprise_group_id) ∷ [])
scope_lineage t tenant_id today (of_company identifier) =
    company_lineage t tenant_id today identifier
scope_lineage t tenant_id today (of_unit kind identifier row) = do
  above ← company_lineage t tenant_id today row.columns.company_id
  chain ← unit_chain t tenant_id today kind identifier row
  ok ((canonical_kind kind, identifier) ∷ above ++ chain)
scope_lineage t tenant_id today (of_region identifier row) = do
  above ← company_lineage t tenant_id today row.columns.company_id
  chain ← append_parent_chain t.regions tenant_id today "region" identifier row
  ok (("region", identifier) ∷ above ++ chain)
scope_lineage t tenant_id today (of_site identifier row) =
    site_lineage t tenant_id today identifier row
scope_lineage t tenant_id today (of_warehouse identifier row) = do
  above ← company_lineage t tenant_id today row.columns.company_id
  chain ← warehouse_lineage t tenant_id today row
  ok (("warehouse", identifier) ∷ above ++ chain)
scope_lineage t tenant_id today (of_dimension kind identifier row) = do
  above ← company_lineage t tenant_id today row.columns.company_id
  ok ((canonical_kind kind, identifier) ∷ above)

-- `_require_effective_scope`, with the kind that is the value of the scope type.
unfoldable pub require_effective_scope :
    Tables → OrganizationScopeType → ℕ → ℕ → ℕ → Result Selected
unfolding require_effective_row
require_effective_scope t enterprise_group id tenant_id today =
    require_effective_row t.enterprise_groups id tenant_id today >>= λ row. ok (of_group id)
require_effective_scope t legal_entity id tenant_id today =
    require_effective_row t.legal_entities id tenant_id today >>= λ row. ok (of_legal_entity id row)
require_effective_scope t company id tenant_id today =
    require_effective_row t.companies id tenant_id today >>= λ row. ok (of_company id)
require_effective_scope t org_unit id tenant_id today =
    require_effective_row t.org_units id tenant_id today >>= λ row. ok (of_unit "org_unit" id row)
require_effective_scope t region id tenant_id today =
    require_effective_row t.regions id tenant_id today >>= λ row. ok (of_region id row)
require_effective_scope t operating_site id tenant_id today =
    require_effective_row t.operating_sites id tenant_id today >>= λ row. ok (of_site id row)
require_effective_scope t warehouse id tenant_id today =
    require_effective_row t.warehouses id tenant_id today >>= λ row. ok (of_warehouse id row)
require_effective_scope t financial_dimension id tenant_id today =
    require_effective_row t.financial_dimensions id tenant_id today >>= λ row.
    ok (of_dimension "financial_dimension" id row)

-- The kind that the row has of its own.
abbrev pub with_row_kind : Selected → Selected
with_row_kind (of_unit kind id row) = of_unit row.columns.unit_type id row
with_row_kind (of_dimension kind id row) = of_dimension row.columns.dimension_type id row
with_row_kind s = s

unfoldable pub require_effective_scope_lineage :
    Tables → OrganizationScopeType → ℕ → ℕ → ℕ → Result Selected
unfolding require_effective_scope scope_lineage
require_effective_scope_lineage t scope_type id tenant_id today = do
  selected ← require_effective_scope t scope_type id tenant_id today
  lineage ← scope_lineage t tenant_id today (with_row_kind selected)
  ok selected
