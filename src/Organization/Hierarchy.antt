-- ===== src/Organization/Hierarchy.antt =====
-- The parents of units and regions never form a cycle, and stay in one company.
use businessos.Prelude.{
  ℕ, suc, true, false, some, ◌==◌, ==-eq, nat_eq, if◌then◌else◌, is_none, ◌≡◌, ◌<◌, sym, subst, ap,
  ◌∙◌, arith, Bool-cases, inl, inr,
}
use businessos.Prelude.Dict.{Dict, get, put, get-put}
use businessos.Errors.{ok, >>=-ok, require_then}
use businessos.Registry.Jobs.{RequestContext}
use businessos.Tenants.Periods.{validate_effective_period}
use businessos.Organization.Tables.{
  Row, Branch, OperatingSite, FinancialDimension, Warehouse, Tables,
}
use businessos.Organization.Scopes.{require_owned}
use businessos.Organization.Structure.{
  Named, new_row, integrity_error, tenant_of, insert_named, check_parent, insert_branch,
  create_enterprise_group, create_legal_entity, create_company, create_org_unit, create_region,
  create_operating_site, create_financial_dimension, create_warehouse,
}

-- The parent of a row is a row of the tenant and of the company, of a smaller rank.
abbrev pub HasParent : Dict ℕ (Row Branch) → (ℕ → ℕ) → ℕ → Row Branch → ℕ → Type 0
HasParent table rank id row p =
    (parent : Row Branch) × (get table p ≡ some parent)
    × (parent.tenant_id ≡ row.tenant_id)
    × (parent.columns.company_id ≡ row.columns.company_id)
    × (rank p < rank id)

pub record IsRanked (table : Dict ℕ (Row Branch)) : Type 0 where
  pub rank : ℕ → ℕ
  pub bound : ℕ
  pub bounded : (id : ℕ) (row : Row Branch) → get table id ≡ some row → rank id < bound
  pub parents :
      (id : ℕ) (row : Row Branch) (p : ℕ)
      → get table id ≡ some row
      → row.columns.parent_id ≡ some p
      → HasParent table rank id row p

require_owned-ok :
    {A : Type 0} (table : Dict ℕ (Row A)) (id tenant_id : ℕ) (row : Row A)
    → require_owned table id tenant_id ≡ ok row
    → (get table id ≡ some row) × (row.tenant_id ≡ tenant_id)
unfolding require_owned
require_owned-ok table id tenant_id row h = ground (arith, h)

check_parent-ok :
    (table : Dict ℕ (Row Branch)) (tenant_id company_id p : ℕ)
    → check_parent table tenant_id company_id (some p) ≡ ok tt
    → (parent : Row Branch) × (get table p ≡ some parent)
      × (parent.tenant_id ≡ tenant_id)
      × (parent.columns.company_id ≡ company_id)
unfolding check_parent
check_parent-ok table tenant_id company_id p h =
    let (parent, owned, same) = >>=-ok (require_owned table p tenant_id) _ tt h in
    let (at, tenant) = require_owned-ok table p tenant_id parent owned in
    (parent, at, tenant, ground (arith, same, nat_eq.eqb_iff parent.columns.company_id company_id))

-- A row stays where a row is put under a fresh identifier.
put-fresh :
    (table : Dict ℕ (Row Branch)) (id0 p : ℕ) (new parent : Row Branch)
    → is_none (get table id0) ≡ true
    → get table p ≡ some parent
    → ((id0 == p) ≡ false) × (get (put table id0 new) p ≡ some parent)
put-fresh table id0 p new parent fresh is = elim (Bool-cases (id0 == p)) [
  | inl at ↦
      absurd
        (ground (arith, fresh, subst (λ x. get table x ≡ some parent) (sym (==-eq id0 p at)) is))
  | inr ne ↦ (ne, ground (arith, ne, is, get-put table id0 p new))
]

put-IsRanked :
    (table : Dict ℕ (Row Branch)) (id0 : ℕ) (new : Row Branch)
    → is_none (get table id0) ≡ true
    → ((p : ℕ)
        → new.columns.parent_id ≡ some p
        → (parent : Row Branch) × (get table p ≡ some parent)
          × (parent.tenant_id ≡ new.tenant_id)
          × (parent.columns.company_id ≡ new.columns.company_id))
    → IsRanked table
    → IsRanked (put table id0 new)
put-IsRanked table id0 new fresh check ranked = record {
  rank = λ x. if id0 == x then ranked.bound else ranked.rank x;
  bound = suc ranked.bound;
  bounded = λ id row is. elim (Bool-cases (id0 == id)) [
    | inl at ↦ ground (arith, at)
    | inr ne ↦
        ground (arith, ne, ranked.bounded id row (ground (arith, ne, is, get-put table id0 id new)))
  ];
  parents = λ id row p is has. elim (Bool-cases (id0 == id)) [
    | inl at ↦
        let row_is : new ≡ row = ground (arith, at, is, get-put table id0 id new) in
        let (parent, there, tenant, company_is) =
          check p (ap (λ r. r.columns.parent_id) row_is ∙ has) in
        let (ne, stays) = put-fresh table id0 p new parent fresh there in
        (
          parent,
          stays,
          tenant ∙ ap (λ r. r.tenant_id) row_is,
          company_is ∙ ap (λ r. r.columns.company_id) row_is,
          ground (arith, at, ne, ranked.bounded p parent there),
        )
    | inr ne ↦
        let (parent, there, tenant, company_is, less) =
          ranked.parents id row p (ground (arith, ne, is, get-put table id0 id new)) has in
        let (other, stays) = put-fresh table id0 p new parent fresh there in
        (parent, stays, tenant, company_is, ground (arith, ne, other, less))
  ];
}

insert_branch-IsRanked :
    (table table' : Dict ℕ (Row Branch)) (command : Named) (tenant_id : ℕ) (columns : Branch)
    → insert_branch table command tenant_id columns ≡ ok table'
    → IsRanked table
    → IsRanked table'
unfolding insert_branch insert_named
insert_branch-IsRanked table table' command tenant_id columns h ranked =
    let (u, checked, h1) =
      >>=-ok (check_parent table tenant_id columns.company_id columns.parent_id) _ table' h in
    let (v, valid, h2) =
      >>=-ok (validate_effective_period command.effective_from command.effective_until) _ table'
        h1 in
    let (fresh, h3) = require_then (is_none (get table command.id)) integrity_error _ table' h2 in
    let new : Row Branch = new_row command tenant_id columns in
    let same : put table command.id new ≡ table' = ground (arith, h3) in
    subst IsRanked same (
      put-IsRanked table command.id new fresh
        (λ p is.
          check_parent-ok table tenant_id columns.company_id p
            (subst (λ o. check_parent table tenant_id columns.company_id o ≡ ok tt) is checked))
        ranked)

-- What the handlers keep: both tables of branches are ranked.
abbrev pub IsHierarchy : Tables → Type 0
IsHierarchy t = IsRanked t.org_units × IsRanked t.regions

-- A handler that creates a scope.
pub data Step : Tables → Tables → Type 0 where
  groups :
      {t t' : Tables} (context : RequestContext) (command : Named)
      → create_enterprise_group context command t ≡ ok t'
      → Step t t'
  entities :
      {t t' : Tables} (context : RequestContext) (command : Named) (group : ℕ)
      → create_legal_entity context command group t ≡ ok t'
      → Step t t'
  companies :
      {t t' : Tables} (context : RequestContext) (command : Named) (entity : ℕ)
      → create_company context command entity t ≡ ok t'
      → Step t t'
  units :
      {t t' : Tables} (context : RequestContext) (command : Named) (columns : Branch)
      → create_org_unit context command columns t ≡ ok t'
      → Step t t'
  regions :
      {t t' : Tables} (context : RequestContext) (command : Named) (columns : Branch)
      → create_region context command columns t ≡ ok t'
      → Step t t'
  sites :
      {t t' : Tables} (context : RequestContext) (command : Named) (columns : OperatingSite)
      → create_operating_site context command columns t ≡ ok t'
      → Step t t'
  dimensions :
      {t t' : Tables} (context : RequestContext) (command : Named) (columns : FinancialDimension)
      → create_financial_dimension context command columns t ≡ ok t'
      → Step t t'
  warehouses :
      {t t' : Tables} (context : RequestContext) (command : Named) (columns : Warehouse)
      → create_warehouse context command columns t ≡ ok t'
      → Step t t'

pub data Reach : Tables → Tables → Type 0 where
  here : {t : Tables} → Reach t t
  next : {s t u : Tables} → Reach s t → Step t u → Reach s u

-- A step that leaves the tables of branches.
kept :
    (t t' : Tables)
    → t.org_units ≡ t'.org_units
    → t.regions ≡ t'.regions
    → IsHierarchy t
    → IsHierarchy t'
kept t t' is_units is_regions (u, r) = (subst IsRanked is_units u, subst IsRanked is_regions r)

Step-IsHierarchy : (t t' : Tables) → Step t t' → IsHierarchy t → IsHierarchy t'
unfolding create_enterprise_group create_legal_entity create_company create_org_unit create_region
    create_operating_site create_financial_dimension create_warehouse
Step-IsHierarchy t t' (groups context command h) hier =
    kept t t' (ground (arith, h)) (ground (arith, h)) hier
Step-IsHierarchy t t' (entities context command group h) hier =
    kept t t' (ground (arith, h)) (ground (arith, h)) hier
Step-IsHierarchy t t' (companies context command entity h) hier =
    kept t t' (ground (arith, h)) (ground (arith, h)) hier
Step-IsHierarchy t t' (units context command columns h) (u, r) =
    let (tenant, is, h1) = >>=-ok (tenant_of context command.tenant_id) _ t' h in
    let (company_row, owned, h2) =
      >>=-ok (require_owned t.companies columns.company_id tenant.tenant_id) _ t' h1 in
    let (rows, inserted, h3) =
      >>=-ok (insert_branch t.org_units command tenant.tenant_id columns) _ t' h2 in
    let same : record t { org_units = rows } ≡ t' = ground (arith, h3) in
    subst IsHierarchy same
      (insert_branch-IsRanked t.org_units rows command tenant.tenant_id columns inserted u, r)
Step-IsHierarchy t t' (regions context command columns h) (u, r) =
    let (tenant, is, h1) = >>=-ok (tenant_of context command.tenant_id) _ t' h in
    let (company_row, owned, h2) =
      >>=-ok (require_owned t.companies columns.company_id tenant.tenant_id) _ t' h1 in
    let (rows, inserted, h3) =
      >>=-ok (insert_branch t.regions command tenant.tenant_id columns) _ t' h2 in
    let same : record t { regions = rows } ≡ t' = ground (arith, h3) in
    subst IsHierarchy same
      (u, insert_branch-IsRanked t.regions rows command tenant.tenant_id columns inserted r)
Step-IsHierarchy t t' (sites context command columns h) hier =
    kept t t' (ground (arith, h)) (ground (arith, h)) hier
Step-IsHierarchy t t' (dimensions context command columns h) hier =
    kept t t' (ground (arith, h)) (ground (arith, h)) hier
Step-IsHierarchy t t' (warehouses context command columns h) hier =
    kept t t' (ground (arith, h)) (ground (arith, h)) hier

-- From tables whose units and regions are ranked, in particular from empty ones, every sequence of the
-- handlers that create scopes leads to such tables: the parent of a unit or region stands in its table,
-- is of the same tenant and company, and has a smaller rank, so that no row is above itself.
pub Reach-IsHierarchy : {t t' : Tables} → Reach t t' → IsHierarchy t → IsHierarchy t'
Reach-IsHierarchy here hier = hier
Reach-IsHierarchy (next {s} {t} {u} path step) hier =
    Step-IsHierarchy t u step (Reach-IsHierarchy path hier)
