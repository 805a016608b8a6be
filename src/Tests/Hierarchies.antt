-- ===== src/Tests/Hierarchies.antt =====
-- The company, division and department of Tests/Organizing.antt, created by their handlers.
use businessos.Prelude.{ℕ, true, none, some, List, [], ◌∷◌, ◌≡◌, ◌⊎◌, refl, arith, nat_eq}
use businessos.Prelude.Dict.{get, put}
use businessos.Errors.{Error, Result, ok, err}
use businessos.Registry.Jobs.{RequestContext}
use businessos.Tenants.Periods.{validate_effective_period, effective_at, invalid_effective_period}
use businessos.Organization.Tables.{Row, Branch, Tables}
use businessos.Organization.Scopes.{
  Scope, invalid_scope, inactive_scope, require_owned, require_effective_row, parent_chain,
  append_parent_chain,
}
use businessos.Organization.Lineage.{IsAncestry}
use businessos.Organization.Structure.{
  Named, tenant_of, insert_named, check_parent, insert_branch, create_enterprise_group,
  create_legal_entity, create_company, create_org_unit, create_region, check_site,
  create_operating_site, create_financial_dimension, create_warehouse,
}
use businessos.Organization.Hierarchy.{
  IsRanked, IsHierarchy, Reach, here, next, groups, entities, companies, units, Reach-IsHierarchy,
}
use businessos.Organization.Climb.{append_parent_chain-IsAncestry}

structure_code : Unit {0}
unfolding validate_effective_period effective_at require_owned require_effective_row parent_chain
    append_parent_chain tenant_of insert_named check_parent insert_branch create_enterprise_group
    create_legal_entity create_company create_org_unit create_region check_site
    create_operating_site create_financial_dimension create_warehouse get put
structure_code = tt

abbrev empty : Tables
empty = record {
  enterprise_groups = [];
  legal_entities = [];
  companies = [];
  org_units = [];
  regions = [];
  site_types = [];
  operating_sites = [];
  financial_dimensions = [];
  warehouses = [];
  assignments = [];
  delegated_scopes = [];
}

empty-IsRanked : IsRanked []
unfolding get
empty-IsRanked = record {
  rank = λ id. 0;
  bound = 0;
  bounded = λ id row is. absurd (ground (arith, is));
  parents = λ id row p is has. absurd (ground (arith, is));
}

empty-IsHierarchy : IsHierarchy empty
empty-IsHierarchy = (empty-IsRanked, empty-IsRanked)

abbrev admin : RequestContext
admin = record { tenant = some (record { tenant_id = 7; principal_id = 5 }) }

abbrev named : ℕ → Named
named id = record { id = id; tenant_id = 7; effective_from = none; effective_until = none }

abbrev tables_of : Result Tables → Tables
tables_of (ok t) = t
tables_of (err e) = empty

abbrev t1 : Tables
t1 = tables_of (create_enterprise_group admin (named 1) empty)

abbrev t2 : Tables
t2 = tables_of (create_legal_entity admin (named 2) 1 t1)

abbrev t3 : Tables
t3 = tables_of (create_company admin (named 3) 2 t2)

abbrev division : Branch
division = record { company_id = 3; parent_id = none; unit_type = "division" }

abbrev department : Branch
department = record { company_id = 3; parent_id = some 9; unit_type = "department" }

abbrev t4 : Tables
t4 = tables_of (create_org_unit admin (named 9) division t3)

abbrev t5 : Tables
t5 = tables_of (create_org_unit admin (named 10) department t4)

creates_group : create_enterprise_group admin (named 1) empty ≡ ok t1
unfolding structure_code
creates_group = refl

creates_entity : create_legal_entity admin (named 2) 1 t1 ≡ ok t2
unfolding structure_code
creates_entity = refl

creates_company : create_company admin (named 3) 2 t2 ≡ ok t3
unfolding structure_code
creates_company = refl

creates_division : create_org_unit admin (named 9) division t3 ≡ ok t4
unfolding structure_code
creates_division = refl

creates_department : create_org_unit admin (named 10) department t4 ≡ ok t5
unfolding structure_code
creates_department = refl

-- A parent that is not there yet is refused, also where it is the row itself.
own_parent :
    create_org_unit admin (named 9) (record division { parent_id = some 9 }) t3 ≡ err invalid_scope
unfolding structure_code
own_parent = refl

abbrev reached : Reach empty t5
reached =
    next
      (next
        (next
          (next (next here (groups admin (named 1) creates_group))
            (entities admin (named 2) 1 creates_entity))
          (companies admin (named 3) 2 creates_company))
        (units admin (named 9) division creates_division))
      (units admin (named 10) department creates_department)

Reach-IsHierarchy_example : IsHierarchy t5
Reach-IsHierarchy_example = Reach-IsHierarchy reached empty-IsHierarchy

abbrev department_row : Row Branch
department_row = record {
  tenant_id = 7;
  active = true;
  effective_from = none;
  effective_until = none;
  columns = department;
}

department_stands : get t5.org_units 10 ≡ some department_row
unfolding structure_code
department_stands = refl

append_parent_chain-IsAncestry_example :
    ((chain : List Scope) × (append_parent_chain t5.org_units 7 3 "org_unit" 10 department_row
        ≡ ok chain)
      × IsAncestry t5.org_units 7 3 "org_unit" 3 10 department_row chain)
    ⊎ ((e : Error) × (append_parent_chain t5.org_units 7 3 "org_unit" 10 department_row ≡ err e)
        × ((e ≡ inactive_scope) ⊎ (e ≡ invalid_effective_period)))
append_parent_chain-IsAncestry_example =
    append_parent_chain-IsAncestry t5.org_units 7 3 10 "org_unit" department_row
      (Reach-IsHierarchy reached empty-IsHierarchy).0 department_stands refl

climbs_to_division :
    append_parent_chain t5.org_units 7 3 "org_unit" 10 department_row
    ≡ ok (("org_unit", 10) ∷ ("org_unit", 9) ∷ [])
unfolding structure_code
climbs_to_division = refl
