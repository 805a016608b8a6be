-- ===== src/Organization/Tables.antt =====
-- models.py and the scope types of contracts.py. A table is a dict by the identifier of its rows, which
-- is a number; codes, names and other columns that no operation reads are left out.
use businessos.Prelude.{ℕ, String, Bool, Option, List}
use businessos.Prelude.Dict.{Dict}
use businessos.Tenants.Periods.{TemporalValue}

pub data OrganizationScopeType : Type 0 where
  enterprise_group legal_entity company org_unit region operating_site warehouse
        financial_dimension :
      OrganizationScopeType

-- The value of the enumeration, as the columns and lineages hold it.
unfoldable pub value : OrganizationScopeType → String
value enterprise_group = "enterprise_group"
value legal_entity = "legal_entity"
value company = "company"
value org_unit = "org_unit"
value region = "region"
value operating_site = "operating_site"
value warehouse = "warehouse"
value financial_dimension = "financial_dimension"

-- The columns that every table of scopes has, and its own.
pub record Row (Columns : Type 0) : Type 0 where
  pub tenant_id : ℕ
  pub active : Bool
  pub effective_from : Option TemporalValue
  pub effective_until : Option TemporalValue
  pub columns : Columns

pub record LegalEntity : Type 0 where
  pub enterprise_group_id : ℕ

pub record Company : Type 0 where
  pub legal_entity_id : ℕ

-- The columns of an organization unit; a region has no unit type.
pub record Branch : Type 0 where
  pub company_id : ℕ
  pub parent_id : Option ℕ
  pub unit_type : String

pub record OperatingSite : Type 0 where
  pub company_id : ℕ
  pub region_id : Option ℕ
  pub site_type_id : ℕ

pub record FinancialDimension : Type 0 where
  pub company_id : ℕ
  pub dimension_type : String

pub record Warehouse : Type 0 where
  pub company_id : ℕ
  pub operating_site_id : Option ℕ

pub record SiteType : Type 0 where
  pub tenant_id : ℕ
  pub active : Bool

-- `PrincipalReference`: the type of the principal and its identifier.
abbrev pub Principal : Type 0
Principal = String × ℕ

pub record Assignment : Type 0 where
  pub tenant_id : ℕ
  pub principal : Principal
  pub scope : String × ℕ
  pub valid_from : Option ℕ
  pub valid_until : Option ℕ

pub record DelegatedScope : Type 0 where
  pub tenant_id : ℕ
  pub grantor : Principal
  pub recipient : Principal
  pub scope : String × ℕ
  pub allowed_actions : List String
  pub valid_from : Option ℕ
  pub valid_until : Option ℕ
  pub authority_source_kind : Option String
  pub parent_delegation_id : Option ℕ
  pub revoked_at : Option ℕ

pub record Tables : Type 0 where
  pub enterprise_groups : Dict ℕ (Row (Unit {0}))
  pub legal_entities : Dict ℕ (Row LegalEntity)
  pub companies : Dict ℕ (Row Company)
  pub org_units : Dict ℕ (Row Branch)
  pub regions : Dict ℕ (Row Branch)
  pub site_types : Dict ℕ SiteType
  pub operating_sites : Dict ℕ (Row OperatingSite)
  pub financial_dimensions : Dict ℕ (Row FinancialDimension)
  pub warehouses : Dict ℕ (Row Warehouse)
  pub assignments : Dict ℕ Assignment
  pub delegated_scopes : Dict ℕ DelegatedScope
