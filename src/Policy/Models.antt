-- ===== src/Policy/Models.antt =====
-- foundations/policy/src/businessos_policy/models.py: the records that policy decisions read. An
-- identifier and an instant are numbers; instants are compared by their order.
use businessos.Prelude.{ℕ, String, Bool, true, false, Option}

pub data ScopeType : Type 0 where
  tenant company legal_entity operating_site business_unit : ScopeType

-- `is` on the members of the enumeration.
abbrev pub is_scope : ScopeType → ScopeType → Bool
is_scope tenant tenant = true
is_scope company company = true
is_scope legal_entity legal_entity = true
is_scope operating_site operating_site = true
is_scope business_unit business_unit = true
is_scope _ _ = false

pub record SubjectRoleAssignmentRecord : Type 0 where
  pub tenant_id : ℕ
  pub subject_id : ℕ
  pub subject_type : Option String
  pub role_id : ℕ
  pub scope_type : ScopeType
  pub scope_id : Option ℕ
  pub valid_from : Option ℕ
  pub valid_to : Option ℕ

pub record DelegationGrantRecord : Type 0 where
  pub tenant_id : ℕ
  pub delegator_id : ℕ
  pub delegator_type : Option String
  pub delegatee_id : ℕ
  pub delegatee_type : Option String
  pub role_id : ℕ
  pub scope_type : ScopeType
  pub scope_id : Option ℕ
  pub valid_from : ℕ
  pub valid_to : ℕ
  pub is_revoked : Bool

pub record RoleRecord : Type 0 where
  pub id : ℕ
  pub tenant_id : ℕ
  pub parent_role_id : Option ℕ

pub record RolePermissionRecord : Type 0 where
  pub tenant_id : ℕ
  pub role_id : ℕ
  pub permission_code : String

pub data RecordAccessScope : Type 0 where
  all_records owned organization denied : RecordAccessScope

pub record RecordPolicyRecord : Type 0 where
  pub tenant_id : ℕ
  pub resource_type : String
  pub role_id : Option ℕ
  pub access_scope : RecordAccessScope
  pub condition_expression : Option String

-- `attributes` are read only by the conditions, which get the whole context. The timestamp is an
-- aware instant, as the columns that it is compared with are; the naive default of the source, which
-- such a comparison refuses with a TypeError, is not an instance.
pub record PolicyContext : Type 0 where
  pub tenant_id : ℕ
  pub subject_id : ℕ
  pub company_id : Option ℕ
  pub legal_entity_id : Option ℕ
  pub operating_site_id : Option ℕ
  pub business_unit_id : Option ℕ
  pub record_owner_id : Option ℕ
  pub record_scope_type : Option ScopeType
  pub record_scope_id : Option ℕ
  pub timestamp : ℕ

pub data FieldAccessType : Type 0 where
  read write mask deny : FieldAccessType

pub record FieldPolicyRecord : Type 0 where
  pub tenant_id : ℕ
  pub resource_type : String
  pub field_name : String
  pub role_id : Option ℕ
  pub access_type : FieldAccessType
  pub mask_pattern : Option String
  pub condition_expression : Option String

-- Amounts are numbers of the smallest unit of all that are compared.
pub data ℤ : Type 0 where
  pos : ℕ → ℤ
  negsuc : ℕ → ℤ

pub record ApprovalLimitRecord : Type 0 where
  pub tenant_id : ℕ
  pub action_type : String
  pub currency : String
  pub amount_limit : ℤ
  pub role_id : Option ℕ
  pub subject_id : Option ℕ
  pub valid_from : Option ℕ
  pub valid_to : Option ℕ

pub record SegregationOfDutiesRuleRecord : Type 0 where
  pub code : String
  pub permission_a : String
  pub permission_b : String

pub record SupportAccessGrantRecord : Type 0 where
  pub id : ℕ
  pub tenant_id : ℕ
  pub support_principal_id : ℕ
  pub valid_from : ℕ
  pub valid_to : ℕ
  pub revoked_at : Option ℕ
