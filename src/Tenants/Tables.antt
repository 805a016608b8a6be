-- ===== src/Tenants/Tables.antt =====
-- models.py and the enumerations of contracts.py: the rows that the handlers read and write. A table
-- is a dict by the columns of its unique constraint; an identifier is a number.
use businessos.Prelude.{ℕ, String, Bool, Option, List}
use businessos.Prelude.Dict.{Dict}
use businessos.Tenants.Periods.{TemporalValue}

pub data TenantStatus : Type 0 where
  requested provisioning active suspended retention_hold terminating deleted : TenantStatus

pub data Operation : Type 0 where
  export delete restore : Operation

pub data OperationState : Type 0 where
  pending completed skipped : OperationState

pub record TenantRow : Type 0 where
  pub slug : String
  pub status : TenantStatus
  pub lifecycle_version : ℕ

pub record StatusHistoryRow : Type 0 where
  pub tenant_id : ℕ
  pub from_status : Option TenantStatus
  pub to_status : TenantStatus

pub record OperationRow : Type 0 where
  pub lifecycle_version : ℕ
  pub operation : Operation
  pub state : OperationState
  pub depends_on : Option ℕ

pub record EntitlementRow : Type 0 where
  pub enabled : Bool
  pub effective_from : Option TemporalValue
  pub effective_until : Option TemporalValue

pub record QuotaRow : Type 0 where
  pub limit_value : ℕ
  pub unit : String

pub record Tables : Type 0 where
  pub tenants : Dict ℕ TenantRow
  -- The last row comes first.
  pub status_history : List StatusHistoryRow
  -- By tenant and identifier.
  pub operations : Dict (ℕ × ℕ) OperationRow
  pub entitlements : Dict (ℕ × String) EntitlementRow
  pub quotas : Dict (ℕ × String) QuotaRow
