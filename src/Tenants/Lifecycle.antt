-- ===== src/Tenants/Lifecycle.antt =====
-- The handlers of module.py. A handler that raises leaves the tables as they were, since its unit of
-- work is rolled back; the hooks that it called stay called.
use businessos.Prelude.{
  ℕ, String, Bool, true, false, not, ◌&&◌, ◌||◌, Option, none, some, List, [], ◌∷◌, ◌++◌, ◌==◌,
  nat_eq, string_eq, pair_eq, if◌then◌else◌, any, is_some, is_none, ◌+◌,
}
use businessos.Prelude.Dict.{Dict, get, put, values}
use businessos.Errors.{Error, Result, ok, err, business_error, base_exception, ◌>>=◌, ◌>>◌, require}
use businessos.Registry.Jobs.{TenantContext, RequestContext}
use businessos.Tenants.Periods.{TemporalValue, validate_effective_period}
use businessos.Tenants.Tables.{
  TenantStatus, requested, provisioning, active, suspended, retention_hold, terminating, deleted,
  Operation, export, delete, restore, OperationState, pending, completed, skipped, TenantRow,
  OperationRow, Tables,
}
use businessos.Tenants.Hooks.{run_hooks}

-- The events that a handler emits.
pub data Event : Type 0 where
  tenant_created : (slug : String) → Event
  tenant_activated : Event
  tenant_suspended : Event
  work_requested : (event_id : ℕ) (operation : Operation) → Event

-- target in _TRANSITIONS[current]
unfoldable pub is_transition : TenantStatus → TenantStatus → Bool
is_transition requested provisioning = true
is_transition provisioning active = true
is_transition provisioning terminating = true
is_transition active suspended = true
is_transition active retention_hold = true
is_transition active terminating = true
is_transition suspended active = true
is_transition suspended retention_hold = true
is_transition suspended terminating = true
is_transition retention_hold active = true
is_transition retention_hold terminating = true
is_transition terminating deleted = true
is_transition _ _ = false

unfoldable pub require_tenant : RequestContext → ℕ → Result TenantContext
require_tenant context expected = elim context.tenant [
  | none ↦ err (business_error "unauthenticated" 401)
  | some t ↦ if not (t.tenant_id == expected) then err (business_error "forbidden" 403) else ok t
]

abbrev pub not_found : Error
not_found = business_error "not_found" 404

abbrev pub integrity_error : Error
integrity_error = base_exception "IntegrityError"

-- The row that a statement reads, where the handler raises if there is none.
abbrev pub one_row {ℓ} : {A : Type ℓ} → Option A → Error → Result A
one_row none e = err e
one_row (some a) e = ok a

unfoldable pub provision : RequestContext → ℕ → String → Tables → Result (List Event × Tables)
unfolding require_tenant
provision context tenant_id slug t = do
  tenant ← require_tenant context tenant_id
  require
      (is_none (get t.tenants tenant.tenant_id)
        && not (any (λ (r : TenantRow). r.slug == slug) (values t.tenants)))
      integrity_error
  ok (
    tenant_created slug ∷ [],
    record t {
      tenants =
          put t.tenants tenant.tenant_id
            (record { slug = slug; status = requested; lifecycle_version = 0 });
      status_history =
          record { tenant_id = tenant_id; from_status = none; to_status = requested }
          ∷ t.status_history;
    },
  )

-- The lifecycle work of a transition.
unfoldable pub work_of : TenantStatus → TenantStatus → Option Operation
work_of current terminating = some export
work_of current deleted = some delete
work_of retention_hold active = some restore
work_of current target = none

abbrev pub is_export : Operation → Bool
is_export export = true
is_export _ = false

abbrev pub is_completed : OperationState → Bool
is_completed completed = true
is_completed _ = false

-- The export of the tenant at the version: its identifier and its row.
unfoldable pub export_at : ℕ → ℕ → Dict (ℕ × ℕ) OperationRow → Option (ℕ × OperationRow)
export_at tenant_id version [] = none
export_at tenant_id version (((tenant, id), row) ∷ rest) =
    let later = export_at tenant_id version rest in
    if (tenant == tenant_id) && (row.lifecycle_version == version) && is_export row.operation
    then some (id, row)
    else later

abbrev pub is_delete : Option Operation → Bool
is_delete (some delete) = true
is_delete _ = false

abbrev pub completed_id : Option (ℕ × OperationRow) → Result (Option ℕ)
completed_id none = err (business_error "lifecycle_prerequisite_pending" 409)
completed_id (some (id, row)) =
    if is_completed row.state
    then ok (some id)
    else err (business_error "lifecycle_prerequisite_pending" 409)

-- The export that the work depends on.
unfoldable pub prerequisite : Option Operation → ℕ → TenantRow → Tables → Result (Option ℕ)
unfolding export_at
prerequisite work tenant_id row t =
    if is_delete work
    then completed_id (export_at tenant_id row.lifecycle_version t.operations)
    else ok none

abbrev pub status_events : TenantStatus → List Event
status_events active = tenant_activated ∷ []
status_events suspended = tenant_suspended ∷ []
status_events _ = []

-- A version of the tenant that has its work already.
abbrev pub has_version : ℕ → ℕ → Dict (ℕ × ℕ) OperationRow → Bool
has_version tenant_id version [] = false
has_version tenant_id version (((tenant, id), row) ∷ rest) =
    ((tenant == tenant_id) && (row.lifecycle_version == version))
    || has_version tenant_id version rest

-- The insert of the lifecycle work, with its unique constraints, and its event.
unfoldable pub request_work :
    Option Operation → ℕ → ℕ → ℕ → Option ℕ → Tables → Result (List Event × Tables)
request_work none event_id tenant_id version dependency t = ok ([], t)
request_work (some operation) event_id tenant_id version dependency t = do
  require
      (is_none (get t.operations (tenant_id, event_id))
        && not (has_version tenant_id version t.operations))
      integrity_error
  ok (
    work_requested event_id operation ∷ [],
    record t {
      operations =
          put t.operations (tenant_id, event_id)
            (record {
              lifecycle_version = version;
              operation = operation;
              state = pending;
              depends_on = dependency;
            });
    },
  )

-- The update of the tenant and the insert into the history.
abbrev pub set_status : ℕ → TenantRow → TenantStatus → Tables → Tables
set_status tenant_id row target t = record t {
  tenants =
      put t.tenants tenant_id
        (record row { status = target; lifecycle_version = row.lifecycle_version + 1 });
  status_history =
      record { tenant_id = tenant_id; from_status = some row.status; to_status = target }
      ∷ t.status_history;
}

-- `_transition` of a tenant in its own context; `event_id` is the identifier that the event of the
-- lifecycle work would get.
unfoldable pub transition_own : ℕ → ℕ → TenantStatus → Tables → Result (List Event × Tables)
unfolding is_transition work_of prerequisite request_work
transition_own event_id tenant_id target t = do
  row ← one_row (get t.tenants tenant_id) not_found
  require (is_transition row.status target) (business_error "invalid_transition" 409)
  let work = work_of row.status target
  dependency ← prerequisite work tenant_id row t
  (events, t') ←
      request_work work event_id tenant_id (row.lifecycle_version + 1) dependency
        (set_status tenant_id row target t)
  ok (status_events target ++ events, t')

unfoldable pub transition :
    RequestContext → ℕ → ℕ → TenantStatus → Tables → Result (List Event × Tables)
unfolding require_tenant transition_own
transition context event_id tenant_id target t = do
  tenant ← require_tenant context tenant_id
  transition_own event_id tenant.tenant_id target t

-- The status in which the work is not stale.
abbrev pub is_expected : Operation → TenantStatus → Bool
is_expected restore active = true
is_expected export terminating = true
is_expected delete deleted = true
is_expected _ _ = false

abbrev pub is_same_operation : Operation → Operation → Bool
is_same_operation export export = true
is_same_operation delete delete = true
is_same_operation restore restore = true
is_same_operation _ _ = false

abbrev pub is_pending : OperationState → Bool
is_pending pending = true
is_pending _ = false

abbrev pub is_ready : ℕ → Option ℕ → Dict (ℕ × ℕ) OperationRow → Bool
is_ready tenant_id none operations = true
is_ready tenant_id (some id) operations = elim (get operations (tenant_id, id)) [
  | none ↦ false
  | some row ↦ is_completed row.state
]

abbrev pub finish : ℕ → ℕ → OperationRow → OperationState → Tables → Tables
finish tenant_id id work state t = record t {
  operations = put t.operations (tenant_id, id) (record work { state = state });
}

-- `_run_lifecycle_hooks` up to the hooks: the work to be done, or none if it was done before.
unfoldable pub find_work : ℕ → ℕ → Operation → Tables → Result (TenantRow × Option OperationRow)
find_work tenant_id event_id operation t = do
  tenant ← one_row (get t.tenants tenant_id) not_found
  work ←
      one_row (get t.operations (tenant_id, event_id)) (business_error "invalid_lifecycle_work" 409)
  require (is_same_operation work.operation operation) (business_error "invalid_lifecycle_work" 409)
  if not (is_pending work.state) then ok (tenant, none) else do
    require (is_ready tenant_id work.depends_on t.operations)
        (business_error "lifecycle_prerequisite_pending" 409)
    ok (tenant, some work)

unfoldable pub is_stale : TenantRow → OperationRow → Bool
is_stale tenant work =
    not (tenant.lifecycle_version == work.lifecycle_version)
    || not (is_expected work.operation tenant.status)

-- The result, the tables and the owners whose hooks were called.
unfoldable pub run_lifecycle_hooks :
    (String → Option Error)
    → List String
    → ℕ
    → ℕ
    → Operation
    → Tables
    → Result (Unit {0}) × Tables × List String
run_lifecycle_hooks outcome owners tenant_id event_id operation t =
    elim (find_work tenant_id event_id operation t) [
      | err e ↦ (err e, t, [])
      | ok (tenant, none) ↦ (ok tt, t, [])
      | ok (tenant, some work) ↦
          if is_stale tenant work
          then (ok tt, finish tenant_id event_id work skipped t, [])
          else (let (result, called) = run_hooks outcome operation owners in
              elim result [
                | err e ↦ (err e, t, called)
                | ok _ ↦ (ok tt, finish tenant_id event_id work completed t, called)
              ])
    ]

unfoldable pub require_existing : ℕ → Tables → Result (Unit {0})
require_existing tenant_id t = require (is_some (get t.tenants tenant_id)) not_found

unfoldable pub set_entitlement :
    RequestContext
    → ℕ
    → String
    → Bool
    → Option TemporalValue
    → Option TemporalValue
    → Tables
    → Result Tables
unfolding require_tenant require_existing
set_entitlement context tenant_id capability enabled effective_from effective_until t = do
  tenant ← require_tenant context tenant_id
  validate_effective_period effective_from effective_until
  require_existing tenant.tenant_id t
  ok (record t {
    entitlements =
        put t.entitlements (tenant.tenant_id, capability)
          (record {
            enabled = enabled;
            effective_from = effective_from;
            effective_until = effective_until;
          });
  })

unfoldable pub set_quota : RequestContext → ℕ → String → ℕ → String → Tables → Result Tables
unfolding require_tenant require_existing
set_quota context tenant_id quota limit_value unit t = do
  tenant ← require_tenant context tenant_id
  require_existing tenant.tenant_id t
  ok (record t {
    quotas =
        put t.quotas (tenant.tenant_id, quota) (record { limit_value = limit_value; unit = unit });
  })
