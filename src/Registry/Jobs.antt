-- ===== src/Registry/Jobs.antt =====
-- platform/src/businessos/jobs.py (the handler registry), with the authorizer of
-- platform/src/businessos/security.py and the context of platform/src/businessos/context.py.
pub mod Dispatching
use businessos.Prelude.{
  ℕ, String, Bool, true, false, not, Option, none, some, List, [], ◌∷◌, ◌==◌, Eq, nat_eq, string_eq,
  option_eq, pair_eq, if◌then◌else◌, ◌≡◌, ◌≢◌, refl, arith,
}
use businessos.Prelude.Dict.{Dict, get, put, remove}
use businessos.Errors.{Error, Result, ok, err, business_error, not_found_error, runtime_error}
use businessos.Activation.{ContributionGate, ContributionGeneration, generation_eq, enter, leave}
use businessos.Registry
use businessos.Registry.{OwnedValue, OwnedRegistry, register, resolve, admit_entry, entries}

-- Identifiers are numbers, of which the program uses equality only.
pub record TenantContext : Type 0 where
  pub tenant_id : ℕ
  pub principal_id : ℕ

pub record RequestContext : Type 0 where
  pub tenant : Option TenantContext

pub record Job : Type 0 where
  pub job_id : ℕ
  pub tenant_id : ℕ
  pub job_type : String

-- What a handler does is not this module's: a handler answers with its result.
abbrev pub JobHandler : Type 0
JobHandler = Job → RequestContext → Result (Unit {0})

-- The evaluator behind an `Authorizer`: `is_allowed(principal_id, tenant, permission)`.
abbrev pub PolicyEvaluator : Type 0
PolicyEvaluator = ℕ → TenantContext → String → Bool

pub record JobHandlerRegistry : Type 0 where
  pub handlers : OwnedRegistry JobHandler
  pub permissions : Dict (String × Option ContributionGeneration) (Option String)

unfoldable pub add :
    String
    → String
    → JobHandler
    → Option ContributionGeneration
    → Option String
    → JobHandlerRegistry
    → Result (Unit {0}) × JobHandlerRegistry
add job_type owner handler generation permission r =
    let (result, handlers') = register job_type owner handler generation r.handlers in
    elim result [
      | err e ↦ (err e, r)
      | ok _ ↦ (
        ok tt,
        record {
          handlers = handlers';
          permissions = put r.permissions (job_type, generation) permission;
        },
      )
    ]

-- `Authorizer.require`
unfoldable pub authorize : PolicyEvaluator → RequestContext → String → Result (Unit {0})
authorize is_allowed context permission = elim context.tenant [
  | none ↦ err (business_error "unauthenticated" 401)
  | some tenant ↦
      if is_allowed tenant.principal_id tenant permission
      then ok tt
      else err (business_error "forbidden" 403)
]

-- What became of a job: it raised before its handler was called, or the handler was called.
pub data Dispatch : Type 0 where
  raised : Error → Dispatch
  handled : OwnedValue JobHandler → Result (Unit {0}) → Dispatch

-- Inside the admission: the permission test, and the call of the handler.
unfoldable pub invoke_admitted :
    Option PolicyEvaluator
    → OwnedValue JobHandler
    → Job
    → RequestContext
    → JobHandlerRegistry
    → Dispatch
unfolding authorize
invoke_admitted authorizer entry job context r =
    elim (get r.permissions (entry.name, entry.generation)) [
      | none ↦ handled entry (entry.value job context)
      | some permission ↦ elim permission [
        | none ↦ handled entry (entry.value job context)
        | some key ↦ elim authorizer [
          | none ↦ raised runtime_error
          | some is_allowed ↦ elim (authorize is_allowed context key) [
            | err e ↦ raised e
            | ok _ ↦ handled entry (entry.value job context)
          ]
        ]
      ]
    ]

abbrev leave_entry :
    Option ContributionGate → Option ContributionGeneration → Option ContributionGate
leave_entry none g = none
leave_entry (some gate) g = some (leave g gate)

-- The gate comes back as it is after the admission has been left.
unfoldable pub invoke :
    Option PolicyEvaluator
    → Option ContributionGate
    → Job
    → RequestContext
    → JobHandlerRegistry
    → Dispatch × Option ContributionGate
unfolding invoke_admitted
invoke authorizer gate job context r = elim context.tenant [
  | none ↦ (raised (business_error "unauthenticated" 401), gate)
  | some tenant ↦
      if not (job.tenant_id == tenant.tenant_id)
      then (raised (business_error "forbidden" 403), gate)
      else elim (resolve gate job.job_type r.handlers) [
        | err e ↦ (raised e, gate)
        | ok entry ↦
            let (admission, gate') = admit_entry gate entry in
            elim admission [
              | err e ↦ (raised e, gate')
              | ok _ ↦ (
                invoke_admitted authorizer entry job context r,
                leave_entry gate' entry.generation,
              )
            ]
      ]
]

removed_keys :
    ContributionGeneration
    → List (OwnedValue JobHandler)
    → List (String × Option ContributionGeneration)
removed_keys g [] = []
removed_keys g (entry ∷ rest) =
    let more = removed_keys g rest in
    if entry.generation == some g then (entry.name, entry.generation) ∷ more else more

remove_keys :
    List (String × Option ContributionGeneration)
    → Dict (String × Option ContributionGeneration) (Option String)
    → Dict (String × Option ContributionGeneration) (Option String)
remove_keys [] d = d
remove_keys (key ∷ rest) d = remove_keys rest (remove d key)

unfoldable pub remove_owner_generation :
    Option ContributionGate → ContributionGeneration → JobHandlerRegistry → JobHandlerRegistry
unfolding removed_keys remove_keys
remove_owner_generation gate g r = record {
  handlers = Registry.remove_owner_generation g r.handlers;
  permissions = remove_keys (removed_keys g (entries true gate r.handlers)) r.permissions;
}
