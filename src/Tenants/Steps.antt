-- ===== src/Tenants/Steps.antt =====
-- The handlers as steps, and what a step does to the tables.
use businessos.Prelude.{
  ℕ, String, Bool, true, false, Option, none, some, List, [], ◌∷◌, nat_eq, string_eq, pair_eq, ◌+◌,
  ◌≡◌, inl, inr, refl, ap, arith, Bool-cases, Option-cases,
}
use businessos.Prelude.Dict.{get, put}
use businessos.Errors.{Error, Result, ok, err, >>=-ok, Result-cases}
use businessos.Registry.Jobs.{RequestContext}
use businessos.Tenants.Periods.{TemporalValue}
use businessos.Tenants.Tables.{
  TenantStatus, requested, Operation, OperationState, pending, completed, skipped, TenantRow,
  OperationRow, Tables,
}
use businessos.Tenants.Lifecycle.{
  Event, is_transition, require_tenant, provision, transition, transition_own, work_of,
  prerequisite, request_work, set_status, finish, find_work, is_stale, run_lifecycle_hooks,
  set_entitlement, set_quota, is_ready, is_same_operation,
}
use businessos.Tenants.Hooks.{run_hooks}

-- A successful handler, and what it leaves; an event handler leaves tables in any case.
pub data Step (t : Tables) : Tables → Type 0 where
  provisions :
      (context : RequestContext) (tenant_id : ℕ) (slug : String) (events : List Event) (t' : Tables)
      → provision context tenant_id slug t ≡ ok (events, t')
      → Step t t'
  transitions :
      (context : RequestContext) (event_id tenant_id : ℕ) (target : TenantStatus)
      (events : List Event) (t' : Tables)
      → transition context event_id tenant_id target t ≡ ok (events, t')
      → Step t t'
  runs :
      (outcome : String → Option Error) (owners : List String) (tenant_id event_id : ℕ)
      (operation : Operation)
      → Step t (run_lifecycle_hooks outcome owners tenant_id event_id operation t).1
  entitles :
      (context : RequestContext) (tenant_id : ℕ) (capability : String) (enabled : Bool)
      (start end : Option TemporalValue) (t' : Tables)
      → set_entitlement context tenant_id capability enabled start end t ≡ ok t'
      → Step t t'
  limits :
      (context : RequestContext) (tenant_id : ℕ) (quota : String) (limit : ℕ) (unit : String)
      (t' : Tables)
      → set_quota context tenant_id quota limit unit t ≡ ok t'
      → Step t t'

pub data Reach (t : Tables) : Tables → Type 0 where
  here : Reach t t
  next : {s u : Tables} → Reach t s → Step s u → Reach t u

-- What a step does to the tenants, the history and the operations.
pub data Change (t t' : Tables) : Type 0 where
  -- Nothing.
  kept :
      t'.tenants ≡ t.tenants
      → t'.status_history ≡ t.status_history
      → t'.operations ≡ t.operations
      → Change t t'
  -- A new tenant.
  added :
      (tenant_id : ℕ) (slug : String)
      → get t.tenants tenant_id ≡ none
      → t'.tenants
        ≡ put t.tenants tenant_id
            (record { slug = slug; status = requested; lifecycle_version = 0 })
      → t'.status_history
        ≡ record { tenant_id = tenant_id; from_status = none; to_status = requested }
          ∷ t.status_history
      → t'.operations ≡ t.operations
      → Change t t'
  -- A transition without work.
  moved :
      (tenant_id : ℕ) (row : TenantRow) (target : TenantStatus)
      → get t.tenants tenant_id ≡ some row
      → is_transition row.status target ≡ true
      → t' ≡ set_status tenant_id row target t
      → Change t t'
  -- A transition with work.
  worked :
      (tenant_id id : ℕ) (row : TenantRow) (target : TenantStatus) (operation : Operation)
      (dependency : Option ℕ)
      → get t.tenants tenant_id ≡ some row
      → is_transition row.status target ≡ true
      → get t.operations (tenant_id, id) ≡ none
      → prerequisite (some operation) tenant_id row t ≡ ok dependency
      → t' ≡ record (set_status tenant_id row target t) {
        operations =
            put t.operations
              (tenant_id, id)
              (record {
                lifecycle_version = row.lifecycle_version + 1;
                operation = operation;
                state = pending;
                depends_on = dependency;
              });
      }
      → Change t t'
  -- The end of some work.
  ended :
      (tenant_id id : ℕ) (work : OperationRow) (state : OperationState)
      → get t.operations (tenant_id, id) ≡ some work
      → work.state ≡ pending
      → t' ≡ finish tenant_id id work state t
      → Change t t'

provision-Change :
    (context : RequestContext) (tenant_id : ℕ) (slug : String) (t t' : Tables) (events : List Event)
    → provision context tenant_id slug t ≡ ok (events, t')
    → Change t t'
unfolding provision require_tenant
provision-Change context tenant_id slug t t' events h =
    elim (Option-cases (get t.tenants tenant_id)) [
      | inl fresh ↦
          added tenant_id slug fresh (ground (arith, h, nat_eq.eqb_iff)) (ground (arith, h))
            (ground (arith, h))
      | inr (_, taken) ↦ absurd (ground (arith, h, taken))
    ]

transition_own-Change :
    (event_id tenant_id : ℕ) (target : TenantStatus) (t t' : Tables) (events : List Event)
    → transition_own event_id tenant_id target t ≡ ok (events, t')
    → Change t t'
unfolding transition_own
transition_own-Change event_id tenant_id target t t' events h =
    elim (Option-cases (get t.tenants tenant_id)) [
      | inl absent ↦ absurd (ground (arith, h, absent))
      | inr (row, at) ↦ elim (Bool-cases (is_transition row.status target)) [
        | inr wrong ↦ absurd (ground (arith, h, at, wrong))
        | inl allowed ↦ go row at allowed (work_of row.status target) refl
      ]
    ]
  where
    worked_by :
        (row : TenantRow)
        → get t.tenants tenant_id ≡ some row
        → is_transition row.status target ≡ true
        → (operation : Operation) → work_of row.status target ≡ some operation
        → (d : Result (Option ℕ)) → prerequisite (some operation) tenant_id row t ≡ d
        → Change t t'
    worked_by row at allowed operation w (err e) d = absurd (ground (arith, h, at, allowed, w, d))
    worked_by row at allowed operation w (ok dependency) d =
        elim (Option-cases (get t.operations (tenant_id, event_id))) [
          | inl fresh ↦
              worked tenant_id event_id row target operation dependency at allowed fresh d
                (unfold request_work in ground (arith, h, at, allowed, w, d, fresh))
          | inr (_, taken) ↦
              absurd (unfold request_work in ground (arith, h, at, allowed, w, d, taken))
        ]

    go :
        (row : TenantRow)
        → get t.tenants tenant_id ≡ some row
        → is_transition row.status target ≡ true
        → (w : Option Operation) → work_of row.status target ≡ w
        → Change t t'
    go row at allowed none w =
        moved tenant_id row target at allowed (ground (arith, h, at, allowed, w))
    go row at allowed (some operation) w =
        worked_by row at allowed operation w (prerequisite (some operation) tenant_id row t) refl

-- What the work that is to be done is.
pub record IsFound (tenant_id event_id : ℕ) (operation : Operation) (t : Tables)
    (tenant : TenantRow) (work : OperationRow) : Type 0 where
  pub tenant_row : get t.tenants tenant_id ≡ some tenant
  pub work_row : get t.operations (tenant_id, event_id) ≡ some work
  pub is_open : work.state ≡ pending
  pub same_operation : is_same_operation work.operation operation ≡ true
  pub ready : is_ready tenant_id work.depends_on t.operations ≡ true

module _ (tenant_id event_id : ℕ) (operation : Operation) (t : Tables) where
  pub find_work-IsFound :
      (tenant : TenantRow) (work : OperationRow)
      → find_work tenant_id event_id operation t ≡ ok (tenant, some work)
      → IsFound tenant_id event_id operation t tenant work
  unfolding find_work
  find_work-IsFound tenant work h = elim (Option-cases (get t.tenants tenant_id)) [
    | inl absent ↦ absurd (ground (arith, h, absent))
    | inr (row, at) ↦ elim (Option-cases (get t.operations (tenant_id, event_id))) [
      | inl absent ↦ absurd (ground (arith, h, at, absent))
      | inr (w, is) ↦ record {
        tenant_row = ground (arith, h, at, is);
        work_row = ground (arith, h, at, is);
        is_open = ground (arith, h, at, is);
        same_operation = ground (arith, h, at, is);
        ready = ground (arith, h, at, is);
      }
    ]
  ]

  module _ (outcome : String → Option Error) (owners : List String) where
    -- What a run does.
    pub data Runs : Type 0 where
      idle :
          (run_lifecycle_hooks outcome owners tenant_id event_id operation t).1 ≡ t
          → (run_lifecycle_hooks outcome owners tenant_id event_id operation t).2 ≡ []
          → Runs
      passed :
          (tenant : TenantRow) (work : OperationRow)
          → IsFound tenant_id event_id operation t tenant work
          → run_lifecycle_hooks outcome owners tenant_id event_id operation t
            ≡ (ok tt, finish tenant_id event_id work skipped t, [])
          → Runs
      failed :
          (tenant : TenantRow) (work : OperationRow) (e : Error)
          → IsFound tenant_id event_id operation t tenant work
          → is_stale tenant work ≡ false
          → run_lifecycle_hooks outcome owners tenant_id event_id operation t
            ≡ (err e, t, (run_hooks outcome operation owners).1)
          → Runs
      called :
          (tenant : TenantRow) (work : OperationRow)
          → IsFound tenant_id event_id operation t tenant work
          → is_stale tenant work ≡ false
          → run_lifecycle_hooks outcome owners tenant_id event_id operation t ≡ (
            ok tt,
            finish tenant_id event_id work completed t,
            (run_hooks outcome operation owners).1,
          )
          → Runs

    pub run_cases : Runs
    unfolding run_lifecycle_hooks
    run_cases = go (find_work tenant_id event_id operation t) refl
      where
        found :
            (tenant : TenantRow) (work : OperationRow)
            → find_work tenant_id event_id operation t ≡ ok (tenant, some work)
            → (r : Result (Unit {0})) → (run_hooks outcome operation owners).0 ≡ r
            → Runs
        found tenant work f r is = elim (Bool-cases (is_stale tenant work)) [
          | inl old ↦ passed tenant work (find_work-IsFound tenant work f) (ground (arith, f, old))
          | inr new ↦ elim (Result-cases r) [
            | inl (_, good) ↦
                called tenant work (find_work-IsFound tenant work f) new
                  (ground (arith, f, new, is, good))
            | inr (e, bad) ↦
                failed tenant work e (find_work-IsFound tenant work f) new
                  (ground (arith, f, new, is, bad))
          ]
        ]

        go :
            (f : Result (TenantRow × Option OperationRow))
            → find_work tenant_id event_id operation t ≡ f
            → Runs
        go (err e) f = idle (ground (arith, f)) (ground (arith, f))
        go (ok (tenant, none)) f = idle (ground (arith, f)) (ground (arith, f))
        go (ok (tenant, some work)) f =
            found tenant work f (run_hooks outcome operation owners).0 refl

    run-Change : Change t (run_lifecycle_hooks outcome owners tenant_id event_id operation t).1
    run-Change = elim run_cases [
      | idle is none_called ↦
          kept (ap (λ x. x.tenants) is) (ap (λ x. x.status_history) is) (ap (λ x. x.operations) is)
      | passed tenant work f is ↦
          ended tenant_id event_id work skipped f.work_row f.is_open (ap (λ x. x.1) is)
      | failed tenant work e f new is ↦
          kept (ap (λ x. x.1.tenants) is) (ap (λ x. x.1.status_history) is)
            (ap (λ x. x.1.operations) is)
      | called tenant work f new is ↦
          ended tenant_id event_id work completed f.work_row f.is_open (ap (λ x. x.1) is)
    ]

entitle-Change :
    (context : RequestContext) (tenant_id : ℕ) (capability : String) (enabled : Bool)
    (start end : Option TemporalValue) (t t' : Tables)
    → set_entitlement context tenant_id capability enabled start end t ≡ ok t'
    → Change t t'
unfolding set_entitlement
entitle-Change context tenant_id capability enabled start end t t' h =
    kept (ground (arith, h)) (ground (arith, h)) (ground (arith, h))

limit-Change :
    (context : RequestContext) (tenant_id : ℕ) (quota : String) (limit : ℕ) (unit : String)
    (t t' : Tables)
    → set_quota context tenant_id quota limit unit t ≡ ok t'
    → Change t t'
unfolding set_quota
limit-Change context tenant_id quota limit unit t t' h =
    kept (ground (arith, h)) (ground (arith, h)) (ground (arith, h))

transition-Change :
    (context : RequestContext) (event_id tenant_id : ℕ) (target : TenantStatus) (t t' : Tables)
    (events : List Event)
    → transition context event_id tenant_id target t ≡ ok (events, t')
    → Change t t'
unfolding transition
transition-Change context event_id tenant_id target t t' events h =
    let (tenant, _, own) =
      >>=-ok (require_tenant context tenant_id)
        (λ tenant. transition_own event_id tenant.tenant_id target t) (events, t') h in
    transition_own-Change event_id tenant.tenant_id target t t' events own

pub Step-Change : (t t' : Tables) → Step t t' → Change t t'
Step-Change t t' (provisions context tenant_id slug events _ h) =
    provision-Change context tenant_id slug t t' events h
Step-Change t t' (transitions context event_id tenant_id target events _ h) =
    transition-Change context event_id tenant_id target t t' events h
Step-Change t _ (runs outcome owners tenant_id event_id operation) =
    run-Change tenant_id event_id operation t outcome owners
Step-Change t t' (entitles context tenant_id capability enabled start end _ h) =
    entitle-Change context tenant_id capability enabled start end t t' h
Step-Change t t' (limits context tenant_id quota limit unit _ h) =
    limit-Change context tenant_id quota limit unit t t' h
