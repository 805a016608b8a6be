-- ===== src/Registry/Jobs/Dispatching.antt =====
-- When a job's handler is called, and what the dispatch leaves behind.
use businessos.Prelude.{
  String, true, false, Option, none, some, ◌==◌, nat_eq, string_eq, option_eq, pair_eq, ◌≡◌, ◌≢◌,
  refl, ap, sym, ◌∙◌, arith, Bool-cases, Option-cases, inl, inr, ==-refl,
}
use businessos.Prelude.Dict.{get, get-put}
use businessos.Errors.{Error, Result, ok, err}
use businessos.Activation.{
  ContributionGate, ContributionGeneration, GenerationState, generation_eq, generation_eqb_iff,
  enter, leave, begin_work, end_work, with_state, is_active_state,
}
use businessos.Registry.{OwnedValue, resolve, admit_entry}
use businessos.Registry.Jobs.{
  TenantContext, RequestContext, Job, JobHandler, PolicyEvaluator, JobHandlerRegistry, handled,
  invoke_admitted, invoke,
}

-- What must have been so when the handler of `entry` was called.
pub record IsAuthorized (authorizer : Option PolicyEvaluator) (gate : Option ContributionGate)
    (job : Job) (context : RequestContext) (r : JobHandlerRegistry) (entry : OwnedValue JobHandler)
    : Type 0 where
  pub tenant : TenantContext
  pub trusted : context.tenant ≡ some tenant
  pub same_tenant : job.tenant_id ≡ tenant.tenant_id
  pub resolved : resolve gate job.job_type r.handlers ≡ ok entry
  pub permitted :
      (key : String)
      → get r.permissions (entry.name, entry.generation) ≡ some (some key)
      → (is_allowed : PolicyEvaluator) × (authorizer ≡ some is_allowed)
        × (is_allowed tenant.principal_id tenant key ≡ true)

permitted_of_handled :
    (authorizer : Option PolicyEvaluator) (entry found : OwnedValue JobHandler) (job : Job)
    (context : RequestContext) (r : JobHandlerRegistry) (tenant : TenantContext)
    (result : Result (Unit {0}))
    → context.tenant ≡ some tenant
    → invoke_admitted authorizer entry job context r ≡ handled found result
    → (key : String) → get r.permissions (entry.name, entry.generation) ≡ some (some key)
    → (is_allowed : PolicyEvaluator) × (authorizer ≡ some is_allowed)
      × (is_allowed tenant.principal_id tenant key ≡ true)
permitted_of_handled none entry found job context r tenant result trusted h key needs =
    absurd (unfold invoke_admitted in ground (arith, h, needs))
permitted_of_handled (some is_allowed) entry found job context r tenant result trusted h key needs =
    (is_allowed, refl, unfold invoke_admitted in ground (arith, h, needs, trusted))

handled_entry :
    (authorizer : Option PolicyEvaluator) (entry found : OwnedValue JobHandler) (job : Job)
    (context : RequestContext) (r : JobHandlerRegistry) (result : Result (Unit {0}))
    → invoke_admitted authorizer entry job context r ≡ handled found result
    → (entry ≡ found) × (entry.value job context ≡ result)
unfolding invoke_admitted
handled_entry authorizer entry found job context r result h = ground (arith, h)

module _ (authorizer : Option PolicyEvaluator) (gate : Option ContributionGate) (job : Job)
    (context : RequestContext) (r : JobHandlerRegistry) (entry : OwnedValue JobHandler)
    (result : Result (Unit {0}))
    (h : (invoke authorizer gate job context r).0 ≡ handled entry result) where
  not-handled_of_anonymous : context.tenant ≢ none
  unfolding invoke
  not-handled_of_anonymous anonymous = ground (arith, h, anonymous)

  not-handled_of_foreign :
      (tenant : TenantContext)
      → context.tenant ≡ some tenant
      → (job.tenant_id == tenant.tenant_id) ≢ false
  unfolding invoke
  not-handled_of_foreign tenant trusted foreign = ground (arith, h, trusted, foreign)

  not-handled_of_unresolved :
      (tenant : TenantContext) (e : Error)
      → context.tenant ≡ some tenant
      → resolve gate job.job_type r.handlers ≢ err e
  unfolding invoke
  not-handled_of_unresolved tenant e trusted is = ground (arith, h, trusted, is)

  admitted_of_handled :
      (tenant : TenantContext) (found : OwnedValue JobHandler)
      → context.tenant ≡ some tenant
      → resolve gate job.job_type r.handlers ≡ ok found
      → invoke_admitted authorizer found job context r ≡ handled entry result
  unfolding invoke
  admitted_of_handled tenant found trusted is = ground (arith, h, trusted, is)

  of_resolved :
      (tenant : TenantContext) (found : OwnedValue JobHandler)
      → context.tenant ≡ some tenant
      → (job.tenant_id == tenant.tenant_id) ≡ true
      → resolve gate job.job_type r.handlers ≡ ok found
      → IsAuthorized authorizer gate job context r entry × (result ≡ entry.value job context)
  of_resolved tenant found trusted same is =
      let inner = admitted_of_handled tenant found trusted is in
      let (at, value) = handled_entry authorizer found entry job context r result inner in
      (
        record {
          tenant = tenant;
          trusted = trusted;
          same_tenant = (nat_eq.eqb_iff job.tenant_id tenant.tenant_id).0 same;
          resolved = is ∙ ap ok at;
          permitted = λ key needs.
              permitted_of_handled authorizer found entry job context r tenant result trusted inner
                key
                (ap (λ (x : OwnedValue JobHandler). get r.permissions (x.name, x.generation)) at
                  ∙ needs);
        },
        sym value ∙ ap (λ (x : OwnedValue JobHandler). x.value job context) at,
      )

  handled_resolved :
      (tenant : TenantContext) (found : Result (OwnedValue JobHandler))
      → context.tenant ≡ some tenant
      → (job.tenant_id == tenant.tenant_id) ≡ true
      → resolve gate job.job_type r.handlers ≡ found
      → IsAuthorized authorizer gate job context r entry × (result ≡ entry.value job context)
  handled_resolved tenant (err e) trusted same is =
      absurd (not-handled_of_unresolved tenant e trusted is)
  handled_resolved tenant (ok found) trusted same is = of_resolved tenant found trusted same is

-- A handler is called only for the tenant of the trusted context, only if its entry is active under
-- the job's type, and only if the authorizer allows its permission, where it has one. Its result
-- is the result of the job.
pub invoke_handled :
    (authorizer : Option PolicyEvaluator) (gate : Option ContributionGate) (job : Job)
    (context : RequestContext) (r : JobHandlerRegistry) (entry : OwnedValue JobHandler)
    (result : Result (Unit {0}))
    → (invoke authorizer gate job context r).0 ≡ handled entry result
    → IsAuthorized authorizer gate job context r entry × (result ≡ entry.value job context)
invoke_handled authorizer gate job context r entry result h = elim (Option-cases context.tenant) [
  | inl anonymous ↦
      absurd (not-handled_of_anonymous authorizer gate job context r entry result h anonymous)
  | inr (tenant, trusted) ↦ elim (Bool-cases (job.tenant_id == tenant.tenant_id)) [
    | inr foreign ↦
        absurd (
          not-handled_of_foreign authorizer gate job context r entry result h tenant trusted
            foreign)
    | inl same ↦
        handled_resolved authorizer gate job context r entry result h tenant _ trusted same refl
  ]
]

-- The event of an entry tells whether work is in flight.
abbrev pub HasEvent : ContributionGate → Type 0
HasEvent s =
    (j : ContributionGeneration) (st : GenerationState)
    → get s.states j ≡ some st
    → st.drained ≡ (st.in_flight == 0)

begin-end :
    (st : GenerationState) → st.drained ≡ (st.in_flight == 0) → end_work (begin_work st) ≡ st
begin-end st h = ground (arith, h)

enter_known :
    (s : ContributionGate) (g : ContributionGeneration) (st : GenerationState)
    → get s.states g ≡ some st
    → is_active_state st.lifecycle ≡ true
    → enter (some g) s ≡ (ok tt, with_state s g (begin_work st))
unfolding enter
enter_known s g st is live = rw (is, enter, live)

leave_known :
    (s : ContributionGate) (g : ContributionGeneration) (st : GenerationState)
    → get s.states g ≡ some st
    → leave (some g) s ≡ with_state s g (end_work st)
unfolding leave
leave_known s g st is = rw (is, leave)

active_of_entered :
    (s : ContributionGate) (g : ContributionGeneration)
    → (enter (some g) s).0 ≡ ok tt
    → (st : GenerationState) × (get s.states g ≡ some st) × (is_active_state st.lifecycle ≡ true)
unfolding enter
active_of_entered s g done = ground (arith, done)

-- Work that is admitted and ended leaves every entry as it was.
pub leave-enter :
    (s : ContributionGate) (g : Option ContributionGeneration) (j : ContributionGeneration)
    → HasEvent s
    → (enter g s).0 ≡ ok tt
    → get (leave g (enter g s).1).states j ≡ get s.states j
leave-enter s none j h done = unfold enter leave in refl
leave-enter s (some g) j h done =
    let (st, is, live) = active_of_entered s g done in
    let s' = with_state s g (begin_work st) in
    let inside : get s'.states g ≡ some (begin_work st) = rw (get-put, ==-refl) in
    rw (enter_known s g st is live, leave_known s' g (begin_work st) inside)
      (rw (get-put, get-put) (ground (arith, is, begin-end st (h g st is), generation_eqb_iff g j)))

enter_refused :
    (s : ContributionGate) (g : Option ContributionGeneration) (e : Error)
    → (enter g s).0 ≡ err e
    → (enter g s).1 ≡ s
unfolding enter
enter_refused s none e h = absurd (cc)
enter_refused s (some g) e h = ground (arith, h)

abbrev pub entry_in : Option ContributionGate → ContributionGeneration → Option GenerationState
entry_in none j = none
entry_in (some s) j = get s.states j

module _ (authorizer : Option PolicyEvaluator) (s : ContributionGate) (job : Job)
    (context : RequestContext) (r : JobHandlerRegistry) (j : ContributionGeneration)
    (h : HasEvent s) where
  balanced_entered :
      (tenant : TenantContext) (found : OwnedValue JobHandler) (admission : Result (Unit {0}))
      → context.tenant ≡ some tenant
      → resolve (some s) job.job_type r.handlers ≡ ok found
      → (enter found.generation s).0 ≡ admission
      → entry_in (invoke authorizer (some s) job context r).1 j ≡ get s.states j
  unfolding invoke admit_entry
  balanced_entered tenant found (ok _) trusted is done =
      ground (arith, trusted, is, done, leave-enter s found.generation j h done)
  balanced_entered tenant found (err e) trusted is done =
      ground (arith, trusted, is, done, enter_refused s found.generation e done)

  balanced_resolved :
      (tenant : TenantContext) (found : Result (OwnedValue JobHandler))
      → context.tenant ≡ some tenant
      → resolve (some s) job.job_type r.handlers ≡ found
      → entry_in (invoke authorizer (some s) job context r).1 j ≡ get s.states j
  balanced_resolved tenant (ok found) trusted is = balanced_entered tenant found _ trusted is refl
  balanced_resolved tenant (err e) trusted is = unfold invoke in ground (arith, trusted, is)

  -- A dispatch that nothing interleaves with leaves every generation of the gate as it was, whether
  -- it raised or the handler was called.
  pub invoke_balanced : entry_in (invoke authorizer (some s) job context r).1 j ≡ get s.states j
  invoke_balanced = elim (Option-cases context.tenant) [
    | inl anonymous ↦ unfold invoke in ground (arith, anonymous)
    | inr (tenant, trusted) ↦ balanced_resolved tenant _ trusted refl
  ]
