-- ===== src/Tenants/Work.antt =====
-- When the hooks of the lifecycle work are called.
use businessos.Prelude.{
  ℕ, String, false, Option, some, List, [], ◌+◌, nat_eq, pair_eq, ◌≡◌, ◌≢◌, refl, sym, ◌∙◌, ap,
  arith,
}
use businessos.Prelude.Dict.{get, get-put}
use businessos.Errors.{Error, ok}
use businessos.Tenants.Tables.{
  deleted, Operation, delete, pending, completed, TenantRow, OperationRow, Tables,
}
use businessos.Tenants.Lifecycle.{is_stale, run_lifecycle_hooks}
use businessos.Tenants.Steps.{
  Change, kept, added, moved, worked, ended, Step-Change, Reach, here, next, IsFound, idle, passed,
  failed, called, run_cases,
}
use businessos.Tenants.Consistency.{HasExport, IsConsistent, put_done}

-- The tenant is deleted, and its export is completed.
pub record IsDeletable (tenant_id event_id : ℕ) (t : Tables) : Type 0 where
  pub tenant : TenantRow
  pub work : OperationRow
  pub tenant_row : get t.tenants tenant_id ≡ some tenant
  pub is_deleted : tenant.status ≡ deleted
  pub work_row : get t.operations (tenant_id, event_id) ≡ some work
  pub current : tenant.lifecycle_version ≡ work.lifecycle_version
  pub exported : HasExport t.operations tenant_id work

module _ (outcome : String → Option Error) (owners : List String) (tenant_id event_id : ℕ)
    (t : Tables) where
  deletes :
      (tenant : TenantRow) (work : OperationRow)
      → IsConsistent t
      → IsFound tenant_id event_id delete t tenant work
      → is_stale tenant work ≡ false
      → IsDeletable tenant_id event_id t
  unfolding is_stale
  deletes tenant work c f new = record {
    tenant = tenant;
    work = work;
    tenant_row = f.tenant_row;
    is_deleted = ground (arith, f.same_operation, new);
    work_row = f.work_row;
    current = ground (arith, new, nat_eq.eqb_iff tenant.lifecycle_version work.lifecycle_version);
    exported = c.exported tenant_id event_id work f.work_row (ground (arith, f.same_operation));
  }

  -- The hooks of a deletion are called only for a tenant that is deleted, for the work of its current
  -- version, and after an export of the tenant was completed.
  pub delete_hooks_lem :
      IsConsistent t
      → (run_lifecycle_hooks outcome owners tenant_id event_id delete t).2 ≢ []
      → IsDeletable tenant_id event_id t
  delete_hooks_lem c some_called = elim (run_cases tenant_id event_id delete t outcome owners) [
    | idle _ none_called ↦ absurd (some_called none_called)
    | passed tenant work f is ↦ absurd (some_called (ap (λ x. x.2) is))
    | failed tenant work e f new is ↦ deletes tenant work c f new
    | called tenant work f new is ↦ deletes tenant work c f new
  ]

-- The work is completed.
abbrev IsDone : ℕ → ℕ → Tables → Type 0
IsDone tenant_id id t =
    (work : OperationRow) × (get t.operations (tenant_id, id) ≡ some work)
    × (work.state ≡ completed)

Change-IsDone :
    (tenant_id id : ℕ) (t t' : Tables)
    → Change t t'
    → IsDone tenant_id id t
    → IsDone tenant_id id t'
Change-IsDone tenant_id id t t' (kept _ _ same) (work, at, done) =
    (work, ap (λ d. get d (tenant_id, id)) same ∙ at, done)
Change-IsDone tenant_id id t t' (added _ _ _ _ _ same) (work, at, done) =
    (work, ap (λ d. get d (tenant_id, id)) same ∙ at, done)
Change-IsDone tenant_id id t t' (moved _ _ _ _ _ same) (work, at, done) =
    (work, ap (λ x. get x.operations (tenant_id, id)) same ∙ at, done)
Change-IsDone tenant_id id t t' (worked j k row target operation dependency _ _ new _ same)
      (work, at, done) =
    (
      work,
      ap (λ x. get x.operations (tenant_id, id)) same
          ∙ put_done t.operations (j, k)
              (record {
                lifecycle_version = row.lifecycle_version + 1;
                operation = operation;
                state = pending;
                depends_on = dependency;
              })
              (λ old is _. ground (arith, new, is)) (tenant_id, id) work at done,
      done,
    )
Change-IsDone tenant_id id t t' (ended j k old state is is_open same) (work, at, done) = (
  work,
  ap (λ x. get x.operations (tenant_id, id)) same
      ∙ put_done t.operations (j, k) (record old { state = state })
          (λ old' is' done'. ground (arith, is, is', is_open, done')) (tenant_id, id) work at done,
  done,
)

Reach-IsDone :
    (tenant_id id : ℕ) {t t' : Tables} → Reach t t' → IsDone tenant_id id t → IsDone tenant_id id t'
Reach-IsDone tenant_id id here d = d
Reach-IsDone tenant_id id (next {s} {u} h step) d =
    Change-IsDone tenant_id id s u (Step-Change s u step) (Reach-IsDone tenant_id id h d)

-- If a run for some work succeeds and called a hook, then no later run for that work calls a hook,
-- whatever handlers run in between.
pub hooks_once :
    (outcome again : String → Option Error) (owners later : List String) (tenant_id event_id : ℕ)
    (operation other : Operation) (t : Tables) {t' : Tables}
    → (run_lifecycle_hooks outcome owners tenant_id event_id operation t).0 ≡ ok tt
    → (run_lifecycle_hooks outcome owners tenant_id event_id operation t).2 ≢ []
    → Reach (run_lifecycle_hooks outcome owners tenant_id event_id operation t).1 t'
    → (run_lifecycle_hooks again later tenant_id event_id other t').2 ≡ []
hooks_once outcome again owners later tenant_id event_id operation other t {t'} good some_called h =
    elim (run_cases tenant_id event_id operation t outcome owners) [
      | idle _ none_called ↦ absurd (some_called none_called)
      | passed tenant work f is ↦ absurd (some_called (ap (λ x. x.2) is))
      | failed tenant work e f new is ↦ absurd (ground (arith, sym good ∙ ap (λ x. x.0) is))
      | called tenant work f new is ↦ quiet (
          Reach-IsDone tenant_id event_id h (
            record work { state = completed },
            ap (λ x. get x.1.operations (tenant_id, event_id)) is
                ∙ ground (
                  arith,
                  get-put t.operations (tenant_id, event_id) (tenant_id, event_id)
                      (record work { state = completed }),
                ),
            refl,
          ))
    ]
  where
    quiet :
        IsDone tenant_id event_id t'
        → (run_lifecycle_hooks again later tenant_id event_id other t').2 ≡ []
    quiet (work, at, done) = elim (run_cases tenant_id event_id other t' again later) [
      | idle _ none_called ↦ none_called
      | passed tenant w f is ↦ ap (λ x. x.2) is
      | failed tenant w e f new is ↦ absurd (ground (arith, at, done, f.work_row, f.is_open))
      | called tenant w f new is ↦ absurd (ground (arith, at, done, f.work_row, f.is_open))
    ]
