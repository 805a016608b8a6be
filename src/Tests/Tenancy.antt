-- ===== src/Tests/Tenancy.antt =====
-- One tenant, from its provisioning to its deletion.
use businessos.Prelude.{
  String, true, false, ◌||◌, ◌&&◌, Option, none, some, List, [], ◌∷◌, ◌≡◌, ◌≢◌, refl, arith, nat_eq,
  pair_eq, string_eq,
}
use businessos.Prelude.Dict.{get, put}
use businessos.Prelude.Sorting.{sorted, insert_sorted, str_leb}
use businessos.Errors.{Result, Error, ok, err, business_error}
use businessos.Registry.Jobs.{RequestContext}
use businessos.Tenants.Periods.{
  aware, date, validate_effective_period, effective_at, effective_at_split,
}
use businessos.Tenants.Tables.{Tables, provisioning, active, terminating, deleted, export, delete}
use businessos.Tenants.Hooks.{register, call_order, call_hooks, run_hooks}
use businessos.Tenants.Lifecycle.{
  Event, is_transition, require_tenant, provision, work_of, export_at, prerequisite, request_work,
  transition_own, transition, find_work, is_stale, run_lifecycle_hooks, require_existing,
  set_entitlement, set_quota,
}
use businessos.Tenants.Steps.{Reach, here, next, provisions, transitions, runs}
use businessos.Tenants.Consistency.{IsConsistent}
use businessos.Tenants.Invariant.{Reach-IsConsistent}
use businessos.Tenants.Work.{IsDeletable, delete_hooks_lem, hooks_once}

tenant_code : Unit {0}
unfolding validate_effective_period effective_at register call_order call_hooks run_hooks
    is_transition require_tenant provision work_of export_at prerequisite request_work
    transition_own transition find_work is_stale run_lifecycle_hooks require_existing
    set_entitlement set_quota get put sorted insert_sorted str_leb
tenant_code = tt

abbrev empty : Tables
empty = record {
  tenants = [];
  status_history = [];
  operations = [];
  entitlements = [];
  quotas = [];
}

empty-IsConsistent : IsConsistent empty
unfolding get
empty-IsConsistent = record {
  distinct = tt;
  bounded = λ t i w is. absurd (ground (arith, is));
  exported = λ t i w is. absurd (ground (arith, is));
  walked = ((λ t r is. absurd (ground (arith, is))), (λ t is. tt));
}

abbrev admin : RequestContext
admin = record { tenant = some (record { tenant_id = 7; principal_id = 3 }) }

abbrev tables_of : Result (List Event × Tables) → Tables
tables_of (ok (events, t)) = t
tables_of (err e) = empty

abbrev events_of : Result (List Event × Tables) → List Event
events_of (ok (events, t)) = events
events_of (err e) = []

abbrev calm : String → Option Error
calm owner = none

abbrev owners : List String
owners = "sales" ∷ "ledger" ∷ []

abbrev t1 : Tables
t1 = tables_of (provision admin 7 "acme" empty)

abbrev t2 : Tables
t2 = tables_of (transition admin 99 7 provisioning t1)

abbrev t3 : Tables
t3 = tables_of (transition admin 100 7 terminating t2)

abbrev t4 : Tables
t4 = (run_lifecycle_hooks calm owners 7 100 export t3).1

abbrev t5 : Tables
t5 = tables_of (transition admin 101 7 deleted t4)

step1 : provision admin 7 "acme" empty ≡ ok (events_of (provision admin 7 "acme" empty), t1)
unfolding tenant_code
step1 = refl

step2 :
    transition admin 99 7 provisioning t1
    ≡ ok (events_of (transition admin 99 7 provisioning t1), t2)
unfolding tenant_code
step2 = refl

step3 :
    transition admin 100 7 terminating t2
    ≡ ok (events_of (transition admin 100 7 terminating t2), t3)
unfolding tenant_code
step3 = refl

step5 : transition admin 101 7 deleted t4 ≡ ok (events_of (transition admin 101 7 deleted t4), t5)
unfolding tenant_code
step5 = refl

-- The export must be done first.
early_deletion :
    transition admin 101 7 deleted t3 ≡ err (business_error "lifecycle_prerequisite_pending" 409)
unfolding tenant_code
early_deletion = refl

backwards : transition admin 102 7 active t5 ≡ err (business_error "invalid_transition" 409)
unfolding tenant_code
backwards = refl

Reach-t5 : Reach empty t5
Reach-t5 =
    next
      (next
        (next
          (next
            (next here
              (provisions admin 7 "acme" (events_of (provision admin 7 "acme" empty)) t1 step1))
            (transitions admin 99 7 provisioning (events_of (transition admin 99 7 provisioning t1))
              t2 step2))
          (transitions admin 100 7 terminating (events_of (transition admin 100 7 terminating t2))
            t3 step3))
        (runs calm owners 7 100 export))
      (transitions admin 101 7 deleted (events_of (transition admin 101 7 deleted t4)) t5 step5)

Reach-IsConsistent_example : IsConsistent t5
Reach-IsConsistent_example = Reach-IsConsistent Reach-t5 empty-IsConsistent

called_last_first : (run_lifecycle_hooks calm owners 7 101 delete t5).2 ≡ "sales" ∷ "ledger" ∷ []
unfolding tenant_code
called_last_first = refl

some_called : (run_lifecycle_hooks calm owners 7 101 delete t5).2 ≢ []
unfolding tenant_code
some_called e = absurd (ground (arith, e))

delete_hooks_lem_example : IsDeletable 7 101 t5
delete_hooks_lem_example =
    delete_hooks_lem calm owners 7 101 t5 (Reach-IsConsistent Reach-t5 empty-IsConsistent)
      some_called

deletes_well : (run_lifecycle_hooks calm owners 7 101 delete t5).0 ≡ ok tt
unfolding tenant_code
deletes_well = refl

hooks_once_example :
    (run_lifecycle_hooks calm owners 7 101 delete
      (run_lifecycle_hooks calm owners 7 101 delete t5).1).2
    ≡ []
hooks_once_example =
    hooks_once calm calm owners owners 7 101 delete delete t5 deletes_well some_called here

effective_whole : effective_at (some (aware 10)) none (aware 15) ≡ ok true
unfolding tenant_code
effective_whole = refl

effective_first : effective_at (some (aware 10)) (some (aware 15)) (aware 15) ≡ ok false
unfolding tenant_code
effective_first = refl

effective_second : effective_at (some (aware 15)) none (aware 15) ≡ ok true
unfolding tenant_code
effective_second = refl

mixed_period :
    validate_effective_period (some (date 1)) (some (aware 2))
    ≡ err (business_error "invalid_effective_dates" 422)
unfolding tenant_code
mixed_period = refl

effective_at_split_example : (true ≡ false || true) × ((false && true) ≡ false)
effective_at_split_example =
    effective_at_split (some (aware 10)) none (aware 15) (aware 15) true false true effective_whole
      effective_first effective_second
