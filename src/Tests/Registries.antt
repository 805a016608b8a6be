-- ===== src/Tests/Registries.antt =====
-- Registries with one flag and one job handler of the module "sales".
use businessos.Prelude.{
  true, false, none, some, [], ◌∷◌, ◌≡◌, refl, ◌==◌, option_eq, arith, string_eq, nat_eq,
}
use businessos.Prelude.Dict.{get, put, filter_items}
use businessos.Errors.{Result, ok, err, not_found_error}
use businessos.Activation.{generation_eq, is_active}
use businessos.Registry.{OwnedValue, OwnedRegistry, register, resolve, admit_entry, is_active_entry}
use businessos.Registry
use businessos.Registry.Laws.{IsOwned, closed_entry}
use businessos.Registry.Features
use businessos.Registry.Features.{
  FeatureFlag, FeatureFlagRegistry, is_enabled, set_override, remove_overrides,
}
use businessos.Registry.Jobs
use businessos.Registry.Jobs.{
  Job, JobHandler, JobHandlerRegistry, TenantContext, RequestContext, PolicyEvaluator, authorize,
  invoke, invoke_admitted, handled, raised,
}
use businessos.Registry.Jobs.Dispatching.{
  IsAuthorized, HasEvent, entry_in, invoke_handled, invoke_balanced,
}
use businessos.Tests.Gate.{
  gate_code, sales, published, working, closed, drained, Reach-working, closes, Reach-drained,
}

registry_code : Unit {0}
unfolding register resolve Registry.get_value is_active_entry is_active admit_entry
    Registry.remove_owner_generation Features.add set_override is_enabled
    Features.remove_owner_generation Jobs.add authorize invoke invoke_admitted get put filter_items
    gate_code
registry_code = tt

abbrev beta : FeatureFlag
beta = record { key = "beta"; description = "beta screens"; default = false }

abbrev no_flags : FeatureFlagRegistry
no_flags = record { flags = record { values = [] }; overrides = [] }

abbrev beta_entry : OwnedValue FeatureFlag
beta_entry = record { name = "beta"; owner = "sales"; value = beta; generation = some sales }

abbrev with_beta : FeatureFlagRegistry
with_beta = record {
  flags = record { values = ("beta", beta_entry) ∷ [] };
  overrides = ("beta", true) ∷ [];
}

beta_overridden :
    (set_override
      (some published.gate)
      "beta"
      true
      (Features.add "sales" beta (some sales) no_flags).1).1
    ≡ with_beta
unfolding registry_code
beta_overridden = refl

enabled_beta : is_enabled (some published.gate) "beta" with_beta ≡ ok true
unfolding registry_code
enabled_beta = refl

beta-IsOwned : IsOwned with_beta.flags
unfolding get
beta-IsOwned = record {
  single = (refl, tt);
  named = λ name entry is. ground (arith, is, string_eq.eqb_iff "beta" name);
}

beta_known : get with_beta.flags.values "beta" ≡ some beta_entry
unfolding get
beta_known = refl

remove_overrides_example :
    ((beta_entry.generation == some sales) ≡ true
      → (get (Features.remove_owner_generation sales with_beta).flags.values "beta" ≡ none)
        × (get (Features.remove_owner_generation sales with_beta).overrides "beta" ≡ none))
    × ((beta_entry.generation == some sales) ≡ false
        → (get (Features.remove_owner_generation sales with_beta).flags.values "beta"
            ≡ some beta_entry)
          × (get (Features.remove_owner_generation sales with_beta).overrides "beta"
              ≡ get with_beta.overrides "beta"))
remove_overrides_example =
    remove_overrides sales with_beta "beta" beta_entry beta-IsOwned beta_known

closed_entry_example :
    (resolve (some drained.gate) "beta" with_beta.flags ≡ err not_found_error)
    × (admit_entry (some drained.gate) beta_entry ≡ (err not_found_error, some drained.gate))
closed_entry_example =
    closed_entry working with_beta.flags "beta" beta_entry sales closed.closing beta_known refl
      Reach-working closes Reach-drained (tt, tt)

-- A job of tenant 7, whose handler wants the permission "sales.post".
abbrev handler : JobHandler
handler job context = ok tt

abbrev job_entry : OwnedValue JobHandler
job_entry = record { name = "post"; owner = "sales"; value = handler; generation = some sales }

abbrev handlers : JobHandlerRegistry
handlers = record {
  handlers = record { values = ("post", job_entry) ∷ [] };
  permissions = (("post", some sales), some "sales.post") ∷ [];
}

abbrev post : Job
post = record { job_id = 1; tenant_id = 7; job_type = "post" }

abbrev trusted : RequestContext
trusted = record { tenant = some (record { tenant_id = 7; principal_id = 3 }) }

abbrev allow_three : PolicyEvaluator
allow_three principal tenant permission = principal == 3

posts :
    (invoke (some allow_three) (some published.gate) post trusted handlers).0
    ≡ handled job_entry (ok tt)
unfolding registry_code
posts = refl

published-HasEvent : HasEvent published.gate
unfolding gate_code
published-HasEvent j st is = ground (arith, is)

invoke_handled_example :
    IsAuthorized (some allow_three) (some published.gate) post trusted handlers job_entry
    × (◌≡◌ {A = Result (Unit {0})} (ok tt) (job_entry.value post trusted))
invoke_handled_example =
    invoke_handled (some allow_three) (some published.gate) post trusted handlers job_entry (ok tt)
      posts

invoke_balanced_example :
    entry_in (invoke (some allow_three) (some published.gate) post trusted handlers).1 sales
    ≡ get published.gate.states sales
invoke_balanced_example =
    invoke_balanced (some allow_three) published.gate post trusted handlers sales published-HasEvent
