-- ===== src/Tests/Lifecycles.antt =====
-- Two installed modules, "app" depending on "base", and calls that raise or do not.
use businessos.Prelude.{true, false, none, some, [], ◌∷◌, ◌≡◌, refl, arith, string_eq}
use businessos.Prelude.Dict.{get, put}
use businessos.Errors.{ok, err, configuration_error}
use businessos.Modules.Lifecycle.{
  installed, enabled, uninstalling, RegisteredModule, Registry, Calls, validate_active_dependencies,
  prepare, launch, fail_activation, activation_error, activate, enable, has_enabled_dependents,
  settle, deactivate, disable, retire_registration, finish_retire, retire,
}
use businessos.Modules.Lifecycle.Histories.{
  Reach, here, next, enables, disables, retires, IsWell, Step-IsWell, Reach-IsWell,
}
use businessos.Modules.Lifecycle.Final.{final_forever, failed_retire_stuck}
use businessos.Modules.Lifecycle.Soundness.{IsClean}
use businessos.Modules.Lifecycle.Sequences.{
  disable_each, disable_all, undo_enabled, enable_each, enable_all, disable_all-IsClean,
}
use businessos.Prelude.{if◌then◌else◌, ◌==◌, String, string_eq}
use businessos.Errors.{timeout_error}
use businessos.Modules.Lifecycle.{disabled}
use businessos.Tests.Planning.{base, app}

abbrev quiet : Calls
quiet = record {
  factory = none;
  manifest_changed = false;
  capability_missing = false;
  fence_enter = none;
  bind = none;
  register = none;
  start = none;
  fence_exit = none;
  publish = none;
  stop = none;
  rollback = none;
  stop_accepting = none;
  remove = none;
  retire_rollback = none;
  retire_owner = none;
}

abbrev unretired : Calls
unretired = record quiet { retire_owner = some configuration_error }

abbrev idle_app : RegisteredModule
idle_app = record {
  manifest = app;
  state = installed;
  error = false;
  registration = false;
  started = false;
}

abbrev running_app : RegisteredModule
running_app = record idle_app { state = enabled; registration = true; started = true }

abbrev installed_two : Registry
installed_two = ("base", record idle_app { manifest = base }) ∷ ("app", idle_app) ∷ []

abbrev based : Registry
based = (enable "base" quiet installed_two).1

abbrev running : Registry
running = (enable "app" quiet based).1

abbrev unfinished_app : Registry
unfinished_app = (retire "app" unretired installed_two).1

lifecycle_code : Unit {0}
unfolding validate_active_dependencies prepare launch fail_activation activation_error activate
    enable has_enabled_dependents settle deactivate disable retire_registration finish_retire retire
    get put
lifecycle_code = tt

-- The application needs the base, and keeps it enabled.
needs_base : (enable "app" quiet installed_two).0 ≡ err configuration_error
unfolding lifecycle_code
needs_base = refl

base_kept : disable true "base" quiet running ≡ (err configuration_error, running)
unfolding lifecycle_code
base_kept = refl

two-IsWell : IsWell installed_two
unfolding get
two-IsWell = record {
  sound = λ id m is. ground (arith, is);
  fed = λ id m is on. ground (arith, is, on);
}

Reach-running : Reach installed_two running
Reach-running = next (next here (enables "base" quiet)) (enables "app" quiet)

Reach-IsWell_example : IsWell running
Reach-IsWell_example = Reach-IsWell Reach-running two-IsWell

app_installed : get installed_two "app" ≡ some idle_app
unfolding get
app_installed = refl

app_free : has_enabled_dependents "app" installed_two ≡ false
unfolding lifecycle_code
app_free = refl

app_raises : retire_registration unretired ≡ err configuration_error
unfolding lifecycle_code
app_raises = refl

app_unfinished : get unfinished_app "app" ≡ some (record idle_app { state = uninstalling })
unfolding lifecycle_code
app_unfinished = refl

final_forever_example :
    get (enable "base" quiet unfinished_app).1 "app"
    ≡ some (record idle_app { state = uninstalling })
final_forever_example =
    final_forever "app" (record idle_app { state = uninstalling })
      (next here (enables "base" quiet)) (Step-IsWell (retires "app" unretired) two-IsWell)
      app_unfinished refl

-- The running application is disabled first.
abbrev stuck_app : Registry
stuck_app = (retire "app" unretired running).1

app_lowered : (disable false "app" unretired running).0 ≡ ok tt
unfolding lifecycle_code
app_lowered = refl

app_running : get running "app" ≡ some running_app
unfolding lifecycle_code
app_running = refl

app_unneeded : has_enabled_dependents "app" running ≡ false
unfolding lifecycle_code
app_unneeded = refl

failed_retire_stuck_example :
    (m' : RegisteredModule) × ((retire "app" unretired running).0 ≡ err configuration_error)
    × (get (disable true "base" quiet stuck_app).1 "app" ≡ some m')
    × (m'.state ≡ uninstalling)
    × ((again : Calls)
        → (retire "app" again (disable true "base" quiet stuck_app).1).0 ≡ err configuration_error)
    × ((again : Calls)
        → enable "app" again (disable true "base" quiet stuck_app).1
          ≡ (ok tt, (disable true "base" quiet stuck_app).1))
failed_retire_stuck_example =
    failed_retire_stuck "app" unretired configuration_error running_app
      (Reach-IsWell Reach-running two-IsWell) app_running refl app_unneeded app_lowered app_raises
      (next here (disables "base" quiet))

sequence_code : Unit {0}
unfolding disable_each disable_all undo_enabled enable_each enable_all lifecycle_code
sequence_code = tt

abbrev all_quiet : String → Calls
all_quiet id = quiet

-- The application cannot start: the base, that was enabled for it, is disabled again.
abbrev failing_app : String → Calls
failing_app id = if id == "app" then record quiet { start = some timeout_error } else quiet

enable_all_fails :
    (enable_all failing_app all_quiet ("base" ∷ "app" ∷ []) installed_two).0 ≡ err timeout_error
unfolding sequence_code
enable_all_fails = refl

base_disabled :
    get (enable_all failing_app all_quiet ("base" ∷ "app" ∷ []) installed_two).1 "base"
    ≡ some (record idle_app { manifest = base; state = disabled })
unfolding sequence_code
base_disabled = refl

all_disabled : (disable_all all_quiet ("base" ∷ "app" ∷ []) running).0 ≡ ok tt
unfolding sequence_code
all_disabled = refl

app_disabled :
    get (disable_all all_quiet ("base" ∷ "app" ∷ []) running).1 "app"
    ≡ some (record idle_app { state = disabled })
unfolding sequence_code
app_disabled = refl

disable_all-IsClean_example : IsClean (record idle_app { state = disabled })
disable_all-IsClean_example =
    disable_all-IsClean all_quiet ("base" ∷ "app" ∷ []) running
      (Reach-IsWell Reach-running two-IsWell).sound all_disabled "app"
      (record idle_app { state = disabled }) refl app_disabled
