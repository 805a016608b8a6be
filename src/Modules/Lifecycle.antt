-- ===== src/Modules/Lifecycle.antt =====
-- `LifecycleManager` of platform/src/businessos/modules/registry.py. An operation takes what the code
-- of the module, its registration and the activation fence answer to the calls that it makes, and
-- returns the registry beside its result. The locks make each operation one step.
pub mod Soundness
pub mod Dependencies
pub mod Histories
pub mod Final
pub mod Sequences
use businessos.Prelude.{
  ℕ, String, Bool, true, false, not, ◌&&◌, ◌||◌, Option, none, some, List, [], ◌∷◌, ◌++◌, ◌==◌, Eq,
  string_eq, if◌then◌else◌, contains, any, all, map, is_some, is_none,
}
use businessos.Prelude.Dict.{Dict, get, put, values}
use businessos.Errors.{
  Error, Result, ok, err, configuration_error, not_found_error, base_exception, ◌>>=◌, ◌>>◌,
  require,
}
use businessos.Modules.Manifest.{ModuleDependency, ModuleManifest}

pub data ModuleState : Type 0 where
  available installing installed enabled disabled upgrading failed uninstalling retired :
      ModuleState

-- `started` and whether `registration` is there.
pub record RegisteredModule : Type 0 where
  pub manifest : ModuleManifest
  pub state : ModuleState
  pub error : Bool
  pub registration : Bool
  pub started : Bool

abbrev pub Registry : Type 0
Registry = Dict String RegisteredModule

-- What each call answers: `none`, or the exception that it raises. A missing fence raises none.
pub record Calls : Type 0 where
  pub factory : Option Error
  pub manifest_changed : Bool
  pub capability_missing : Bool
  pub fence_enter : Option Error
  pub bind : Option Error
  pub register : Option Error
  pub start : Option Error
  pub fence_exit : Option Error
  pub publish : Option Error
  pub stop : Option Error
  pub rollback : Option Error
  pub stop_accepting : Option Error
  pub remove : Option Error
  pub retire_rollback : Option Error
  pub retire_owner : Option Error

abbrev pub call : Option Error → Result (Unit {0})
call none = ok tt
call (some e) = err e

abbrev pub is_state_enabled : ModuleState → Bool
is_state_enabled enabled = true
is_state_enabled _ = false

-- state in {INSTALLED, DISABLED}
abbrev pub can_activate : ModuleState → Bool
can_activate installed = true
can_activate disabled = true
can_activate _ = false

abbrev pub is_enabled_in : Registry → String → Bool
is_enabled_in r id = elim (get r id) [ none ↦ false | some m ↦ is_state_enabled m.state ]

unfoldable pub validate_active_dependencies : Registry → List ModuleDependency → Result (Unit {0})
validate_active_dependencies r [] = ok tt
validate_active_dependencies r (d ∷ ds) = elim (get r d.module_id) [
  | none ↦ err not_found_error
  | some target ↦ do
    require (is_state_enabled target.state) configuration_error
    validate_active_dependencies r ds
]

-- The part of the `try` block of `_enable` up to the call of `start`, where nothing is started.
unfoldable pub prepare : Registry → RegisteredModule → Calls → Result (Unit {0})
prepare r m calls = do
  require (not calls.manifest_changed) configuration_error
  validate_active_dependencies r m.manifest.dependencies
  require (not calls.capability_missing) configuration_error
  call calls.fence_enter
  call calls.bind
  call calls.register

-- The rest of it: `start`, the exit of the fence, and the publication.
unfoldable pub launch : Calls → Result (Unit {0})
launch calls = do call calls.start; call calls.fence_exit; call calls.publish

-- The `except` block: `attempted` tells whether `start` was called.
unfoldable pub fail_activation : Bool → RegisteredModule → Calls → RegisteredModule
fail_activation attempted m calls = record m {
  state = failed;
  error = true;
  started = if attempted then is_some calls.stop else m.started;
}

-- The exception that leaves `_enable`: the first one, or a group if the rollback failed too.
unfoldable pub activation_error : Bool → Error → Calls → Error
activation_error attempted e calls =
    if (attempted && is_some calls.stop) || is_some calls.rollback
    then base_exception "BaseExceptionGroup"
    else e

unfoldable pub activate :
    String → Registry → RegisteredModule → Calls → Result (Unit {0}) × Registry
activate id r m calls = elim (call calls.factory) [
  | err e ↦ (err e, r)
  | ok _ ↦ elim (prepare r m calls) [
    | err e ↦ (err (activation_error false e calls), put r id (fail_activation false m calls))
    | ok _ ↦ elim (launch calls) [
      | err e ↦ (err (activation_error true e calls), put r id (fail_activation true m calls))
      | ok _ ↦ (
        ok tt,
        put r id (record m { state = enabled; error = false; registration = true; started = true }),
      )
    ]
  ]
]

abbrev pub is_retired : ModuleState → Bool
is_retired retired = true
is_retired _ = false

unfoldable pub enable : String → Calls → Registry → Result (Unit {0}) × Registry
enable id calls r = elim (get r id) [
  | none ↦ (err not_found_error, r)
  | some m ↦
      if is_state_enabled m.state
      then (ok tt, r)
      else if is_retired m.state
      then (err configuration_error, r)
      else if not (can_activate m.state)
      then (ok tt, r)
      else activate id r m calls
]

-- Some enabled module depends on it.
unfoldable pub has_enabled_dependents : String → Registry → Bool
has_enabled_dependents id r =
    any (λ m. is_state_enabled m.state && any (λ d. d.module_id == id) m.manifest.dependencies)
      (values r)

-- state in {ENABLED, FAILED}
abbrev pub can_deactivate : ModuleState → Bool
can_deactivate enabled = true
can_deactivate failed = true
can_deactivate _ = false

abbrev is_failed : ModuleState → Bool
is_failed failed = true
is_failed _ = false

-- What `registration.stop_accepting` raises, where there is a registration.
abbrev pub accept_error : RegisteredModule → Calls → Option Error
accept_error m calls = if m.registration then calls.stop_accepting else none

-- `module.stop()` or `registration.remove()` was called and raised.
abbrev pub stays_started : RegisteredModule → Calls → Bool
stays_started m calls = m.started && is_some calls.stop

abbrev pub stays_registered : RegisteredModule → Calls → Bool
stays_registered m calls = m.registration && is_some calls.remove

-- `_disable` from `module.stop()` on: the entry, and the result.
unfoldable pub settle : RegisteredModule → Calls → Result (Unit {0}) × RegisteredModule
settle m calls =
    if stays_started m calls || stays_registered m calls
    then (
      err (base_exception "BaseExceptionGroup"),
      record m {
        state = failed;
        error = true;
        started = stays_started m calls;
        registration = stays_registered m calls;
      },
    )
    else (
      ok tt,
      record m { state = disabled; error = false; started = false; registration = false },
    )

-- `_disable` from `stop_accepting` on.
unfoldable pub deactivate :
    String → Registry → RegisteredModule → Calls → Result (Unit {0}) × Registry
deactivate id r m calls = elim (accept_error m calls) [
  | some e ↦ (err e, put r id (record m { state = failed; error = true }))
  | none ↦ ((settle m calls).0, put r id (settle m calls).1)
]

unfoldable pub disable : Bool → String → Calls → Registry → Result (Unit {0}) × Registry
disable validate_dependents id calls r = elim (get r id) [
  | none ↦ (err not_found_error, r)
  | some m ↦
      if is_failed m.state && not m.registration && not m.started
      then (ok tt, r)
      else if not (can_deactivate m.state)
      then (ok tt, r)
      else if validate_dependents && has_enabled_dependents id r
      then (err configuration_error, r)
      else if not m.registration && is_state_enabled m.state
      then (err configuration_error, r)
      else deactivate id r m calls
]

-- state in {INSTALLED, DISABLED, FAILED}
abbrev pub can_retire : ModuleState → Bool
can_retire installed = true
can_retire disabled = true
can_retire failed = true
can_retire _ = false

-- A fresh registration is made, rolled back, and retires its owner.
unfoldable pub retire_registration : Calls → Result (Unit {0})
retire_registration calls = do
  call calls.factory
  call calls.retire_rollback
  call calls.retire_owner

-- `_retire` from its lock on.
unfoldable pub finish_retire : String → Calls → Registry → Result (Unit {0}) × Registry
finish_retire id calls r = elim (get r id) [
  | none ↦ (err not_found_error, r)
  | some m ↦
      if is_retired m.state
      then (ok tt, r)
      else if not (can_retire m.state)
      then (err configuration_error, r)
      else elim (if m.registration then call calls.rollback else ok tt) [
        | err e ↦ (err e, r)
        | ok _ ↦ elim (retire_registration calls) [
          | err e ↦ (err e, put r id (record m { state = uninstalling; registration = false }))
          | ok _ ↦
              (ok tt, put r id (record m { state = retired; registration = false; error = false }))
        ]
      ]
]

unfoldable pub retire : String → Calls → Registry → Result (Unit {0}) × Registry
retire id calls r = elim (get r id) [
  | none ↦ (err not_found_error, r)
  | some m ↦
      if has_enabled_dependents id r
      then (err configuration_error, r)
      else if is_state_enabled m.state || m.started || m.registration
      then (let (result, r') = disable false id calls r in
          elim result [ err e ↦ (err e, r') | ok _ ↦ finish_retire id calls r' ])
      else finish_retire id calls r
]
