-- ===== src/Di/Registrations.antt =====
-- `Container.register` and `Container._registration_for_resolution` of di.py. What a provider does is
-- not modelled; `entitled` is the answer of the check of the entitlement.
use businessos.Prelude.{
  String, Bool, not, ◌&&◌, Option, none, some, List, ◌==◌, string_eq, option_eq, if◌then◌else◌,
  contains, is_none,
}
use businessos.Prelude.Dict.{Dict, get, put}
use businessos.Errors.{Result, ok, err, configuration_error, conflict_error, ◌>>◌, require}
use businessos.Activation.{ContributionGate, ContributionGeneration, generation_eq, is_active}
use businessos.Activation.System.{System}
use businessos.Di.{DependencyKey, key_eq}

pub data DependencyScope : Type 0 where
  singleton request transient : DependencyScope

-- `_Registration` without its provider; `gated` tells whether it has a gate.
pub record Registration : Type 0 where
  pub scope : DependencyScope
  pub owner : Option String
  pub generation : Option ContributionGeneration
  pub gated : Bool

pub record Container : Type 0 where
  pub registrations : Dict DependencyKey Registration
  pub closed : Bool

-- The checks of a key that is reserved to an owner.
unfoldable pub check_owner : DependencyKey → Option String → Bool → Result (Unit {0})
check_owner key owner entitled = elim key.required_owner [
  | none ↦ ok tt
  | some required ↦ do
    require (owner == some required) configuration_error
    require entitled configuration_error
]

unfoldable pub register : DependencyKey → Registration → Bool → Container → Result Container
unfolding check_owner
register key registration entitled container = do
  require (not container.closed) configuration_error
  check_owner key registration.owner entitled
  require (is_none (get container.registrations key)) conflict_error
  ok (record container { registrations = put container.registrations key registration })

-- registration.gate is not None and not registration.gate.is_active(registration.generation)
unfoldable pub is_inactive : ContributionGate → Registration → Bool
is_inactive gate registration = registration.gated && not (is_active registration.generation gate)

-- `path` is the resolution path of the task.
unfoldable pub registration_for_resolution :
    ContributionGate → List DependencyKey → DependencyKey → Container → Result Registration
unfolding is_inactive
registration_for_resolution gate path key container =
    if container.closed then err configuration_error else elim (get container.registrations key) [
      | none ↦ err configuration_error
      | some registration ↦
          if is_inactive gate registration
          then err configuration_error
          else if contains path key
          then err configuration_error
          else ok registration
    ]
