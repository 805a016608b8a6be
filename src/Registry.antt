-- ===== src/Registry.antt =====
-- platform/src/businessos/registry.py: named values with one owner each. The methods that consult
-- the gate take its current state, `none` for a registry without one.
pub mod Laws
pub mod Features
pub mod Jobs
use businessos.Prelude.{
  String, Bool, true, false, not, ◌&&◌, ◌||◌, Option, none, some, List, [], ◌∷◌, ◌==◌, Eq,
  string_eq, option_eq, if◌then◌else◌,
}
use businessos.Prelude.Dict.{Dict, get, put, keys, filter_items}
use businessos.Prelude.Sorting.{sorted, str_leb}
use businessos.Errors.{Result, ok, err, conflict_error, not_found_error, ◌>>=◌, ◌>>◌}
use businessos.Activation.{
  ContributionGate, ContributionGeneration, generation_eq, is_active, enter,
}

pub record OwnedValue (T : Type 0) : Type 0 where
  pub name : String
  pub owner : String
  pub value : T
  pub generation : Option ContributionGeneration

pub record OwnedRegistry (T : Type 0) : Type 0 where
  pub values : Dict String (OwnedValue T)

abbrev matches_option {ℓ} : {A : Type ℓ} → (A → Bool) → Option A → Bool
matches_option test none = true
matches_option test (some a) = test a

module _ {T : Type 0} where
  unfoldable pub register :
      String
      → String
      → T
      → Option ContributionGeneration
      → OwnedRegistry T
      → Result (Unit {0}) × OwnedRegistry T
  register name owner value generation r = elim (get r.values name) [
    | some current ↦ (err conflict_error, r)
    | none ↦ (
      ok tt,
      record r {
        values =
            put r.values name
              (record { name = name; owner = owner; value = value; generation = generation });
      },
    )
  ]

  -- `_is_active`
  unfoldable pub is_active_entry : Option ContributionGate → OwnedValue T → Bool
  is_active_entry none entry = true
  is_active_entry (some gate) entry = is_active entry.generation gate

  unfoldable pub resolve :
      Option ContributionGate → String → OwnedRegistry T → Result (OwnedValue T)
  resolve gate name r = elim (get r.values name) [
    | none ↦ err not_found_error
    | some entry ↦ if is_active_entry gate entry then ok entry else err not_found_error
  ]

  -- `OwnedRegistry.get`
  unfoldable pub get_value : Option ContributionGate → String → OwnedRegistry T → Result T
  get_value gate name r = do entry ← resolve gate name r; ok entry.value

  unfoldable pub collect :
      Bool
      → Option ContributionGate
      → Dict String (OwnedValue T)
      → List String
      → List (OwnedValue T)
  collect include_inactive gate values [] = []
  collect include_inactive gate values (name ∷ names) =
      let rest = collect include_inactive gate values names in
      elim (get values name) [
        | none ↦ rest
        | some entry ↦ if include_inactive || is_active_entry gate entry then entry ∷ rest else rest
      ]

  unfoldable pub entries : Bool → Option ContributionGate → OwnedRegistry T → List (OwnedValue T)
  unfolding collect
  entries include_inactive gate r =
      collect include_inactive gate r.values (sorted str_leb (keys r.values))

  -- The entry of `admit_entry`: the value, and the gate with the admission counted.
  unfoldable pub admit_entry :
      Option ContributionGate → OwnedValue T → Result T × Option ContributionGate
  admit_entry none entry = (ok entry.value, none)
  admit_entry (some gate) entry =
      let (admission, gate') = enter entry.generation gate in
      ((do admission; ok entry.value), some gate')

  unfoldable pub admitted :
      Option ContributionGate → String → OwnedRegistry T → Result T × Option ContributionGate
  unfolding admit_entry
  admitted gate name r = elim (resolve gate name r) [
    | err e ↦ (err e, gate)
    | ok entry ↦ admit_entry gate entry
  ]

  unfoldable pub contains_entry :
      Option ContributionGate
      → String
      → Option String
      → Option ContributionGeneration
      → Bool
      → OwnedRegistry T
      → Bool
  contains_entry gate name owner generation include_inactive r = elim (get r.values name) [
    | none ↦ false
    | some entry ↦
        if not (matches_option (λ o. entry.owner == o) owner)
        then false
        else if not (matches_option (λ g. entry.generation == some g) generation)
        then false
        else (include_inactive || is_active_entry gate entry)
  ]

  unfoldable pub remove_owner_generation :
      ContributionGeneration → OwnedRegistry T → OwnedRegistry T
  remove_owner_generation g r = record r {
    values = filter_items (λ name entry. not (entry.generation == some g)) r.values;
  }
