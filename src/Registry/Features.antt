-- ===== src/Registry/Features.antt =====
-- platform/src/businessos/features.py: feature flags and their overrides.
use businessos.Prelude.{
  String, Bool, true, false, Option, none, some, List, [], ◌∷◌, ◌==◌, string_eq, option_eq,
  if◌then◌else◌, ◌≡◌, refl, arith, Bool-cases, inl, inr, contains, ==-refl, ==-eq, subst,
}
use businessos.Prelude.Dict.{Dict, get, put, remove, get-remove, values, IsDistinct}
use businessos.Registry.Laws.{IsOwned, remove_lem}
use businessos.Errors.{Result, ok, err, ◌>>=◌}
use businessos.Activation.{ContributionGate, ContributionGeneration, generation_eq}
use businessos.Registry
use businessos.Registry.{OwnedValue, OwnedRegistry, register, get_value}

pub record FeatureFlag : Type 0 where
  pub key : String
  pub description : String
  pub default : Bool

pub record FeatureFlagRegistry : Type 0 where
  pub flags : OwnedRegistry FeatureFlag
  pub overrides : Dict String Bool

unfoldable pub add :
    String
    → FeatureFlag
    → Option ContributionGeneration
    → FeatureFlagRegistry
    → Result (Unit {0}) × FeatureFlagRegistry
add owner flag generation r =
    let (result, flags') = register flag.key owner flag generation r.flags in
    (result, record r { flags = flags' })

unfoldable pub set_override :
    Option ContributionGate
    → String
    → Bool
    → FeatureFlagRegistry
    → Result (Unit {0}) × FeatureFlagRegistry
set_override gate key enabled r = elim (get_value gate key r.flags) [
  | err e ↦ (err e, r)
  | ok flag ↦ (ok tt, record r { overrides = put r.overrides key enabled })
]

abbrev or_default : Option Bool → Bool → Bool
or_default none b = b
or_default (some b) other = b

unfoldable pub is_enabled : Option ContributionGate → String → FeatureFlagRegistry → Result Bool
is_enabled gate key r = do
  flag ← get_value gate key r.flags
  ok (or_default (get r.overrides key) flag.default)

names_of : ContributionGeneration → List (OwnedValue FeatureFlag) → List String
names_of g [] = []
names_of g (entry ∷ rest) =
    let more = names_of g rest in if entry.generation == some g then entry.name ∷ more else more

remove_all : List String → Dict String Bool → Dict String Bool
remove_all [] d = d
remove_all (key ∷ rest) d = remove_all rest (remove d key)

unfoldable pub remove_owner_generation :
    ContributionGeneration → FeatureFlagRegistry → FeatureFlagRegistry
unfolding names_of remove_all
remove_owner_generation g r = record {
  flags = Registry.remove_owner_generation g r.flags;
  overrides = remove_all (names_of g (values r.flags.values)) r.overrides;
}

remove_all-get :
    (names : List String) (d : Dict String Bool) (key : String)
    → get (remove_all names d) key ≡ (if contains names key then none else get d key)
unfolding remove_all
remove_all-get [] d key = refl
remove_all-get (n ∷ names) d key =
    ground
      (arith, remove_all-get names (remove d n) key, get-remove d n key, string_eq.eqb_iff n key)

abbrev has_generation : ContributionGeneration → Option (OwnedValue FeatureFlag) → Bool
has_generation g none = false
has_generation g (some entry) = entry.generation == some g

abbrev AllNamed : Dict String (OwnedValue FeatureFlag) → Type 0
AllNamed d =
    (name : String) (entry : OwnedValue FeatureFlag) → get d name ≡ some entry → entry.name ≡ name

AllNamed-tail :
    (j : String) (entry : OwnedValue FeatureFlag) (d : Dict String (OwnedValue FeatureFlag))
    → get d j ≡ none
    → AllNamed ((j, entry) ∷ d)
    → AllNamed d
unfolding get
AllNamed-tail j entry d new named name x is = elim (Bool-cases (j == name)) [
  | inl at ↦ absurd (ground (arith, is, subst (λ k. get d k ≡ none) (==-eq j name at) new))
  | inr ne ↦ named name x (rw ne is)
]

names_of-contains :
    (g : ContributionGeneration) (d : Dict String (OwnedValue FeatureFlag)) (key : String)
    → IsDistinct d
    → AllNamed d
    → contains (names_of g (values d)) key ≡ has_generation g (get d key)
unfolding names_of get
names_of-contains g [] key distinct named = refl
names_of-contains g ((j, entry) ∷ d) key distinct named =
    let later = names_of-contains g d key distinct.1 (AllNamed-tail j entry d distinct.0 named) in
    let at : entry.name ≡ j = named j entry (rw ==-refl) in
    elim (Bool-cases (j == key)) [
      | inl same ↦
          ground (arith, same, later, at, subst (λ k. get d k ≡ none) (==-eq j key same) distinct.0)
      | inr other ↦ ground (arith, other, later, at)
    ]

-- Removing a generation removes the overrides of its flags and no others: afterwards a flag of that
-- generation has neither an entry nor an override, and any other flag has the entry and the override
-- that it had.
pub remove_overrides :
    (g : ContributionGeneration) (r : FeatureFlagRegistry) (key : String)
    (entry : OwnedValue FeatureFlag)
    → IsOwned r.flags
    → get r.flags.values key ≡ some entry
    → ((entry.generation == some g) ≡ true
        → (get (remove_owner_generation g r).flags.values key ≡ none)
          × (get (remove_owner_generation g r).overrides key ≡ none))
      × ((entry.generation == some g) ≡ false
          → (get (remove_owner_generation g r).flags.values key ≡ some entry)
            × (get (remove_owner_generation g r).overrides key ≡ get r.overrides key))
unfolding remove_owner_generation
remove_overrides g r key entry h is =
    let gone = remove_lem g r.flags key h in
    let over = remove_all-get (names_of g (values r.flags.values)) r.overrides key in
    let who = names_of-contains g r.flags.values key h.single h.named in
    (
      (λ same. (ground (arith, gone, is, same), ground (arith, over, who, is, same))),
      (λ other. (ground (arith, gone, is, other), ground (arith, over, who, is, other))),
    )
