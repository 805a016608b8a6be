-- ===== src/Di.antt =====
-- platform/src/businessos/di.py: the keys of dependencies, the registrations and their resolution
-- path, and below the graph of the resolutions that wait for one another.
pub mod Registrations
pub mod Waits
pub mod Search
pub mod Counts
pub mod Acyclic
pub mod Chains
pub mod Tasks
use businessos.Prelude.{
  ℕ, String, Bool, true, false, not, ◌&&◌, Option, none, some, List, ◌==◌, Eq, string_eq, option_eq,
  ◌≡◌, ◌↔◌, refl, arith,
}
use businessos.Prelude.Equality.{option_eqb_iff}

-- `DependencyKey`; keys are equal if both fields are.
pub record DependencyKey : Type 0 where
  pub name : String
  pub required_owner : Option String

unfoldable pub key_eqb : DependencyKey → DependencyKey → Bool
key_eqb a b = (a.name == b.name) && (a.required_owner == b.required_owner)

owner_iff : (a b : Option String) → ((a == b) ≡ true) ↔ (a ≡ b)
owner_iff a b = option_eqb_iff a b

pub key_eqb_iff : (a b : DependencyKey) → (key_eqb a b ≡ true) ↔ (a ≡ b)
unfolding key_eqb
key_eqb_iff a b =
    ground (arith, string_eq.eqb_iff a.name b.name, owner_iff a.required_owner b.required_owner)

instance abbrev pub key_eq : Eq DependencyKey
key_eq = record { eqb = key_eqb; eqb_iff = key_eqb_iff }
