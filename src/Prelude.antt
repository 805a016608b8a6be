-- ===== src/Prelude.antt =====
-- The names that the other modules share: the libraries', passed on, and those of the children
-- below (tests and conditionals, equality, lists, dictionaries, text order).
pub mod Tests
pub mod Equality
pub mod Lists
pub mod Dict
pub mod Visited
pub mod Sorting
pub mod Text
pub use Tests.{ltb, leb, if◌then◌else◌, Bool-cases, Option-cases, is_none, is_some}
pub use Equality.{Eq, ◌==◌, ==-eq, ==-refl}
unfoldable pub use Equality.{nat_eq, string_eq, option_eq, pair_eq}
pub use Lists.{length, contains, all, any, All, count, count-append, contains-append}
pub use Prim.Native.Nat.{ℕ, zero, suc, ◌+◌, ◌-◌, ◌*◌, ◌≤◌, ◌<◌}
pub use Prim.Native.String.{String}
pub use mathlib.Core.Path.{◌≡◌, refl, sym, ap, ◌∙◌, subst}
pub use mathlib.Core.Logic.{◌≢◌, ◌↔◌, ◌⊎◌, inl, inr}
pub use mathlib.Core.Bool.{Bool, true, false, not, ◌&&◌, ◌||◌}
pub use mathlib.Core.Option.{Option, none, some}
pub use mathlib.Core.List.{List, [], ◌∷◌, ◌++◌, map}
pub use native.Mathlib.Omega.{arith}
