-- ===== src/Modules/Packaging.antt =====
-- Versions and version ranges, which the program takes from the package `packaging`.
use businessos.Prelude.{String, Bool}

-- `Version(a)` and `SpecifierSet(s)` parse, `Version(a) < Version(b)`, `Version(a) in SpecifierSet(s)`.
pub record Packaging : Type 0 where
  pub is_version : String → Bool
  pub is_specifier : String → Bool
  pub lt : String → String → Bool
  pub satisfies : String → String → Bool
