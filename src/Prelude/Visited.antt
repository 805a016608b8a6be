-- ===== src/Prelude/Visited.antt =====
-- How many of some nodes a search has not visited: the measure of its termination.
use Prim.Native.Nat.{ℕ, suc, ◌≤◌, ◌<◌}
use mathlib.Core.Bool.{true, false}
use mathlib.Core.List.{List, [], ◌∷◌}
use mathlib.Core.Path.{◌≡◌}
use native.Mathlib.Omega.{arith}
use businessos.Prelude.Tests.{if◌then◌else◌}
use businessos.Prelude.Equality.{Eq}
use businessos.Prelude.Lists.{length, contains}

module _ {ℓ} {K : Type ℓ} ⦃e : Eq K⦄ where
  -- Every node of the first list stands in the second.
  abbrev pub IsIn : List K → List K → Type ℓ
  IsIn seen visited = (k : K) → contains seen k ≡ true → contains visited k ≡ true

  unfoldable pub unvisited : List K → List K → ℕ
  unvisited visited [] = 0
  unvisited visited (k ∷ ks) =
      let rest = unvisited visited ks in if contains visited k then rest else suc rest

  pub unvisited_bound : (visited ks : List K) → unvisited visited ks ≤ length ks
  unfolding unvisited
  unvisited_bound visited [] = omega arith
  unvisited_bound visited (k ∷ ks) = ground (arith, unvisited_bound visited ks)

  pub unvisited_mono :
      (seen visited ks : List K) → IsIn seen visited → unvisited visited ks ≤ unvisited seen ks
  unfolding unvisited
  unvisited_mono seen visited [] more = omega arith
  unvisited_mono seen visited (k ∷ ks) more =
      ground (arith, unvisited_mono seen visited ks more, more k)

  pub unvisited_less :
      (p : K) (visited ks : List K)
      → contains ks p ≡ true
      → contains visited p ≡ false
      → unvisited (p ∷ visited) ks < unvisited visited ks
  unfolding unvisited
  unvisited_less p visited [] at new = absurd (ground (arith, at))
  unvisited_less p visited (k ∷ ks) at new = ground (
    arith,
    at,
    new,
    e.eqb_iff k p,
    e.eqb_iff p k,
    unvisited_less p visited ks,
    unvisited_mono visited (p ∷ visited) ks (λ j h. ground (arith, h)),
  )
