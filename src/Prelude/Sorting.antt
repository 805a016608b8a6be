-- ===== src/Prelude/Sorting.antt =====
-- Python's `sorted`, a stable sort, over any order, and the order of strings by code points.
use Prim.Native.Char.{code}
use Prim.Native.String.{String}
use mathlib.Core.Bool.{Bool, true, false, ◌&&◌, ◌||◌}
use mathlib.Core.List.{List, [], ◌∷◌}
use businessos.Prelude.Tests.{ltb, if◌then◌else◌}
use mathlib.Core.Path.{◌≡◌, refl}
use native.Mathlib.Omega.{arith}
use businessos.Prelude.Lists.{count, contains}
use businessos.Prelude.Equality.{Eq, ◌==◌, nat_eq}

-- a <= b on strings
unfoldable pub str_leb : String → String → Bool
str_leb String.[] t = true
str_leb (String.◌∷◌ c s) String.[] = false
str_leb (String.◌∷◌ c s) (String.◌∷◌ d t) =
    ltb (code c) (code d) || ((code c == code d) && str_leb s t)

module _ {ℓ} {A : Type ℓ} (le : A → A → Bool) where
  unfoldable pub insert_sorted : A → List A → List A
  insert_sorted a [] = a ∷ []
  insert_sorted a (b ∷ l) = if le a b then a ∷ b ∷ l else b ∷ insert_sorted a l

  unfoldable pub sorted : List A → List A
  unfolding insert_sorted
  sorted [] = []
  sorted (a ∷ l) = insert_sorted a (sorted l)

module _ {ℓ} {A : Type ℓ} ⦃e : Eq A⦄ where
  pub contains_iff_count :
      (l : List A) (a : A) → contains l a ≡ (if 0 == count a l then false else true)
  contains_iff_count [] a = refl
  contains_iff_count (x ∷ l) a = ground (arith, contains_iff_count l a)

module _ {ℓ} {A : Type ℓ} ⦃e : Eq A⦄ (le : A → A → Bool) where
  insert_sorted-count : (a b : A) (l : List A) → count b (insert_sorted le a l) ≡ count b (a ∷ l)
  unfolding insert_sorted
  insert_sorted-count a b [] = refl
  insert_sorted-count a b (c ∷ l) = ground (arith, insert_sorted-count a b l)

  -- Sorting keeps the elements, each as often as it was there.
  pub sorted-count : (b : A) (l : List A) → count b (sorted le l) ≡ count b l
  unfolding sorted
  sorted-count b [] = refl
  sorted-count b (a ∷ l) = ground (arith, insert_sorted-count a b (sorted le l), sorted-count b l)

  pub sorted-contains : (l : List A) (a : A) → contains (sorted le l) a ≡ contains l a
  sorted-contains l a =
      ground (arith, contains_iff_count l a, contains_iff_count (sorted le l) a, sorted-count a l)
