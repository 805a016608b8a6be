-- ===== src/Prelude/Dict.antt =====
-- Python's `dict`: keys in the order of their first insertion.
use mathlib.Core.Path.{◌≡◌, refl, ap, subst}
use mathlib.Core.Logic.{◌⊎◌, inl, inr}
use mathlib.Core.Bool.{Bool, false}
use mathlib.Core.Option.{Option, none, some}
use mathlib.Core.List.{List, [], ◌∷◌, map}
use native.Mathlib.Omega.{arith}
use Prim.Native.Nat.{suc}
use businessos.Prelude.Tests.{Bool-cases, if◌then◌else◌, is_some}
use businessos.Prelude.Lists.{length, contains}
use businessos.Prelude.Equality.{Eq, ◌==◌}

abbrev pub Dict {ℓ} : Type ℓ → Type ℓ → Type ℓ
Dict K V = List (K × V)

abbrev pub filter_option {ℓ} : {V : Type ℓ} → (V → Bool) → Option V → Option V
filter_option p none = none
filter_option p (some v) = if p v then some v else none

module _ {ℓ} {K V : Type ℓ} ⦃e : Eq K⦄ where
  -- d.get(k)
  unfoldable pub get : Dict K V → K → Option V
  get [] k = none
  get ((j, v) ∷ d) k = if j == k then some v else get d k

  -- d[k] = v
  unfoldable pub put : Dict K V → K → V → Dict K V
  put [] k v = (k, v) ∷ []
  put ((j, w) ∷ d) k v = if j == k then (j, v) ∷ d else (j, w) ∷ put d k v

  -- d.pop(k, None)
  unfoldable pub remove : Dict K V → K → Dict K V
  remove [] k = []
  remove ((j, v) ∷ d) k = let rest = remove d k in if j == k then rest else (j, v) ∷ rest

  pub get-put :
      (d : Dict K V) (k j : K) (v : V) → get (put d k v) j ≡ (if k == j then some v else get d j)
  unfolding get put
  get-put [] k j v = refl
  get-put ((i, w) ∷ d) k j v =
      ground (arith, e.eqb_iff i k, e.eqb_iff i j, e.eqb_iff k j, get-put d k j v)

  pub get-remove :
      (d : Dict K V) (k j : K) → get (remove d k) j ≡ (if k == j then none else get d j)
  unfolding get remove
  get-remove [] k j = ground arith
  get-remove ((i, w) ∷ d) k j =
      ground (arith, e.eqb_iff i k, e.eqb_iff i j, e.eqb_iff k j, get-remove d k j)

  -- What an entry of an updated dictionary can be.
  pub put-get-some :
      (d : Dict K V) (k j : K) (v : V) {x : V}
      → get (put d k v) j ≡ some x
      → ((k ≡ j) × (v ≡ x)) ⊎ (((k == j) ≡ false) × (get d j ≡ some x))
  put-get-some d k j v h = ground (arith, get-put d k j v, e.eqb_iff k j)

  pub put-get-none :
      (d : Dict K V) (k j : K) (v : V)
      → get (put d k v) j ≡ none
      → ((k == j) ≡ false) × (get d j ≡ none)
  put-get-none d k j v h = ground (arith, get-put d k j v, e.eqb_iff k j)

  pub remove-get-some :
      (d : Dict K V) (k j : K) {x : V}
      → get (remove d k) j ≡ some x
      → ((k == j) ≡ false) × (get d j ≡ some x)
  remove-get-some d k j h = ground (arith, get-remove d k j, e.eqb_iff k j)

  pub remove-get-none :
      (d : Dict K V) (k j : K) → get (remove d k) j ≡ none → (k ≡ j) ⊎ (get d j ≡ none)
  remove-get-none d k j h = ground (arith, get-remove d k j, e.eqb_iff k j)

  -- {k: v for k, v in d.items() if p(k, v)}
  unfoldable pub filter_items : (K → V → Bool) → Dict K V → Dict K V
  filter_items p [] = []
  filter_items p ((j, v) ∷ d) = let rest = filter_items p d in if p j v then (j, v) ∷ rest else rest

  -- No key stands twice, which every `dict` has.
  abbrev pub IsDistinct : Dict K V → Type ℓ
  IsDistinct [] = Unit
  IsDistinct ((j, v) ∷ d) = (get d j ≡ none) × IsDistinct d

  pub put-IsDistinct : (d : Dict K V) (k : K) (v : V) → IsDistinct d → IsDistinct (put d k v)
  unfolding get put
  put-IsDistinct [] k v h = (refl, tt)
  put-IsDistinct ((j, w) ∷ d) k v h = elim (Bool-cases (j == k)) [
    | inl at ↦ rw at h
    | inr ne ↦ rw ne (
      ground (arith, get-put d k j v, e.eqb_iff j k, e.eqb_iff k j, h.0),
      put-IsDistinct d k v h.1,
    )
  ]

  pub get-filter_items :
      (p : K → V → Bool) (d : Dict K V) (k : K)
      → IsDistinct d
      → get (filter_items p d) k ≡ filter_option (p k) (get d k)
  unfolding get filter_items
  get-filter_items p [] k h = refl
  get-filter_items p ((j, v) ∷ d) k h = elim (Bool-cases (j == k)) [
    | inl at ↦
        let same = (e.eqb_iff j k).0 at in
        ground (
          arith,
          at,
          get-filter_items p d k h.1,
          subst (λ x. get d x ≡ none) same h.0,
          ap (λ x. p x v) same,
        )
    | inr ne ↦ ground (arith, ne, get-filter_items p d k h.1)
  ]

  pub filter_items-IsDistinct :
      (p : K → V → Bool) (d : Dict K V) → IsDistinct d → IsDistinct (filter_items p d)
  unfolding filter_items
  filter_items-IsDistinct p [] h = tt
  filter_items-IsDistinct p ((j, v) ∷ d) h = elim (Bool-cases (p j v)) [
    | inl stays ↦ rw stays (rw (get-filter_items p d j h.1, h.0), filter_items-IsDistinct p d h.1)
    | inr goes ↦ rw goes (filter_items-IsDistinct p d h.1)
  ]

module _ {ℓ} {K V : Type ℓ} where
  -- d.values(), d.keys()
  abbrev pub values : Dict K V → List V
  values = map (λ p. p.1)

  abbrev pub keys : Dict K V → List K
  keys = map (λ p. p.0)

  pub length-keys : (d : Dict K V) → length (keys d) ≡ length d
  length-keys [] = refl
  length-keys (p ∷ d) = ap suc (length-keys d)

module _ {ℓ} {K V : Type ℓ} ⦃e : Eq K⦄ where
  pub contains-keys : (d : Dict K V) (k : K) → contains (keys d) k ≡ is_some (get d k)
  unfolding get
  contains-keys [] k = refl
  contains-keys ((j, v) ∷ d) k = ground (arith, contains-keys d k)
