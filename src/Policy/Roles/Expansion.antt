-- ===== src/Policy/Roles/Expansion.antt =====
-- The roles that `authorize` collects are the active roles and all that they inherit.
use businessos.Prelude.{
  ℕ, suc, true, ◌||◌, Option, none, some, List, [], ◌∷◌, ◌++◌, ◌==◌, ==-refl, nat_eq, contains,
  contains-append, length, ◌≡◌, ◌↔◌, refl, arith, Bool-cases, inl, inr,
}
use businessos.Prelude.Dict.{Dict}
use businessos.Policy.Models.{RoleRecord}
use businessos.Policy.Roles.{climb, join, inherited, expanded_role_ids}
use businessos.Policy.Roles.Inheritance.{
  Inherits, self, up, IsClosed, climb_sound, climb-IsClosed, inherited_total,
}

module _ (roles : Dict ℕ RoleRecord) where
  -- What is inherited is an ancestor, and it holds all ancestors but the active roles.
  abbrev Sound : List ℕ → List ℕ → Type 0
  Sound active added =
      (x : ℕ) → contains added x ≡ true → (a : ℕ) × (contains active a ≡ true) × Inherits roles a x

  abbrev Complete : List ℕ → List ℕ → Type 0
  Complete active added =
      (a x : ℕ)
      → contains active a ≡ true
      → Inherits roles a x
      → contains active x || contains added x ≡ true

  IsClosed-up :
      (added visited : List ℕ)
      → IsClosed roles added visited
      → (a x : ℕ) → contains added a || contains visited a ≡ true
      → Inherits roles a x
      → contains added x || contains visited x ≡ true
  IsClosed-up added visited c a x in_a self = in_a
  IsClosed-up added visited c a x in_a (up p at rest) =
      IsClosed-up added visited c p x (c a p in_a at) rest

  join-some :
      (o q : Option (List ℕ)) (added : List ℕ)
      → join o q ≡ some added
      → (xs ys : List ℕ) × (o ≡ some xs) × (q ≡ some ys) × (added ≡ xs ++ ys)
  join-some none q added h = absurd (ground (arith, h))
  join-some (some xs) none added h = absurd (ground (arith, h))
  join-some (some xs) (some ys) added h = (xs, ys, refl, refl, ground (arith, h))

  inherited_cons :
      (id : ℕ) (ids added : List ℕ)
      → inherited roles (id ∷ ids) ≡ some added
      → (xs ys : List ℕ) × (climb (suc (suc (length roles))) roles id (id ∷ []) ≡ some xs)
        × (inherited roles ids ≡ some ys)
        × (added ≡ xs ++ ys)
  unfolding inherited
  inherited_cons id ids added h =
      join-some (climb (suc (suc (length roles))) roles id (id ∷ [])) (inherited roles ids) added h

  inherited_nil : (added : List ℕ) → inherited roles [] ≡ some added → added ≡ []
  unfolding inherited
  inherited_nil added h = ground (arith, h)

  inherited-Sound :
      (active added : List ℕ) → inherited roles active ≡ some added → Sound active added
  inherited-Sound [] added h x in_x = absurd (ground (arith, inherited_nil added h, in_x))
  inherited-Sound (id ∷ ids) added h x in_x =
      let (xs, ys, e, f, is) = inherited_cons id ids added h in
      elim (Bool-cases (contains xs x)) [
        | inl here ↦ (
          id,
          ground (arith, ==-refl id),
          climb_sound roles (suc (suc (length roles))) id (id ∷ []) xs e x here,
        )
        | inr not_here ↦
            (let (a, in_a, path) =
                inherited-Sound ids ys f x
                  (ground (arith, in_x, is, not_here, contains-append xs ys x)) in
              (a, ground (arith, in_a), path))
      ]

  first-IsClosed :
      (id : ℕ) (xs : List ℕ)
      → climb (suc (suc (length roles))) roles id (id ∷ []) ≡ some xs
      → IsClosed roles xs (id ∷ [])
  first-IsClosed id xs e =
      climb-IsClosed roles (suc (suc (length roles))) id (id ∷ []) xs e (λ v p in_v ne at.
        absurd (ground (arith, in_v, ne, nat_eq.eqb_iff id v, nat_eq.eqb_iff v id)))

  inherited-Complete :
      (active added : List ℕ) → inherited roles active ≡ some added → Complete active added
  inherited-Complete [] added h a x in_a path = absurd (ground (arith, in_a))
  inherited-Complete (id ∷ ids) added h a x in_a path =
      let (xs, ys, e, f, is) = inherited_cons id ids added h in
      elim (Bool-cases (id == a)) [
        | inl same ↦ ground (
          arith,
          is,
          contains-append xs ys x,
          IsClosed-up xs (id ∷ []) (first-IsClosed id xs e) a x (ground (arith, same)) path,
        )
        | inr other ↦ ground (
          arith,
          is,
          contains-append xs ys x,
          inherited-Complete ids ys f a x (ground (arith, in_a, other)) path,
        )
      ]

  -- The collection of roles ends, and a role is collected exactly if an active role is it or inherits
  -- it, through any number of parents; cycles of parents do no harm.
  pub expanded_role_ids_lem :
      (active : List ℕ)
      → (out : List ℕ) × (expanded_role_ids roles active ≡ some out)
        × ((x : ℕ)
            → (contains out x ≡ true) ↔ ((a : ℕ) × (contains active a ≡ true) × Inherits roles a x))
  unfolding expanded_role_ids
  expanded_role_ids_lem active =
      let (added, e) = inherited_total roles active in
      (active ++ added, rw (e) refl, λ x. (sound added e x, complete added e x))
    where
      sound :
          (added : List ℕ)
          → inherited roles active ≡ some added
          → (x : ℕ) → contains (active ++ added) x ≡ true
          → (a : ℕ) × (contains active a ≡ true) × Inherits roles a x
      sound added e x in_x = elim (Bool-cases (contains active x)) [
        | inl now ↦ (x, now, self)
        | inr later ↦
            inherited-Sound active added e x
              (ground (arith, in_x, later, contains-append active added x))
      ]

      complete :
          (added : List ℕ)
          → inherited roles active ≡ some added
          → (x : ℕ) → (a : ℕ) × (contains active a ≡ true) × Inherits roles a x
          → contains (active ++ added) x ≡ true
      complete added e x (a, in_a, path) =
          ground
            (arith, contains-append active added x, inherited-Complete active added e a x in_a path)
