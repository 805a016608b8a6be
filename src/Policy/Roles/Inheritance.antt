-- ===== src/Policy/Roles/Inheritance.antt =====
-- The climb from a role to its ancestors.
use businessos.Prelude.{
  ℕ, zero, suc, true, false, ◌||◌, Option, none, some, List, [], ◌∷◌, ◌++◌, ◌==◌, ==-eq, nat_eq,
  contains, length, ◌+◌, ◌≤◌, ◌≡◌, refl, sym, ◌∙◌, subst, ap, arith, Bool-cases, Option-cases, inl,
  inr,
}
use businessos.Prelude.Dict.{Dict, get, keys, contains-keys, length-keys}
use businessos.Prelude.Visited.{unvisited, unvisited_bound, unvisited_less}
use businessos.Policy.Models.{RoleRecord}
use businessos.Policy.Roles.{parent_of, climb, after, inherited}

module _ (roles : Dict ℕ RoleRecord) where
  -- The second role is the first, or is inherited by it.
  pub data Inherits : ℕ → ℕ → Type 0 where
    self : {id : ℕ} → Inherits id id
    up : {id x : ℕ} (p : ℕ) → parent_of roles id ≡ some p → Inherits p x → Inherits id x

  climb-none :
      (fuel id : ℕ) (visited : List ℕ)
      → parent_of roles id ≡ none
      → climb (suc fuel) roles id visited ≡ some []
  unfolding climb
  climb-none fuel id visited h = ground (arith, h)

  climb-seen :
      (fuel id p : ℕ) (visited : List ℕ)
      → parent_of roles id ≡ some p
      → contains visited p ≡ true
      → climb (suc fuel) roles id visited ≡ some []
  unfolding climb
  climb-seen fuel id p visited h seen = ground (arith, h, seen)

  climb-fresh :
      (fuel id p : ℕ) (visited : List ℕ)
      → parent_of roles id ≡ some p
      → contains visited p ≡ false
      → climb (suc fuel) roles id visited ≡ after p (climb fuel roles p (p ∷ visited))
  unfolding climb
  climb-fresh fuel id p visited h new = ground (arith, h, new)

  -- What a call does: it stops, or it adds the parent.
  data Climbs (fuel id : ℕ) (visited : List ℕ) : Type 0 where
    top :
        parent_of roles id ≡ none
        → climb (suc fuel) roles id visited ≡ some []
        → Climbs fuel id visited
    seen :
        (p : ℕ)
        → parent_of roles id ≡ some p
        → contains visited p ≡ true
        → climb (suc fuel) roles id visited ≡ some []
        → Climbs fuel id visited
    fresh :
        (p : ℕ)
        → parent_of roles id ≡ some p
        → contains visited p ≡ false
        → climb (suc fuel) roles id visited ≡ after p (climb fuel roles p (p ∷ visited))
        → Climbs fuel id visited

  climbs : (fuel id : ℕ) (visited : List ℕ) → Climbs fuel id visited
  climbs fuel id visited = elim (Option-cases (parent_of roles id)) [
    | inl h ↦ top h (climb-none fuel id visited h)
    | inr (p, h) ↦ elim (Bool-cases (contains visited p)) [
      | inl old ↦ seen p h old (climb-seen fuel id p visited h old)
      | inr new ↦ fresh p h new (climb-fresh fuel id p visited h new)
    ]
  ]

  after-some :
      (p : ℕ) (o : Option (List ℕ)) (added : List ℕ)
      → after p o ≡ some added
      → (rest : List ℕ) × (o ≡ some rest) × (added ≡ p ∷ rest)
  after-some p none added h = absurd (ground (arith, h))
  after-some p (some rest) added h = (rest, refl, ground (arith, h))

  pub climb_sound :
      (fuel id : ℕ) (visited added : List ℕ)
      → climb fuel roles id visited ≡ some added
      → (x : ℕ) → contains added x ≡ true
      → Inherits id x
  climb_sound zero id visited added h x in_added = absurd (unfold climb in ground (arith, h))
  climb_sound (suc fuel) id visited added h x in_added = elim (climbs fuel id visited) [
    | top _ e ↦ absurd (ground (arith, h, e, in_added))
    | seen p _ _ e ↦ absurd (ground (arith, h, e, in_added))
    | fresh p at new e ↦
        (let (rest, below, is) =
            after-some p (climb fuel roles p (p ∷ visited)) added (sym e ∙ h) in
          elim (Bool-cases (p == x)) [
            | inl eq ↦ up p at (subst (λ y. Inherits p y) (==-eq p x eq) self)
            | inr ne ↦
                up p at
                  (climb_sound fuel p (p ∷ visited) rest below x (ground (arith, is, ne, in_added)))
          ])
  ]

  -- Every visited role but `id` has its parent among the visited.
  abbrev pub AllClimbed : ℕ → List ℕ → Type 0
  AllClimbed id visited =
      (v p : ℕ)
      → contains visited v ≡ true
      → (v == id) ≡ false
      → parent_of roles v ≡ some p
      → contains visited p ≡ true

  abbrev pub IsClosed : List ℕ → List ℕ → Type 0
  IsClosed added visited =
      (v p : ℕ)
      → contains added v || contains visited v ≡ true
      → parent_of roles v ≡ some p
      → contains added p || contains visited p ≡ true

  pub climb-IsClosed :
      (fuel id : ℕ) (visited added : List ℕ)
      → climb fuel roles id visited ≡ some added
      → AllClimbed id visited
      → IsClosed added visited
  climb-IsClosed zero id visited added h c v p in_v at = absurd (unfold climb in ground (arith, h))
  climb-IsClosed (suc fuel) id visited added h c v p in_v at = elim (climbs fuel id visited) [
    | top is e ↦ ground (arith, h, e, in_v, at_id, is, c v p)
    | seen q is old e ↦ ground (arith, h, e, in_v, at_id, is, old, at, c v p, same_parent q p old)
    | fresh q is new e ↦
        (let (rest, below, eq) =
            after-some q (climb fuel roles q (q ∷ visited)) added (sym e ∙ h) in
          let closed = climb-IsClosed fuel q (q ∷ visited) rest below (next q is) v p in
          ground (arith, eq, in_v, at, closed))
  ]
    where
      at_id : (v == id) ≡ true → parent_of roles id ≡ some p
      at_id same = subst (λ x. parent_of roles x ≡ some p) (==-eq v id same) at

      same_parent : (q p : ℕ) → contains visited q ≡ true → q ≡ p → contains visited p ≡ true
      same_parent q p old eq = subst (λ x. contains visited x ≡ true) eq old

      next : (q : ℕ) → parent_of roles id ≡ some q → AllClimbed q (q ∷ visited)
      next q is u r in_u ne there = ground (
        arith,
        in_u,
        ne,
        there,
        is,
        c u r,
        λ (same : (u == id) ≡ true).
            subst (λ x. parent_of roles x ≡ some r) (==-eq u id same) there,
      )

module _ (roles : Dict ℕ RoleRecord) where
  -- The fuel that a call needs.
  abbrev need : ℕ → List ℕ → ℕ
  need id visited = elim (get roles id) [ none ↦ 1 | some r ↦ 2 + unvisited visited (keys roles) ]

  need_next :
      (fuel id q : ℕ) (visited : List ℕ)
      → parent_of roles id ≡ some q
      → contains visited q ≡ false
      → need id visited ≤ suc fuel
      → need q (q ∷ visited) ≤ fuel
  unfolding parent_of
  need_next fuel id q visited is new enough = elim (Option-cases (get roles q)) [
    | inl absent ↦ ground (arith, is, enough, absent)
    | inr (r, there) ↦ ground (
      arith,
      is,
      enough,
      there,
      unvisited_less q visited (keys roles) (ground (arith, contains-keys roles q, there)) new,
    )
  ]

  climb_total :
      (fuel id : ℕ) (visited : List ℕ)
      → need id visited ≤ fuel
      → (added : List ℕ) × (climb fuel roles id visited ≡ some added)
  climb_total zero id visited enough = absurd (ground (arith, enough))
  climb_total (suc fuel) id visited enough = elim (climbs roles fuel id visited) [
    | top is e ↦ ([], e)
    | seen q is old e ↦ ([], e)
    | fresh q is new e ↦
        (let (rest, below) =
            climb_total fuel q (q ∷ visited) (need_next fuel id q visited is new enough) in
          (q ∷ rest, e ∙ ap (after q) below))
  ]

  pub inherited_total : (active : List ℕ) → (added : List ℕ) × (inherited roles active ≡ some added)
  unfolding inherited
  inherited_total [] = ([], refl)
  inherited_total (id ∷ ids) =
      let (xs, e) =
        climb_total (suc (suc (length roles))) id (id ∷ [])
          (ground (arith, unvisited_bound (id ∷ []) (keys roles), length-keys roles)) in
      let (ys, f) = inherited_total ids in (xs ++ ys, rw (e, f) refl)
