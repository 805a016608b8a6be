-- ===== src/Di/Acyclic.antt =====
-- A wait is counted only where it closes no cycle.
use businessos.Prelude.{
  true, ◌&&◌, none, ◌==◌, ==-eq, contains, ◌<◌, ◌≡◌, sym, ◌∙◌, subst, ap, arith, Bool-cases,
  Option-cases, inl, inr, ◌⊎◌, ◌↔◌, is_some,
}
use businessos.Errors.{ok, err, configuration_error}
use businessos.Di.{DependencyKey, key_eq}
use businessos.Di.Waits.{WaitGraph, dependencies, count_wait, remove_wait, add_wait}
use businessos.Di.Search.{Waits, self, via, Waits-trans}
use businessos.Di.Search.Total.{wait_path-Waits}
use businessos.Di.Counts.{
  waits, count_waits, IsPositive, waits-count_wait, waits-remove_wait, contains-dependencies,
}

-- No key is reached from a key that it waits for.
abbrev pub IsAcyclic : WaitGraph → Type 0
IsAcyclic graph = (a b : DependencyKey) → is_some (waits graph a b) ≡ true → Waits graph b a → ⊥

-- A graph whose waits are among those of another has no more paths.
pub Waits-mono :
    {g h : WaitGraph} {a b : DependencyKey}
    → ((x y : DependencyKey) → is_some (waits g x y) ≡ true → is_some (waits h x y) ≡ true)
    → Waits g a b
    → Waits h a b
Waits-mono more self = self
Waits-mono {g} {h} {a} more (via b e rest) =
    via b (contains-dependencies h a b ∙ more a b (sym (contains-dependencies g a b) ∙ e))
      (Waits-mono more rest)

pub IsAcyclic-mono :
    (g h : WaitGraph)
    → ((x y : DependencyKey) → is_some (waits g x y) ≡ true → is_some (waits h x y) ≡ true)
    → IsAcyclic h
    → IsAcyclic g
IsAcyclic-mono g h more acyclic a b e path = acyclic a b (more a b e) (Waits-mono more path)

pub IsPositive-same :
    (g h : WaitGraph)
    → ((x y : DependencyKey) → waits g x y ≡ waits h x y)
    → IsPositive h
    → IsPositive g
IsPositive-same g h same pos a b n e = pos a b n (sym (same a b) ∙ e)

pub IsAcyclic-same :
    (g h : WaitGraph)
    → ((x y : DependencyKey) → waits g x y ≡ waits h x y)
    → IsAcyclic h
    → IsAcyclic g
IsAcyclic-same g h same = IsAcyclic-mono g h (λ x y e. ground (arith, e, same x y))

module _ (graph : WaitGraph) (s t : DependencyKey) where
  abbrev pub counted : WaitGraph
  counted = count_wait graph s t

  -- A wait of the new graph is the new one, or an old one.
  new_wait :
      (a b : DependencyKey)
      → contains (dependencies counted a) b ≡ true
      → ((s ≡ a) × (t ≡ b)) ⊎ (contains (dependencies graph a) b ≡ true)
  new_wait a b e = ground (
    arith,
    e,
    contains-dependencies counted a b,
    contains-dependencies graph a b,
    waits-count_wait graph s t a b,
    key_eq.eqb_iff s a,
    key_eq.eqb_iff t b,
  )

  kept_wait :
      (a b : DependencyKey) → is_some (waits graph a b) ≡ true → is_some (waits counted a b) ≡ true
  kept_wait a b e = ground (arith, e, waits-count_wait graph s t a b)

  -- A path of the new graph is old, or goes to the source by old waits and then on from the target.
  split :
      {a b : DependencyKey}
      → Waits counted a b
      → Waits graph a b ⊎ (Waits graph a s × Waits counted t b)
  split self = inl self
  split {a} {b = c} (via b e rest) = elim (new_wait a b e) [
    | inl (is_s, is_t) ↦
        inr (subst (λ x. Waits graph x s) is_s self, subst (λ x. Waits counted x c) (sym is_t) rest)
    | inr old ↦ elim (split rest) [
      | inl path ↦ inl (via b old path)
      | inr (before, beyond) ↦ inr (via b old before, beyond)
    ]
  ]

  counted-Waits : Waits counted t s ↔ Waits graph t s
  counted-Waits = (
    (λ path. elim (split path) [ inl old ↦ old | inr (before, beyond) ↦ before ]),
    (λ path. Waits-mono kept_wait path),
  )

  pub counted-IsAcyclic : IsAcyclic graph → (Waits graph t s → ⊥) → IsAcyclic counted
  counted-IsAcyclic acyclic free a b e path =
      elim (new_wait a b (contains-dependencies counted a b ∙ e)) [
        | inl (is_s, is_t) ↦ free (
            counted-Waits.0 (
              subst (λ x. Waits counted x s) (sym is_t)
                (subst (λ x. Waits counted b x) (sym is_s) path)))
        | inr old ↦ elim (split path) [
          | inl before ↦ acyclic a b (sym (contains-dependencies graph a b) ∙ old) before
          | inr (before, beyond) ↦ free (
              counted-Waits.0 (
                Waits-trans beyond
                  (via b (contains-dependencies counted a b ∙ e) (Waits-mono kept_wait before))))
        ]
      ]

  pub counted-IsPositive : IsPositive graph → IsPositive counted
  counted-IsPositive pos a b n e = ground (arith, e, waits-count_wait graph s t a b, pos a b n)

  pub remove_wait-IsPositive : IsPositive graph → IsPositive (remove_wait graph s t)
  unfolding count_waits
  remove_wait-IsPositive pos a b n e = ground (arith, e, waits-remove_wait graph s t a b, pos a b n)

  count_positive : IsPositive graph → (waits graph s t ≡ none) ⊎ (0 < count_waits graph s t)
  unfolding count_waits
  count_positive pos = elim (Option-cases (waits graph s t)) [
    | inl absent ↦ inl absent
    | inr (n, at) ↦ inr (ground (arith, at, pos s t n at))
  ]

  -- The wait that was counted is taken back.
  waits-back :
      IsPositive graph
      → (a b : DependencyKey) → waits (remove_wait counted s t) a b ≡ waits graph a b
  unfolding count_waits
  waits-back pos a b = elim (Bool-cases ((s == a) && (t == b))) [
    | inl here ↦ ground (
      arith,
      here,
      count_positive pos,
      waits-remove_wait counted s t a b,
      waits-count_wait graph s t s t,
      key_eq.eqb_iff s s,
      key_eq.eqb_iff t t,
      ap (λ x. waits graph x b) (==-eq s a (ground (arith, here))),
      ap (λ x. waits graph s x) (==-eq t b (ground (arith, here))),
    )
    | inr there ↦
        ground (arith, there, waits-remove_wait counted s t a b, waits-count_wait graph s t a b)
  ]

  -- What `_add_wait` does to a graph: it counts the wait, or it raises and leaves the counts.
  pub add_wait-cases :
      IsPositive graph
      → ((add_wait graph s t ≡ (ok tt, counted)) × (Waits graph t s → ⊥))
        ⊎ (((add_wait graph s t).0 ≡ err configuration_error)
            × Waits graph t s
            × ((a b : DependencyKey) → waits (add_wait graph s t).1 a b ≡ waits graph a b))
  unfolding add_wait
  add_wait-cases pos =
      let (o, is, same) = wait_path-Waits counted t s in
      elim (Option-cases o) [
        | inl nothing ↦ inl (
          ground (arith, is, nothing),
          λ path. absurd (ground (arith, nothing, same.1 (counted-Waits.1 path))),
        )
        | inr (path, found) ↦ inr (
          ground (arith, is, found),
          counted-Waits.0 (same.0 (ground (arith, found))),
          (λ a b. ground (arith, is, found, waits-back pos a b)),
        )
      ]
