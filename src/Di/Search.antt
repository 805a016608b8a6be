-- ===== src/Di/Search.antt =====
-- What a call of `_wait_path` finds, and what it has visited where it finds nothing.
pub mod Total
use businessos.Prelude.{
  ℕ, zero, suc, Bool, true, false, Option, none, some, List, [], ◌∷◌, ◌==◌, ==-eq, contains, length,
  ◌≤◌, ◌<◌, ◌+◌, ◌≡◌, refl, sym, ◌∙◌, subst, ap, arith, Bool-cases, Option-cases, inl, inr, ◌⊎◌,
  ◌↔◌, is_some,
}
use businessos.Prelude.Dict.{Dict, get, keys}
use businessos.Prelude.Sorting.{sorted, sorted-contains, str_leb}
use businessos.Prelude.Visited.{IsIn, unvisited, unvisited_bound, unvisited_mono, unvisited_less}
use businessos.Di.{DependencyKey, key_eq}
use businessos.Di.Waits.{
  WaitGraph, waits_of, dependencies, Found, after, try_each, search, wait_path,
}

-- The second key is the first, or is reached from it along waits.
pub data Waits (graph : WaitGraph) : DependencyKey → DependencyKey → Type 0 where
  self : {a : DependencyKey} → Waits graph a a
  via :
      {a c : DependencyKey} (b : DependencyKey)
      → contains (dependencies graph a) b ≡ true
      → Waits graph b c
      → Waits graph a c

pub Waits-trans :
    {graph : WaitGraph} {a b c : DependencyKey}
    → Waits graph a b
    → Waits graph b c
    → Waits graph a c
Waits-trans self p = p
Waits-trans (via b e q) p = via b e (Waits-trans q p)

module _ (graph : WaitGraph) (target : DependencyKey) where
  abbrev pub Step : Type 0
  Step = DependencyKey → List DependencyKey → Option Found

  -- What a search that found nothing has visited: none of the new keys is the target, and where they lead is visited.
  abbrev pub IsClosed : List DependencyKey → List DependencyKey → Type 0
  IsClosed visited visited' =
      (x : DependencyKey)
      → contains visited' x ≡ true
      → contains visited x ≡ false
      → ((x == target) ≡ false)
        × ((y : DependencyKey)
            → contains (dependencies graph x) y ≡ true
            → contains visited' y ≡ true)

  -- The claims on one call and on the loop.
  abbrev pub CallEnds : DependencyKey → List DependencyKey → Option Found → Type 0
  CallEnds current visited none = Unit
  CallEnds current visited (some (some path, visited')) = Waits graph current target
  CallEnds current visited (some (none, visited')) =
      IsIn visited visited' × (contains visited' current ≡ true) × IsClosed visited visited'

  abbrev LoopEnds : List DependencyKey → List DependencyKey → Option Found → Type 0
  LoopEnds ds visited none = Unit
  LoopEnds ds visited (some (some path, visited')) =
      (d : DependencyKey) × (contains ds d ≡ true) × Waits graph d target
  LoopEnds ds visited (some (none, visited')) =
      IsIn visited visited' × IsIn ds visited' × IsClosed visited visited'

  IsClosed-trans :
      (u v w : List DependencyKey) → IsIn v w → IsClosed u v → IsClosed v w → IsClosed u w
  IsClosed-trans u v w more first second x at new = elim (Bool-cases (contains v x)) [
    | inl early ↦ ((first x early new).0, λ y e. more y ((first x early new).1 y e))
    | inr late ↦ second x at late
  ]

  LoopEnds-cons :
      (d : DependencyKey) (ds visited seen : List DependencyKey) (found : Option Found)
      → CallEnds d visited (some (none, seen))
      → LoopEnds ds seen found
      → LoopEnds (d ∷ ds) visited found
  LoopEnds-cons d ds visited seen none ends rest = tt
  LoopEnds-cons d ds visited seen (some (some path, visited')) ends (k, at, waits) =
      (k, ground (arith, at), waits)
  LoopEnds-cons d ds visited seen (some (none, visited')) (more, here, closed)
        (more', all', closed') =
      (
        (λ k h. more' k (more k h)),
        (λ k h. elim (Bool-cases (d == k)) [
          | inl eq ↦ subst (λ x. contains visited' x ≡ true) (==-eq d k eq) (more' d here)
          | inr ne ↦ all' k (ground (arith, h, ne))
        ]),
        IsClosed-trans visited seen visited' more' closed closed',
      )

  try_each-LoopEnds :
      (step : Step) (ds visited : List DependencyKey)
      → ((d : DependencyKey) (seen : List DependencyKey) → CallEnds d seen (step d seen))
      → LoopEnds ds visited (try_each step ds visited)
  unfolding try_each
  try_each-LoopEnds step [] visited call = (
    (λ k h. h),
    (λ k h. absurd (ground (arith, h))),
    (λ x at new. absurd (ground (arith, at, new))),
  )
  try_each-LoopEnds step (d ∷ ds) visited call =
      one (step d visited) (call d visited) (λ seen. try_each-LoopEnds step ds seen call)
    where
      one :
          (found : Option Found)
          → CallEnds d visited found
          → ((seen : List DependencyKey) → LoopEnds ds seen (try_each step ds seen))
          → LoopEnds (d ∷ ds) visited (elim found [
            | none ↦ none
            | some (some path, visited') ↦ some (some path, visited')
            | some (none, visited') ↦ try_each step ds visited'
          ])
      one none ends rest = tt
      one (some (some path, visited')) ends rest = (d, ground (arith, key_eq.eqb_iff d d), ends)
      one (some (none, seen)) ends rest =
          LoopEnds-cons d ds visited seen (try_each step ds seen) ends (rest seen)

  contains-dependencies :
      (a b : DependencyKey)
      → contains (dependencies graph a) b ≡ contains (keys (waits_of graph a)) b
  unfolding dependencies
  contains-dependencies a b =
      sorted-contains (λ a b. str_leb a.name b.name) (keys (waits_of graph a)) b

  after-CallEnds :
      (current : DependencyKey) (visited : List DependencyKey) (found : Option Found)
      → (current == target) ≡ false
      → LoopEnds (dependencies graph current) (current ∷ visited) found
      → CallEnds current visited (after current found)
  after-CallEnds current visited none ne ends = tt
  after-CallEnds current visited (some (some path, visited')) ne (d, at, waits) = via d at waits
  after-CallEnds current visited (some (none, visited')) ne (more, here, closed) = (
    (λ k h. more k (ground (arith, h))),
    more current (ground (arith, key_eq.eqb_iff current current)),
    λ x at new. elim (Bool-cases (current == x)) [
      | inl eq ↦
          subst
            (λ x.
              ((x == target) ≡ false)
              × ((y : DependencyKey)
                  → contains (dependencies graph x) y ≡ true
                  → contains visited' y ≡ true))
            (==-eq current x eq) (ne, here)
      | inr other ↦ closed x at (ground (arith, new, other))
    ],
  )

  -- The three branches of a call.
  abbrev pub each : ℕ → DependencyKey → List DependencyKey → Option Found
  each fuel current visited =
      try_each (λ d seen. search fuel graph d target seen) (dependencies graph current)
        (current ∷ visited)

  pub search-at :
      (fuel : ℕ) (current : DependencyKey) (visited : List DependencyKey)
      → (current == target) ≡ true
      → search (suc fuel) graph current target visited ≡ some (some (current ∷ []), visited)
  unfolding search
  search-at fuel current visited at = ground (arith, at)

  pub search-old :
      (fuel : ℕ) (current : DependencyKey) (visited : List DependencyKey)
      → (current == target) ≡ false
      → contains visited current ≡ true
      → search (suc fuel) graph current target visited ≡ some (none, visited)
  unfolding search
  search-old fuel current visited ne old = ground (arith, ne, old)

  pub search-new :
      (fuel : ℕ) (current : DependencyKey) (visited : List DependencyKey)
      → (current == target) ≡ false
      → contains visited current ≡ false
      → search (suc fuel) graph current target visited ≡ after current (each fuel current visited)
  unfolding search
  search-new fuel current visited ne new = ground (arith, ne, new)

  pub search-CallEnds :
      (fuel : ℕ) (current : DependencyKey) (visited : List DependencyKey)
      → CallEnds current visited (search fuel graph current target visited)
  search-CallEnds zero current visited = unfold search in tt
  search-CallEnds (suc fuel) current visited = elim (Bool-cases (current == target)) [
    | inl at ↦
        subst (CallEnds current visited) (sym (search-at fuel current visited at))
          (subst (λ x. Waits graph current x) (==-eq current target at) self)
    | inr ne ↦ elim (Bool-cases (contains visited current)) [
      | inl old ↦
          subst (CallEnds current visited) (sym (search-old fuel current visited ne old))
            ((λ k h. h), old, λ x at new. absurd (ground (arith, at, new)))
      | inr new ↦ subst (CallEnds current visited) (sym (search-new fuel current visited ne new)) (
          after-CallEnds current visited (each fuel current visited) ne (
            try_each-LoopEnds (λ d seen. search fuel graph d target seen)
              (dependencies graph current) (current ∷ visited)
              (λ d seen. search-CallEnds fuel d seen)))
    ]
  ]
