-- ===== src/Di/Search/Total.antt =====
-- `_wait_path` ends, and finds a path exactly if there is one.
use businessos.Prelude.{
  ℕ, zero, suc, true, false, Option, none, some, List, [], ◌∷◌, ◌==◌, contains, length, ◌≤◌, ◌≡◌,
  refl, sym, subst, ap, arith, Bool-cases, inl, inr, ◌↔◌, is_some,
}
use businessos.Prelude.Dict.{keys, contains-keys, length-keys}
use businessos.Prelude.Sorting.{sorted}
use businessos.Prelude.Visited.{IsIn, unvisited, unvisited_bound, unvisited_mono, unvisited_less}
use businessos.Di.{DependencyKey, key_eq}
use businessos.Di.Waits.{
  WaitGraph, waits_of, dependencies, Found, after, try_each, search, wait_path,
}
use businessos.Di.Search.{
  Waits, self, via, Step, IsClosed, CallEnds, each, search-at, search-old, search-new,
  search-CallEnds,
}

module _ (graph : WaitGraph) (target : DependencyKey) where
  -- Enough fuel: one unit more than there are sources not visited.
  abbrev sources : List DependencyKey
  sources = keys graph

  abbrev Ends : Option Found → Type 0
  Ends found = (f : Found) × (found ≡ some f)

  after-Ends :
      (current : DependencyKey) (found : Option Found) → Ends found → Ends (after current found)
  after-Ends current found ((none, seen), is) = ((none, seen), ap (after current) is)
  after-Ends current found ((some path, seen), is) =
      ((some (current ∷ path), seen), ap (after current) is)

  try-here :
      (step : Step graph target) (d : DependencyKey) (ds visited seen path : List DependencyKey)
      → step d visited ≡ some (some path, seen)
      → try_each step (d ∷ ds) visited ≡ some (some path, seen)
  unfolding try_each
  try-here step d ds visited seen path is = ground (arith, is)

  try-next :
      (step : Step graph target) (d : DependencyKey) (ds visited seen : List DependencyKey)
      (f : Found)
      → step d visited ≡ some (none, seen)
      → try_each step ds seen ≡ some f
      → try_each step (d ∷ ds) visited ≡ some f
  unfolding try_each
  try-next step d ds visited seen f is rest = ground (arith, is, rest)

  try_each-Ends :
      (fuel : ℕ) (ds visited : List DependencyKey)
      → ((d : DependencyKey) (seen : List DependencyKey)
          → IsIn visited seen
          → contains ds d ≡ true
          → Ends (search fuel graph d target seen))
      → Ends (try_each (λ d seen. search fuel graph d target seen) ds visited)
  unfolding try_each
  try_each-Ends fuel [] visited call = ((none, visited), refl)
  try_each-Ends fuel (d ∷ ds) visited call =
      one (call d visited (λ k h. h) (ground (arith, key_eq.eqb_iff d d)))
        (search-CallEnds graph target fuel d visited)
        (λ seen more.
          try_each-Ends fuel ds seen
            (λ k u after at. call k u (λ j h. after j (more j h)) (ground (arith, at))))
    where
      one :
          Ends (search fuel graph d target visited)
          → CallEnds graph target d visited (search fuel graph d target visited)
          → ((seen : List DependencyKey)
              → IsIn visited seen
              → Ends (try_each (λ d seen. search fuel graph d target seen) ds seen))
          → Ends (try_each (λ d seen. search fuel graph d target seen) (d ∷ ds) visited)
      one ((some path, seen), is) ends rest = (
        (some path, seen),
        try-here (λ d seen. search fuel graph d target seen) d ds visited seen path is,
      )
      one ((none, seen), is) ends rest =
          let (f, eq) = rest seen (subst (CallEnds graph target d visited) is ends).0 in
          (f, try-next (λ d seen. search fuel graph d target seen) d ds visited seen f is eq)

  no_dependencies :
      (current : DependencyKey) → contains sources current ≡ false → dependencies graph current ≡ []
  unfolding dependencies waits_of sorted
  no_dependencies current out = ground (arith, contains-keys graph current, out)

  search-Ends :
      (fuel : ℕ) (current : DependencyKey) (visited : List DependencyKey)
      → suc (unvisited visited sources) ≤ fuel
      → Ends (search fuel graph current target visited)
  search-Ends zero current visited enough = absurd (ground (arith, enough))
  search-Ends (suc fuel) current visited enough = elim (Bool-cases (current == target)) [
    | inl at ↦ ((some (current ∷ []), visited), search-at graph target fuel current visited at)
    | inr ne ↦ elim (Bool-cases (contains visited current)) [
      | inl old ↦ ((none, visited), search-old graph target fuel current visited ne old)
      | inr new ↦ subst Ends (sym (search-new graph target fuel current visited ne new)) (
          after-Ends current (each graph target fuel current visited)
            (elim (Bool-cases (contains sources current)) [
              | inl source ↦
                  try_each-Ends fuel (dependencies graph current) (current ∷ visited)
                    (λ d seen more at. search-Ends fuel d seen (
                      ground (
                        arith,
                        enough,
                        unvisited_less current visited sources source new,
                        unvisited_mono (current ∷ visited) seen sources more,
                      )))
              | inr leaf ↦
                  subst
                    (λ ds.
                      Ends (
                        try_each (λ d seen. search fuel graph d target seen) ds
                          (current ∷ visited)))
                    (sym (no_dependencies current leaf))
                    (try_each-Ends fuel [] (current ∷ visited)
                      (λ d seen more at. absurd (ground (arith, at))))
            ]))
    ]
  ]

  IsClosed-Waits :
      (visited : List DependencyKey) {a : DependencyKey}
      → Waits graph a target
      → IsClosed graph target [] visited
      → contains visited a ≡ true
      → ⊥
  IsClosed-Waits visited {a} self closed at =
      absurd (ground (arith, (closed a at refl).0, key_eq.eqb_iff a a))
  IsClosed-Waits visited {a} (via b e rest) closed at =
      IsClosed-Waits visited rest closed ((closed a at refl).1 b e)

module _ (graph : WaitGraph) (current target : DependencyKey) where
  wait_path-some :
      (f : Found)
      → search (suc (length graph)) graph current target [] ≡ some f
      → wait_path graph current target ≡ some f.0
  unfolding wait_path
  wait_path-some f is = ground (arith, is)

  CallEnds-Waits :
      (f : Found)
      → CallEnds graph target current [] (some f)
      → (is_some f.0 ≡ true) ↔ Waits graph current target
  CallEnds-Waits (some path, visited) ends = ((λ h. ends), (λ w. refl))
  CallEnds-Waits (none, visited) (more, here, closed) = (
    (λ h. absurd (ground (arith, h))),
    (λ w. absurd (IsClosed-Waits graph target visited w closed here)),
  )

  -- `_wait_path` ends: its fuel, one unit more than there are sources, is enough. It finds a path
  -- exactly if the target is reached from the current key along waits.
  pub wait_path-Waits :
      (path : Option (List DependencyKey)) × (wait_path graph current target ≡ some path)
      × ((is_some path ≡ true) ↔ Waits graph current target)
  wait_path-Waits =
      let (f, is) =
        search-Ends graph target (suc (length graph)) current []
          (ground (arith, unvisited_bound [] (keys graph), length-keys graph)) in
      (
        f.0,
        wait_path-some f is,
        CallEnds-Waits f (
            subst (CallEnds graph target current []) is
              (search-CallEnds graph target (suc (length graph)) current [])),
      )
