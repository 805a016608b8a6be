-- ===== src/Di/Chains.antt =====
-- Chains of waits: `_add_wait_chain` counts all of its edges, or raises and takes them back.
use businessos.Prelude.{
  ℕ, suc, true, ◌&&◌, List, [], ◌∷◌, ◌++◌, ◌==◌, ==-eq, ==-refl, pair_eq, if◌then◌else◌, ◌+◌, ◌-◌,
  ◌≡◌, refl, sym, ◌∙◌, subst, ap, arith, Bool-cases, inl, inr, ◌⊎◌, is_some,
}
use businessos.Errors.{ok, err, configuration_error}
use businessos.Di.{DependencyKey, key_eq}
use businessos.Di.Waits.{
  WaitGraph, Edge, pairwise, count_wait, remove_wait, add_wait, remove_each, add_each,
  add_wait_chain,
}
use businessos.Di.Search.{Waits}
use businessos.Di.Counts.{
  or_zero, waits, count_waits, IsPositive, waits-count_wait, waits-remove_wait,
}
use businessos.Di.Acyclic.{
  IsAcyclic, Waits-mono, IsAcyclic-mono, IsAcyclic-same, IsPositive-same, add_wait-cases,
  counted-IsAcyclic, counted-IsPositive, remove_wait-IsPositive,
}

-- A graph in which every chain so far was counted or taken back.
abbrev pub IsSound : WaitGraph → Type 0
IsSound graph = IsPositive graph × IsAcyclic graph

-- How often an edge stands in a list.
abbrev pub times : DependencyKey → DependencyKey → List Edge → ℕ
times a b [] = 0
times a b ((s, t) ∷ edges) =
    let rest = times a b edges in if (s == a) && (t == b) then suc rest else rest

count-remove_wait :
    (graph : WaitGraph) (s t a b : DependencyKey)
    → count_waits (remove_wait graph s t) a b ≡ count_waits graph a b - times a b ((s, t) ∷ [])
unfolding count_waits
count-remove_wait graph s t a b = elim (Bool-cases ((s == a) && (t == b))) [
  | inl here ↦ ground (
    arith,
    here,
    waits-remove_wait graph s t a b,
    ap (λ x. waits graph x b) (==-eq s a (ground (arith, here))),
    ap (λ x. waits graph s x) (==-eq t b (ground (arith, here))),
  )
  | inr there ↦ ground (arith, there, waits-remove_wait graph s t a b)
]

count-count_wait :
    (graph : WaitGraph) (s t a b : DependencyKey)
    → count_waits (count_wait graph s t) a b ≡ count_waits graph a b + times a b ((s, t) ∷ [])
unfolding count_waits
count-count_wait graph s t a b = elim (Bool-cases ((s == a) && (t == b))) [
  | inl here ↦ ground (
    arith,
    here,
    waits-count_wait graph s t a b,
    ap (λ x. waits graph x b) (==-eq s a (ground (arith, here))),
    ap (λ x. waits graph s x) (==-eq t b (ground (arith, here))),
  )
  | inr there ↦ ground (arith, there, waits-count_wait graph s t a b)
]

fewer :
    (graph : WaitGraph) (s t x y : DependencyKey)
    → is_some (waits (remove_wait graph s t) x y) ≡ true
    → is_some (waits graph x y) ≡ true
unfolding count_waits
fewer graph s t x y e = elim (Bool-cases ((s == x) && (t == y))) [
  | inl here ↦ ground (
    arith,
    here,
    e,
    waits-remove_wait graph s t x y,
    ap (λ v. waits graph v y) (==-eq s x (ground (arith, here))),
    ap (λ v. waits graph s v) (==-eq t y (ground (arith, here))),
  )
  | inr there ↦ ground (arith, there, e, waits-remove_wait graph s t x y)
]

remove_wait-IsSound :
    (graph : WaitGraph) (s t : DependencyKey) → IsSound graph → IsSound (remove_wait graph s t)
remove_wait-IsSound graph s t (pos, acyclic) = (
  remove_wait-IsPositive graph s t pos,
  IsAcyclic-mono (remove_wait graph s t) graph (fewer graph s t) acyclic,
)

pub remove_each-lem :
    (edges : List Edge) (graph : WaitGraph)
    → IsSound graph
    → IsSound (remove_each edges graph)
      × ((a b : DependencyKey)
          → count_waits (remove_each edges graph) a b ≡ count_waits graph a b - times a b edges)
unfolding remove_each
remove_each-lem [] graph sound = (sound, λ a b. omega arith)
remove_each-lem ((s, t) ∷ edges) graph sound =
    let (sound', same) =
      remove_each-lem edges (remove_wait graph s t) (remove_wait-IsSound graph s t sound) in
    (sound', λ a b. ground (arith, same a b, count-remove_wait graph s t a b))

-- The graph with all the edges counted.
unfoldable pub count_each : List Edge → WaitGraph → WaitGraph
count_each [] graph = graph
count_each ((s, t) ∷ edges) graph = count_each edges (count_wait graph s t)

unfoldable pub back : List Edge → List Edge → List Edge
back [] edges = edges
back ((s, t) ∷ rest) edges = back rest ((s, t) ∷ edges)

pub times-back :
    (a b : DependencyKey) (rest edges : List Edge)
    → times a b (back rest edges) ≡ times a b rest + times a b edges
unfolding back
times-back a b [] edges = omega arith
times-back a b ((s, t) ∷ rest) edges = ground (arith, times-back a b rest ((s, t) ∷ edges))

waits-count_each :
    (edges : List Edge) (graph : WaitGraph) (x y : DependencyKey)
    → is_some (waits graph x y) ≡ true
    → is_some (waits (count_each edges graph) x y) ≡ true
unfolding count_each
waits-count_each [] graph x y e = e
waits-count_each ((s, t) ∷ edges) graph x y e =
    waits-count_each edges (count_wait graph s t) x y
      (ground (arith, e, waits-count_wait graph s t x y))

pub count-count_each :
    (edges : List Edge) (graph : WaitGraph) (a b : DependencyKey)
    → count_waits (count_each edges graph) a b ≡ count_waits graph a b + times a b edges
unfolding count_each
count-count_each [] graph a b = omega arith
count-count_each ((s, t) ∷ edges) graph a b =
    ground
      (arith, count-count_each edges (count_wait graph s t) a b, count-count_wait graph s t a b)

closes_cycle :
    (graph : WaitGraph) (s t : DependencyKey) (rest : List Edge)
    → Waits graph t s
    → IsAcyclic (count_each ((s, t) ∷ rest) graph)
    → ⊥
unfolding count_each
closes_cycle graph s t rest path acyclic =
    let new =
      waits-count_each rest (count_wait graph s t) s t
        (ground (arith, waits-count_wait graph s t s t, ==-refl s, ==-refl t)) in
    acyclic s t new (Waits-mono (λ x y e. waits-count_each ((s, t) ∷ rest) graph x y e) path)

-- What the loop does, where `edges` were counted before.
module _ (rest edges : List Edge) (graph : WaitGraph) where
  abbrev Added : Type 0
  Added =
      (add_each rest edges graph ≡ (ok (back rest edges), count_each rest graph))
      × IsSound (count_each rest graph)

  abbrev Refused : Type 0
  Refused =
      ((add_each rest edges graph).0 ≡ err configuration_error)
      × (IsAcyclic (count_each rest graph) → ⊥)
      × IsSound (add_each rest edges graph).1
      × ((a b : DependencyKey)
          → count_waits (add_each rest edges graph).1 a b ≡ count_waits graph a b - times a b edges)

add_each-added :
    (s t : DependencyKey) (rest edges : List Edge) (graph : WaitGraph)
    → add_wait graph s t ≡ (ok tt, count_wait graph s t)
    → add_each ((s, t) ∷ rest) edges graph ≡ add_each rest ((s, t) ∷ edges) (count_wait graph s t)
unfolding add_each
add_each-added s t rest edges graph is = ground (arith, is)

add_each-raised :
    (s t : DependencyKey) (rest edges : List Edge) (graph : WaitGraph)
    → (add_wait graph s t).0 ≡ err configuration_error
    → add_each ((s, t) ∷ rest) edges graph
      ≡ (err configuration_error, remove_each edges (add_wait graph s t).1)
unfolding add_each
add_each-raised s t rest edges graph is = ground (arith, is)

same_count :
    (g h : WaitGraph) (a b : DependencyKey)
    → waits g a b ≡ waits h a b
    → count_waits g a b ≡ count_waits h a b
unfolding count_waits
same_count g h a b e = ap or_zero e

add_each-cases :
    (rest edges : List Edge) (graph : WaitGraph)
    → IsSound graph
    → Added rest edges graph ⊎ Refused rest edges graph
add_each-cases [] edges graph sound = inl (unfold add_each back count_each in (refl, sound))
add_each-cases ((s, t) ∷ rest) edges graph (pos, acyclic) = elim (add_wait-cases graph s t pos) [
  | inl (is, free) ↦
      let next = add_each-added s t rest edges graph is in
      elim (add_each-cases rest ((s, t) ∷ edges) (count_wait graph s t)
        (counted-IsPositive graph s t pos, counted-IsAcyclic graph s t acyclic free)) [
          | inl (added, sound) ↦ inl (unfold back count_each in (next ∙ added, sound))
          | inr (raised, cyclic, sound, same) ↦ inr (
            ap (λ r. r.0) next ∙ raised,
            (unfold count_each in cyclic),
            subst (λ r. IsSound r.1) (sym next) sound,
            λ a b. ground (
              arith,
              ap (λ r. count_waits r.1 a b) next,
              same a b,
              count-count_wait graph s t a b,
            ),
          )
        ]
  | inr (raised, path, same) ↦
      let g = (add_wait graph s t).1 in
      let end = add_each-raised s t rest edges graph raised in
      let (sound, counts) =
        remove_each-lem edges g
          (IsPositive-same g graph same pos, IsAcyclic-same g graph same acyclic) in
      inr (
        ap (λ r. r.0) end,
        closes_cycle graph s t rest path,
        subst (λ r. IsSound r.1) (sym end) sound,
        λ a b. ground (
          arith,
          ap (λ r. count_waits r.1 a b) end,
          counts a b,
          same_count g graph a b (same a b),
        ),
      )
]

-- On a graph without cycles whose entries count at least one wait, `_add_wait_chain` either counts
-- every edge of the chain and returns the edges, and the graph still has no cycle; or it raises
-- ConfigurationError and every count is as before, and the edges of the chain would close a cycle.
pub add_wait_chain-lem :
    (graph : WaitGraph) (ancestry : List DependencyKey) (target : DependencyKey)
    → IsPositive graph
    → IsAcyclic graph
    → ((add_wait_chain graph ancestry target ≡ (
      ok (back (pairwise (ancestry ++ target ∷ [])) []),
      count_each (pairwise (ancestry ++ target ∷ [])) graph,
    ))
        × IsSound (count_each (pairwise (ancestry ++ target ∷ [])) graph))
      ⊎ (((add_wait_chain graph ancestry target).0 ≡ err configuration_error)
          × (IsAcyclic (count_each (pairwise (ancestry ++ target ∷ [])) graph) → ⊥)
          × IsSound (add_wait_chain graph ancestry target).1
          × ((a b : DependencyKey)
              → count_waits (add_wait_chain graph ancestry target).1 a b ≡ count_waits graph a b))
unfolding add_wait_chain
add_wait_chain-lem graph ancestry target pos acyclic =
    elim (add_each-cases (pairwise (ancestry ++ target ∷ [])) [] graph (pos, acyclic)) [
      | inl added ↦ inl added
      | inr (raised, cyclic, sound, same) ↦
          inr (raised, cyclic, sound, λ a b. ground (arith, same a b))
    ]
