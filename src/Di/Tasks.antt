-- ===== src/Di/Tasks.antt =====
-- The tasks that resolve dependencies, as steps on the graph and on the edges that they hold. A task
-- adds its chain before it waits, and removes the edges of the chain in its `finally` clause.
use businessos.Prelude.{ℕ, List, [], ◌∷◌, ◌++◌, ◌+◌, ◌≡◌, sym, ◌∙◌, subst, ap, arith, inl, inr}
use businessos.Errors.{Result, ok, err, Error}
use businessos.Di.{DependencyKey, key_eq}
use businessos.Di.Waits.{WaitGraph, Edge, pairwise, remove_each, add_wait_chain}
use businessos.Di.Counts.{count_waits, IsPositive}
use businessos.Di.Acyclic.{IsAcyclic}
use businessos.Di.Chains.{
  IsSound, times, times-back, back, count-count_each, remove_each-lem, add_wait_chain-lem,
}

-- The graph, and the edges of each task that waits.
pub data Step : WaitGraph × List (List Edge) → WaitGraph × List (List Edge) → Type 0 where
  begins :
      {graph graph' : WaitGraph} {held : List (List Edge)} {edges : List Edge}
      (ancestry : List DependencyKey) (target : DependencyKey)
      → add_wait_chain graph ancestry target ≡ (ok edges, graph')
      → Step (graph, held) (graph', edges ∷ held)
  refused :
      {graph graph' : WaitGraph} {held : List (List Edge)} {e : Error}
      (ancestry : List DependencyKey) (target : DependencyKey)
      → add_wait_chain graph ancestry target ≡ (err e, graph')
      → Step (graph, held) (graph', held)
  ends :
      {graph : WaitGraph} (before : List (List Edge)) (edges : List Edge) (later : List (List Edge))
      → Step (graph, before ++ edges ∷ later) (remove_each edges graph, before ++ later)

pub data Reach : WaitGraph × List (List Edge) → WaitGraph × List (List Edge) → Type 0 where
  here : {s : WaitGraph × List (List Edge)} → Reach s s
  next : {s t u : WaitGraph × List (List Edge)} → Reach s t → Step t u → Reach s u

-- How often the tasks hold an edge.
abbrev pub holds : DependencyKey → DependencyKey → List (List Edge) → ℕ
holds a b [] = 0
holds a b (edges ∷ held) = times a b edges + holds a b held

holds-append :
    (a b : DependencyKey) (xs ys : List (List Edge))
    → holds a b (xs ++ ys) ≡ holds a b xs + holds a b ys
holds-append a b [] ys = omega arith
holds-append a b (x ∷ xs) ys = ground (arith, holds-append a b xs ys)

-- The graph counts exactly the edges that tasks hold, and no key waits for itself along them.
pub record IsSettled (s : WaitGraph × List (List Edge)) : Type 0 where
  pub positive : IsPositive s.0
  pub acyclic : IsAcyclic s.0
  pub counted : (a b : DependencyKey) → count_waits s.0 a b ≡ holds a b s.1

same_times :
    (a b : DependencyKey) (xs ys : List Edge)
    → Result.ok xs ≡ Result.ok ys
    → times a b xs ≡ times a b ys
same_times a b xs ys e = ap (times a b) (ground (arith, e))

Step-IsSettled : {s t : WaitGraph × List (List Edge)} → Step s t → IsSettled s → IsSettled t
Step-IsSettled (begins {graph} {graph'} {held} {edges} ancestry target is) settled =
    let chain = pairwise (ancestry ++ target ∷ []) in
    elim (add_wait_chain-lem graph ancestry target settled.positive settled.acyclic) [
      | inl (added, sound) ↦
          let end = sym is ∙ added in
          let sound' = subst (λ r. IsSound r.1) (sym end) sound in
          record {
            positive = sound'.0;
            acyclic = sound'.1;
            counted = λ a b. ground (
              arith,
              settled.counted a b,
              count-count_each chain graph a b,
              times-back a b chain [],
              ap (λ r. count_waits r.1 a b) end,
              same_times a b edges (back chain []) (ap (λ r. r.0) end),
            );
          }
      | inr (raised, cyclic, sound, same) ↦ absurd (ground (arith, sym (ap (λ r. r.0) is) ∙ raised))
    ]
Step-IsSettled (refused {graph} {graph'} {held} {e} ancestry target is) settled =
    elim (add_wait_chain-lem graph ancestry target settled.positive settled.acyclic) [
      | inl (added, sound) ↦ absurd (ground (arith, sym is ∙ added))
      | inr (raised, cyclic, sound, same) ↦
          let sound' = subst (λ r. IsSound r.1) is sound in
          record {
            positive = sound'.0;
            acyclic = sound'.1;
            counted =
                λ a b. sym (ap (λ r. count_waits r.1 a b) is) ∙ same a b ∙ settled.counted a b;
          }
    ]
Step-IsSettled (ends {graph} before edges later) settled =
    let (sound, counts) = remove_each-lem edges graph (settled.positive, settled.acyclic) in
    record {
      positive = sound.0;
      acyclic = sound.1;
      counted = λ a b. ground (
        arith,
        counts a b,
        settled.counted a b,
        holds-append a b before (edges ∷ later),
        holds-append a b before later,
      );
    }

-- From a graph that counts exactly what the tasks hold and has no cycle, in particular from the empty
-- one, every interleaving of chains that are added, refused and removed leads to such a graph: the
-- count of each edge is the number of times that waiting tasks hold it, and no key waits for itself
-- along edges of the graph.
pub Reach-IsSettled : {s t : WaitGraph × List (List Edge)} → Reach s t → IsSettled s → IsSettled t
Reach-IsSettled here settled = settled
Reach-IsSettled (next path step) settled = Step-IsSettled step (Reach-IsSettled path settled)
