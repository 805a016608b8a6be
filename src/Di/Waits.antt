-- ===== src/Di/Waits.antt =====
-- The wait graph of di.py: `_add_wait_chain`, `_add_wait`, `_remove_wait` and `_wait_path`. Each
-- method is a function of the graph that it reads or changes.
use businessos.Prelude.{
  ℕ, zero, suc, true, false, Option, none, some, List, [], ◌∷◌, ◌++◌, ◌==◌, if◌then◌else◌, contains,
  length, ltb, ◌+◌, ◌-◌,
}
use businessos.Prelude.Dict.{Dict, get, put, remove, keys}
use businessos.Prelude.Sorting.{sorted, str_leb}
use businessos.Errors.{Result, ok, err, configuration_error, runtime_error}
use businessos.Di.{DependencyKey, key_eq}

-- For each source the targets that it waits for, with the number of its waits.
abbrev pub WaitGraph : Type 0
WaitGraph = Dict DependencyKey (Dict DependencyKey ℕ)

abbrev pub Edge : Type 0
Edge = DependencyKey × DependencyKey

-- graph.get(source, {})
unfoldable pub waits_of : WaitGraph → DependencyKey → Dict DependencyKey ℕ
waits_of graph source = elim (get graph source) [ none ↦ [] | some waits ↦ waits ]

-- waits.get(target, 0)
unfoldable pub count_of : Dict DependencyKey ℕ → DependencyKey → ℕ
count_of waits target = elim (get waits target) [ none ↦ 0 | some n ↦ n ]

-- sorted(graph.get(current, ()), key=lambda item: item.name)
unfoldable pub dependencies : WaitGraph → DependencyKey → List DependencyKey
unfolding waits_of
dependencies graph current = sorted (λ a b. str_leb a.name b.name) (keys (waits_of graph current))

-- What `_wait_path` returns, with the visited keys after it; no `Found` means that the fuel ended.
abbrev pub Found : Type 0
Found = Option (List DependencyKey) × List DependencyKey

-- (current, *path)
abbrev pub after : DependencyKey → Option Found → Option Found
after current none = none
after current (some (none, visited)) = some (none, visited)
after current (some (some path, visited)) = some (some (current ∷ path), visited)

-- The loop over the dependencies, where `step` is the recursive call.
unfoldable pub try_each :
    (DependencyKey → List DependencyKey → Option Found)
    → List DependencyKey
    → List DependencyKey
    → Option Found
try_each step [] visited = some (none, visited)
try_each step (d ∷ ds) visited = elim (step d visited) [
  | none ↦ none
  | some (some path, visited') ↦ some (some path, visited')
  | some (none, visited') ↦ try_each step ds visited'
]

unfoldable pub search :
    ℕ → WaitGraph → DependencyKey → DependencyKey → List DependencyKey → Option Found
unfolding try_each dependencies
search zero graph current target visited = none
search (suc fuel) graph current target visited = elim (current == target) [
  | true ↦ some (some (current ∷ []), visited)
  | false ↦ elim (contains visited current) [
    | true ↦ some (none, visited)
    | false ↦ after current (
        try_each (λ d seen. search fuel graph d target seen) (dependencies graph current)
          (current ∷ visited))
  ]
]

-- `_wait_path` with no visited keys: the path or `none`, where the search ends on its fuel.
unfoldable pub wait_path :
    WaitGraph → DependencyKey → DependencyKey → Option (Option (List DependencyKey))
unfolding search
wait_path graph current target = elim (search (suc (length graph)) graph current target []) [
  | none ↦ none
  | some (path, visited) ↦ some path
]

-- The first two lines of `_add_wait`.
unfoldable pub count_wait : WaitGraph → DependencyKey → DependencyKey → WaitGraph
unfolding waits_of count_of
count_wait graph source target =
    let waits = waits_of graph source in
    put graph source (put waits target (count_of waits target + 1))

abbrev pub set_waits : WaitGraph → DependencyKey → Dict DependencyKey ℕ → WaitGraph
set_waits graph source [] = remove graph source
set_waits graph source (w ∷ waits) = put graph source (w ∷ waits)

unfoldable pub remove_wait : WaitGraph → DependencyKey → DependencyKey → WaitGraph
unfolding count_of
remove_wait graph source target = elim (get graph source) [
  | none ↦ graph
  | some waits ↦
      let count = count_of waits target in
      set_waits graph source
        (if ltb 1 count then put waits target (count - 1) else remove waits target)
]

-- A search that does not end would be the error of the language about its stack.
unfoldable pub add_wait : WaitGraph → DependencyKey → DependencyKey → Result (Unit {0}) × WaitGraph
unfolding count_wait wait_path remove_wait
add_wait graph source target =
    let counted = count_wait graph source target in
    elim (wait_path counted target source) [
      | none ↦ (err runtime_error, counted)
      | some none ↦ (ok tt, counted)
      | some (some path) ↦ (err configuration_error, remove_wait counted source target)
    ]

-- The loop of the two `except` and `finally` clauses, over the edges in reverse.
unfoldable pub remove_each : List Edge → WaitGraph → WaitGraph
unfolding remove_wait
remove_each [] graph = graph
remove_each ((source, target) ∷ edges) graph = remove_each edges (remove_wait graph source target)

abbrev pub pairwise : List DependencyKey → List Edge
pairwise [] = []
pairwise (a ∷ []) = []
pairwise (a ∷ b ∷ rest) = (a, b) ∷ pairwise (b ∷ rest)

-- The loop of `_add_wait_chain`; `edges` has the last edge first.
unfoldable pub add_each : List Edge → List Edge → WaitGraph → Result (List Edge) × WaitGraph
unfolding add_wait remove_each
add_each [] edges graph = (ok edges, graph)
add_each ((source, target) ∷ rest) edges graph =
    (let (added, graph') = add_wait graph source target in
      elim added [
        | ok _ ↦ add_each rest ((source, target) ∷ edges) graph'
        | err e ↦ (err e, remove_each edges graph')
      ])

-- `_add_wait_chain`; the edges that it returns are in reverse, as its callers remove them.
unfoldable pub add_wait_chain :
    WaitGraph → List DependencyKey → DependencyKey → Result (List Edge) × WaitGraph
unfolding add_each
add_wait_chain graph ancestry target = add_each (pairwise (ancestry ++ target ∷ [])) [] graph
