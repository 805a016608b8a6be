-- ===== src/Di/Counts.antt =====
-- How often a source waits for a target, and what counting and removing a wait changes.
use businessos.Prelude.{
  ℕ, ◌&&◌, Option, none, some, [], ◌∷◌, ◌==◌, ==-eq, if◌then◌else◌, contains, ltb, ◌<◌, ◌+◌, ◌-◌,
  ◌≡◌, ◌∙◌, ap, arith, Bool-cases, Option-cases, inl, inr, is_some,
}
use businessos.Prelude.Dict.{Dict, get, put, remove, keys, get-put, get-remove, contains-keys}
use businessos.Prelude.Sorting.{sorted-contains, str_leb}
use businessos.Di.{DependencyKey, key_eq}
use businessos.Di.Waits.{
  WaitGraph, waits_of, count_of, dependencies, count_wait, set_waits, remove_wait,
}

-- How often the source waits for the target, or none where the graph has no entry for the two.
unfoldable pub waits : WaitGraph → DependencyKey → DependencyKey → Option ℕ
waits graph source target = get (waits_of graph source) target

abbrev pub or_zero : Option ℕ → ℕ
or_zero none = 0
or_zero (some n) = n

unfoldable pub count_waits : WaitGraph → DependencyKey → DependencyKey → ℕ
unfolding waits
count_waits graph source target = or_zero (waits graph source target)

-- Entries count at least one wait.
abbrev pub IsPositive : WaitGraph → Type 0
IsPositive graph = (a b : DependencyKey) (n : ℕ) → waits graph a b ≡ some n → 0 < n

pub waits-count_wait :
    (graph : WaitGraph) (s t a b : DependencyKey)
    → waits (count_wait graph s t) a b
      ≡ (if (s == a) && (t == b) then some (count_waits graph s t + 1) else waits graph a b)
unfolding waits count_waits count_wait waits_of count_of
waits-count_wait graph s t a b = elim (Bool-cases (s == a)) [
  | inl eq ↦ ground (
    arith,
    get-put graph s a (put (waits_of graph s) t (count_of (waits_of graph s) t + 1)),
    get-put (waits_of graph s) t b (count_of (waits_of graph s) t + 1),
    eq,
    ap (λ x. get graph x) (==-eq s a eq),
  )
  | inr ne ↦
      ground (
        arith,
        get-put graph s a (put (waits_of graph s) t (count_of (waits_of graph s) t + 1)),
        ne,
      )
]

lookup-set_waits :
    (graph : WaitGraph) (s a b : DependencyKey) (w : Dict DependencyKey ℕ)
    → get (waits_of (set_waits graph s w) a) b
      ≡ (if s == a then get w b else get (waits_of graph a) b)
unfolding waits_of get
lookup-set_waits graph s a b [] = ground (arith, get-remove graph s a)
lookup-set_waits graph s a b (x ∷ w) = ground (arith, get-put graph s a (x ∷ w))

pub waits-remove_wait :
    (graph : WaitGraph) (s t a b : DependencyKey)
    → waits (remove_wait graph s t) a b ≡ (
        if (s == a) && (t == b)
        then (if ltb 1 (count_waits graph s t) then some (count_waits graph s t - 1) else none)
        else waits graph a b)
unfolding waits count_waits remove_wait waits_of count_of get
waits-remove_wait graph s t a b = elim (Option-cases (get graph s)) [
  | inl absent ↦ elim (Bool-cases (s == a)) [
    | inl eq ↦ ground (arith, absent, eq, ap (λ x. get graph x) (==-eq s a eq))
    | inr ne ↦ ground (arith, absent, ne)
  ]
  | inr (w, at) ↦
      let now = if ltb 1 (count_of w t) then put w t (count_of w t - 1) else remove w t in
      elim (Bool-cases (s == a)) [
        | inl eq ↦ ground (
          arith,
          at,
          eq,
          ap (λ x. get graph x) (==-eq s a eq),
          lookup-set_waits graph s a b now,
          get-put w t b (count_of w t - 1),
          get-remove w t b,
        )
        | inr ne ↦ ground (arith, at, ne, lookup-set_waits graph s a b now)
      ]
]

pub contains-dependencies :
    (graph : WaitGraph) (a b : DependencyKey)
    → contains (dependencies graph a) b ≡ is_some (waits graph a b)
unfolding dependencies waits
contains-dependencies graph a b =
    sorted-contains (λ a b. str_leb a.name b.name) (keys (waits_of graph a)) b
    ∙ contains-keys (waits_of graph a) b
