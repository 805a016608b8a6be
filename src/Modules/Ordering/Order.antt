-- ===== src/Modules/Ordering/Order.antt =====
-- What `_ordered_manifests` returns: every manifest once, each behind its dependencies, and always
-- a result where the dependencies are met and have no cycle.
use businessos.Prelude.{
  ◌+◌, String, true, false, Option, none, some, List, [], ◌∷◌, ◌++◌, ==-refl, string_eq, contains,
  all, length, count, count-append, contains-append, ◌≡◌, refl, arith,
}
use mathlib.Core.List.{append-nil, append_assoc}
use businessos.Prelude.Dict.{Dict, get, keys}
use businessos.Prelude.Sorting.{sorted, str_leb, sorted-count, contains_iff_count}
use businessos.Errors.{ok}
use businessos.Modules.Packaging.{Packaging}
use businessos.Modules.Manifest.{ModuleManifest, ModuleDependency}
use businessos.Modules.Ordering.{is_ready, ready_of, without, ordered_manifests}
use businessos.Modules.Ordering.Rounds.{without-count, is_ready_id, ready_of-count}
use businessos.Modules.Ordering.Total.{ready_of-member, rounds_inv}

are_met_mono :
    (seen more : List String) (ds : List ModuleDependency)
    → all (λ d. contains seen d.module_id) ds ≡ true
    → all (λ d. contains (seen ++ more) d.module_id) ds ≡ true
are_met_mono seen more [] h = refl
are_met_mono seen more (d ∷ ds) h =
    ground (arith, are_met_mono seen more ds, contains-append seen more d.module_id)

module _ (manifests : Dict String ModuleManifest) where
  -- Each identifier has a manifest whose dependencies are all in `seen` or before it.
  abbrev pub IsOrdered : List String → List String → Type 0
  IsOrdered seen [] = Unit
  IsOrdered seen (id ∷ ids) =
      (is_ready_id manifests seen id ≡ true) × IsOrdered (seen ++ id ∷ []) ids

  is_ready_id_mono :
      (seen more : List String) (id : String)
      → is_ready_id manifests seen id ≡ true
      → is_ready_id manifests (seen ++ more) id ≡ true
  is_ready_id_mono seen more id = go (get manifests id)
    where
      go :
          (o : Option ModuleManifest)
          → (elim o [ none ↦ false | some m ↦ is_ready seen m ]) ≡ true
          → (elim o [ none ↦ false | some m ↦ is_ready (seen ++ more) m ]) ≡ true
      go none h = h
      go (some m) h = are_met_mono seen more m.dependencies h

  IsOrdered-block :
      (seen ys : List String)
      → ((id : String) → contains ys id ≡ true → is_ready_id manifests seen id ≡ true)
      → IsOrdered seen ys
  IsOrdered-block seen [] h = tt
  IsOrdered-block seen (y ∷ ys) h = (
    h y (ground (arith, ==-refl y)),
    IsOrdered-block (seen ++ y ∷ []) ys
        (λ id m. is_ready_id_mono seen (y ∷ []) id (h id (ground (arith, m)))),
  )

  IsOrdered-append :
      (seen xs ys : List String)
      → IsOrdered seen xs
      → ((id : String) → contains ys id ≡ true → is_ready_id manifests (seen ++ xs) id ≡ true)
      → IsOrdered seen (xs ++ ys)
  IsOrdered-append seen [] ys h r = IsOrdered-block seen ys (λ id m. rw append-nil at (r id m))
  IsOrdered-append seen (x ∷ xs) ys h r =
      (h.0, IsOrdered-append (seen ++ x ∷ []) xs ys h.1 (λ id m. rw append_assoc (r id m)))

-- Nothing is lost or repeated by a round.
abbrev pub IsConserved : List String → List String → List String → Type 0
IsConserved all_ids pending resolved =
    (id : String) → count id resolved + count id pending ≡ count id all_ids

module _ (p : Packaging) (manifests : Dict String ModuleManifest) where
  pub round-IsConserved :
      (all_ids pending resolved ready : List String)
      → IsConserved all_ids pending resolved
      → ready_of p manifests resolved (sorted str_leb pending) ≡ ok ready
      → IsConserved all_ids (without ready pending) (resolved ++ ready)
  round-IsConserved all_ids pending resolved ready h r id = ground (
    arith,
    h id,
    count-append id resolved ready,
    without-count ready pending id,
    ready_of-count p manifests resolved (sorted str_leb pending) ready id r,
    sorted-count str_leb id pending,
    contains_iff_count ready id,
  )

  -- A successful `_ordered_manifests` returns each manifest once, and each behind the manifests that
  -- it depends on.
  pub ordered_manifests_order :
      (out : List String)
      → ordered_manifests p manifests ≡ some (ok out)
      → IsOrdered manifests [] out × ((id : String) → count id out ≡ count id (keys manifests))
  unfolding ordered_manifests
  ordered_manifests_order out h = (
    rounds_inv p manifests (λ pending resolved. IsOrdered manifests [] resolved)
        (λ pending resolved ready o r.
          IsOrdered-append manifests [] resolved ready o
            (λ id m. (ready_of-member p manifests resolved pending ready id r m).1))
        (length manifests) (keys manifests) [] out h tt,
    λ id. omega (
      arith,
      rounds_inv p manifests (IsConserved (keys manifests))
          (λ pending resolved ready c r.
            round-IsConserved (keys manifests) pending resolved ready c r)
          (length manifests) (keys manifests) [] out h (λ id. omega arith) id,
    ),
  )
