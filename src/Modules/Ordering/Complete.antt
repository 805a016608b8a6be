-- ===== src/Modules/Ordering/Complete.antt =====
-- `_ordered_manifests` finds an order whenever the dependencies are met and have no cycle.
use businessos.Prelude.{
  ℕ, zero, suc, ◌≤◌, ◌<◌, String, true, false, Option, none, some, List, [], ◌∷◌, ◌++◌, ==-refl,
  string_eq, if◌then◌else◌, contains, all, length, ltb, ◌≡◌, ◌≢◌, refl, arith, Bool-cases,
  Option-cases, inl, inr,
}
use businessos.Prelude.Dict.{Dict, get, keys}
use businessos.Prelude.Sorting.{sorted, str_leb, contains_iff_count, sorted-contains}
use businessos.Errors.{ok}
use businessos.Modules.Packaging.{Packaging}
use businessos.Modules.Manifest.{ModuleManifest, ModuleDependency}
use businessos.Modules.Ordering.{
  is_ready, ready_of, without, rounds, ordered_manifests, validate_dependencies,
}
use businessos.Modules.Ordering.Rounds.{is_ready_id, without-length_lt}
use businessos.Modules.Ordering.Total.{ready_of-member, ready_of-select, rounds-ready, length-keys}
use businessos.Modules.Ordering.Order.{IsConserved, round-IsConserved}

-- Every dependency of every manifest is there in a version that the range allows, and `rank` puts it
-- below the manifest.
pub record IsAcyclic (p : Packaging) (manifests : Dict String ModuleManifest) (rank : String → ℕ)
    : Type 0 where
  pub valid :
      (id : String) (m : ModuleManifest)
      → get manifests id ≡ some m
      → validate_dependencies p manifests m.dependencies ≡ ok tt
  pub ranked :
      (id : String) (m : ModuleManifest)
      → get manifests id ≡ some m
      → all (λ d. ltb (rank d.module_id) (rank id)) m.dependencies ≡ true

contains-keys :
    (d : Dict String ModuleManifest) (id : String) (m : ModuleManifest)
    → get d id ≡ some m
    → contains (keys d) id ≡ true
unfolding get
contains-keys [] id m h = absurd (cc)
contains-keys ((k, x) ∷ d) id m h = ground (arith, contains-keys d id m, h)

keys-known :
    (d : Dict String ModuleManifest) (id : String) → contains (keys d) id ≡ true → get d id ≢ none
unfolding get
keys-known [] id h e = cc
keys-known ((k, x) ∷ d) id h e = ground (arith, keys-known d id, h, e)

module _ (p : Packaging) (manifests : Dict String ModuleManifest) (rank : String → ℕ)
    (h : IsAcyclic p manifests rank) where
  -- A manifest that is not ready has a dependency that is not resolved.
  record Unmet (resolved : List String) (bound : ℕ) : Type 0 where
    id : String
    target : ModuleManifest
    unresolved : contains resolved id ≡ false
    known : get manifests id ≡ some target
    lower : rank id < bound

  unmet :
      (resolved : List String) (bound : ℕ) (ds : List ModuleDependency)
      → all (λ d. contains resolved d.module_id) ds ≡ false
      → all (λ d. ltb (rank d.module_id) bound) ds ≡ true
      → validate_dependencies p manifests ds ≡ ok tt
      → Unmet resolved bound
  unfolding validate_dependencies
  unmet resolved bound [] n r v = absurd (cc)
  unmet resolved bound (d ∷ ds) n r v = elim (Bool-cases (contains resolved d.module_id)) [
    | inl met ↦
        unmet resolved bound ds (ground (arith, n, met)) (ground (arith, r)) (ground (arith, v))
    | inr missing ↦ elim (Option-cases (get manifests d.module_id)) [
      | inl absent ↦ absurd (ground (arith, v, absent))
      | inr (target, known) ↦ record {
        id = d.module_id;
        target = target;
        unresolved = missing;
        known = known;
        lower = ground (arith, r);
      }
    ]
  ]

  -- A pending manifest that a round did not select has an unmet dependency, pending too.
  waits_for :
      (pending resolved : List String) (id : String)
      → IsConserved (keys manifests) pending resolved
      → ready_of p manifests resolved (sorted str_leb pending) ≡ ok []
      → contains pending id ≡ true
      → (below : String) × (contains pending below ≡ true) × (rank below < rank id)
  waits_for pending resolved id c idle m = elim (Option-cases (get manifests id)) [
    | inl absent ↦ absurd (keys-known manifests id is_key absent)
    | inr (target, known) ↦ elim (Bool-cases (is_ready resolved target)) [
      | inl ready ↦ absurd (
          ground (
            arith,
            ready_of-select p manifests resolved pending [] id idle m
                (rw (known, is_ready_id) ready),
          ))
      | inr idle_target ↦
          let u =
            unmet resolved (rank id) target.dependencies idle_target (h.ranked id target known)
              (h.valid id target known) in
          (
            u.id,
            ground (
              arith,
              c u.id,
              contains-keys manifests u.id u.target u.known,
              u.unresolved,
              contains_iff_count pending u.id,
              contains_iff_count resolved u.id,
              contains_iff_count (keys manifests) u.id,
            ),
            u.lower,
          )
    ]
  ]
    where
      is_key : contains (keys manifests) id ≡ true
      is_key =
          ground
            (arith, c id, m, contains_iff_count pending id, contains_iff_count (keys manifests) id)

  descent :
      (pending resolved : List String)
      → IsConserved (keys manifests) pending resolved
      → ready_of p manifests resolved (sorted str_leb pending) ≡ ok []
      → (n : ℕ) (id : String) → contains pending id ≡ true
      → rank id < n
      → ⊥
  descent pending resolved c idle zero id m lt = omega arith
  descent pending resolved c idle (suc n) id m lt =
      let (below, pending_too, lower) = waits_for pending resolved id c idle m in
      descent pending resolved c idle n below pending_too (omega arith)

  -- A round over known identifiers finds no error.
  ready_of_succeeds :
      (resolved ids : List String)
      → ((id : String) → contains ids id ≡ true → contains (keys manifests) id ≡ true)
      → (ready : List String) × (ready_of p manifests resolved ids ≡ ok ready)
  ready_of_succeeds resolved [] k = ([], unfold ready_of in refl)
  ready_of_succeeds resolved (id ∷ ids) k =
      go (ready_of_succeeds resolved ids (λ j m. k j (ground (arith, m)))) (get manifests id) refl
    where
      go :
          (ready : List String) × (ready_of p manifests resolved ids ≡ ok ready)
          → (o : Option ModuleManifest) → get manifests id ≡ o
          → (ready : List String) × (ready_of p manifests resolved (id ∷ ids) ≡ ok ready)
      go (rest, later) none is =
          absurd (keys-known manifests id (k id (ground (arith, ==-refl id))) is)
      go (rest, later) (some m) is = (
        if is_ready resolved m then id ∷ rest else rest,
        unfold ready_of in rw (is, ready_of) (rw (h.valid id m is) (rw later)),
      )

  rounds_succeed :
      (fuel : ℕ) (pending resolved : List String)
      → length pending ≤ fuel
      → IsConserved (keys manifests) pending resolved
      → (out : List String) × (rounds p manifests fuel pending resolved ≡ some (ok out))
  rounds_succeed zero [] resolved l c = (resolved, unfold rounds in refl)
  rounds_succeed (suc fuel) [] resolved l c = (resolved, unfold rounds in refl)
  rounds_succeed zero (k ∷ ks) resolved l c = absurd (omega arith)
  rounds_succeed (suc fuel) (k ∷ ks) resolved l c =
      let (ready, is) = ready_of_succeeds resolved (sorted str_leb (k ∷ ks)) known in
      go ready is (rounds_succeed fuel)
    where
      known :
          (id : String)
          → contains (sorted str_leb (k ∷ ks)) id ≡ true
          → contains (keys manifests) id ≡ true
      known id m = ground (
        arith,
        c id,
        m,
        sorted-contains str_leb (k ∷ ks) id,
        contains_iff_count (k ∷ ks) id,
        contains_iff_count (keys manifests) id,
      )

      go :
          (ready : List String)
          → ready_of p manifests resolved (sorted str_leb (k ∷ ks)) ≡ ok ready
          → ((pending resolved : List String)
              → length pending ≤ fuel
              → IsConserved (keys manifests) pending resolved
              → (out : List String) × (rounds p manifests fuel pending resolved ≡ some (ok out)))
          → (out : List String) × (rounds p manifests (suc fuel) (k ∷ ks) resolved ≡ some (ok out))
      go [] is ih = absurd (
          descent (k ∷ ks) resolved c is (suc (rank k)) k (ground (arith, ==-refl k)) (omega arith))
      go (first ∷ more) is ih =
          let pending =
            (ready_of-member p manifests resolved (k ∷ ks) (first ∷ more) first is
              (ground (arith, ==-refl first))).0 in
          let (out, e) =
            ih (without (first ∷ more) (k ∷ ks)) (resolved ++ first ∷ more)
              (omega (
                arith,
                without-length_lt (first ∷ more) (k ∷ ks) first (ground (arith, ==-refl first))
                    pending,
              ))
              (round-IsConserved p manifests (keys manifests) (k ∷ ks) resolved (first ∷ more) c
                is) in
          (out, rw (rounds-ready p manifests fuel k ks resolved first more is) e)

  -- If every dependency is met in an allowed version and a rank puts each below its manifest, so that
  -- there is no cycle, then `_ordered_manifests` returns an order.
  pub ordered_manifests_complete :
      (out : List String) × (ordered_manifests p manifests ≡ some (ok out))
  unfolding ordered_manifests
  ordered_manifests_complete =
      rounds_succeed (length manifests) (keys manifests) [] (omega (arith, length-keys manifests))
        (λ id. omega arith)
