-- ===== src/Modules/Ordering/Total.antt =====
-- The loop of `_ordered_manifests` ends, and a rule for its invariants.
use businessos.Prelude.{
  ℕ, zero, suc, ◌≤◌, String, true, some, List, [], ◌∷◌, ◌++◌, ==-refl, string_eq, contains, length,
  ◌≡◌, refl, subst, arith,
}
use businessos.Prelude.Dict.{Dict, keys}
use businessos.Prelude.Sorting.{sorted, str_leb, sorted-count, contains_iff_count}
use businessos.Errors.{Error, Result, ok, err, configuration_error}
use businessos.Modules.Packaging.{Packaging}
use businessos.Modules.Manifest.{ModuleManifest}
use businessos.Modules.Ordering.{ready_of, without, rounds, ordered_manifests}
use businessos.Modules.Ordering.Rounds.{without-length_lt, is_ready_id, ready_of-count}

module _ (p : Packaging) (manifests : Dict String ModuleManifest) where
  -- A selected identifier is pending and ready.
  pub ready_of-member :
      (resolved ids ready : List String) (id : String)
      → ready_of p manifests resolved (sorted str_leb ids) ≡ ok ready
      → contains ready id ≡ true
      → (contains ids id ≡ true) × (is_ready_id manifests resolved id ≡ true)
  ready_of-member resolved ids ready id h m = ground (
    arith,
    ready_of-count p manifests resolved (sorted str_leb ids) ready id h,
    sorted-count str_leb id ids,
    contains_iff_count ready id,
    contains_iff_count ids id,
  )

  -- A pending identifier that is ready is selected.
  pub ready_of-select :
      (resolved ids ready : List String) (id : String)
      → ready_of p manifests resolved (sorted str_leb ids) ≡ ok ready
      → contains ids id ≡ true
      → is_ready_id manifests resolved id ≡ true
      → contains ready id ≡ true
  ready_of-select resolved ids ready id h m r = ground (
    arith,
    ready_of-count p manifests resolved (sorted str_leb ids) ready id h,
    sorted-count str_leb id ids,
    contains_iff_count ready id,
    contains_iff_count ids id,
  )

  rounds-nil :
      (fuel : ℕ) (resolved out : List String)
      → rounds p manifests fuel [] resolved ≡ some (ok out)
      → resolved ≡ out
  unfolding rounds
  rounds-nil zero resolved out h = ground (arith, h)
  rounds-nil (suc fuel) resolved out h = ground (arith, h)

  -- `rounds` at a selection that is at hand.
  pub rounds-ready :
      (fuel : ℕ) (k : String) (ks resolved : List String) (first : String) (more : List String)
      → ready_of p manifests resolved (sorted str_leb (k ∷ ks)) ≡ ok (first ∷ more)
      → rounds p manifests (suc fuel) (k ∷ ks) resolved
        ≡ rounds p manifests fuel (without (first ∷ more) (k ∷ ks)) (resolved ++ first ∷ more)
  unfolding rounds
  rounds-ready fuel k ks resolved first more h = rw (h, rounds)

  rounds-stuck :
      (fuel : ℕ) (k : String) (ks resolved : List String)
      → ready_of p manifests resolved (sorted str_leb (k ∷ ks)) ≡ ok []
      → rounds p manifests (suc fuel) (k ∷ ks) resolved ≡ some (err configuration_error)
  unfolding rounds
  rounds-stuck fuel k ks resolved h = rw (h, rounds)

  rounds-invalid :
      (fuel : ℕ) (k : String) (ks resolved : List String) (e : Error)
      → ready_of p manifests resolved (sorted str_leb (k ∷ ks)) ≡ err e
      → rounds p manifests (suc fuel) (k ∷ ks) resolved ≡ some (err e)
  unfolding rounds
  rounds-invalid fuel k ks resolved e h = rw (h, rounds)

  pub rounds_total :
      (fuel : ℕ) (pending resolved : List String)
      → length pending ≤ fuel
      → (r : Result (List String)) × (rounds p manifests fuel pending resolved ≡ some r)
  rounds_total zero [] resolved h = (ok resolved, unfold rounds in refl)
  rounds_total (suc fuel) [] resolved h = (ok resolved, unfold rounds in refl)
  rounds_total zero (k ∷ ks) resolved h = absurd (omega arith)
  rounds_total (suc fuel) (k ∷ ks) resolved h =
      go (ready_of p manifests resolved (sorted str_leb (k ∷ ks))) refl (rounds_total fuel)
    where
      go :
          (selected : Result (List String))
          → ready_of p manifests resolved (sorted str_leb (k ∷ ks)) ≡ selected
          → ((pending resolved : List String)
              → length pending ≤ fuel
              → (r : Result (List String)) × (rounds p manifests fuel pending resolved ≡ some r))
          → (r : Result (List String)) × (rounds p manifests (suc fuel) (k ∷ ks) resolved ≡ some r)
      go (err e) is ih = (err e, rounds-invalid fuel k ks resolved e is)
      go (ok []) is ih = (err configuration_error, rounds-stuck fuel k ks resolved is)
      go (ok (first ∷ more)) is ih =
          let pending =
            (ready_of-member resolved (k ∷ ks) (first ∷ more) first is
              (ground (arith, ==-refl first))).0 in
          let (r, e) = ih (without (first ∷ more) (k ∷ ks)) (resolved ++ first ∷ more) (
            omega (
              arith,
              without-length_lt (first ∷ more) (k ∷ ks) first (ground (arith, ==-refl first))
                  pending,
            )) in
          (r, rw (rounds-ready fuel k ks resolved first more is) e)

  -- An invariant of the loop holds of its result, with nothing pending.
  pub rounds_inv :
      (P : List String → List String → Type 0)
      → ((pending resolved ready : List String)
          → P pending resolved
          → ready_of p manifests resolved (sorted str_leb pending) ≡ ok ready
          → P (without ready pending) (resolved ++ ready))
      → (fuel : ℕ) (pending resolved out : List String)
      → rounds p manifests fuel pending resolved ≡ some (ok out)
      → P pending resolved
      → P [] out
  rounds_inv P keep zero [] resolved out h start =
      subst (P []) (rounds-nil zero resolved out h) start
  rounds_inv P keep (suc fuel) [] resolved out h start =
      subst (P []) (rounds-nil (suc fuel) resolved out h) start
  rounds_inv P keep zero (k ∷ ks) resolved out h start = absurd (unfold rounds in ground (arith, h))
  rounds_inv P keep (suc fuel) (k ∷ ks) resolved out h start =
      go (ready_of p manifests resolved (sorted str_leb (k ∷ ks))) refl (rounds_inv P keep fuel)
    where
      go :
          (selected : Result (List String))
          → ready_of p manifests resolved (sorted str_leb (k ∷ ks)) ≡ selected
          → ((pending resolved out : List String)
              → rounds p manifests fuel pending resolved ≡ some (ok out)
              → P pending resolved
              → P [] out)
          → P [] out
      go (err e) is ih = absurd (ground (arith, h, rounds-invalid fuel k ks resolved e is))
      go (ok []) is ih = absurd (ground (arith, h, rounds-stuck fuel k ks resolved is))
      go (ok (first ∷ more)) is ih =
          ih (without (first ∷ more) (k ∷ ks)) (resolved ++ first ∷ more) out
            (rw (rounds-ready fuel k ks resolved first more is) at h)
            (keep (k ∷ ks) resolved (first ∷ more) start is)

pub length-keys : (d : Dict String ModuleManifest) → length (keys d) ≡ length d
length-keys [] = refl
length-keys (entry ∷ d) = omega (arith, length-keys d)

-- The dependency resolution ends: the number of manifests is fuel enough.
pub ordered_manifests_total :
    (p : Packaging) (manifests : Dict String ModuleManifest)
    → (r : Result (List String)) × (ordered_manifests p manifests ≡ some r)
unfolding ordered_manifests
ordered_manifests_total p manifests =
    rounds_total p manifests (length manifests) (keys manifests) []
      (omega (arith, length-keys manifests))
