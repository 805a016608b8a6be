-- ===== src/Modules/Upgrade/Claims.antt =====
-- Resource claims: no two claims of the modules of a platform are equal.
use businessos.Prelude.{
  String, Bool, true, false, not, ◌&&◌, ◌||◌, none, some, List, [], ◌∷◌, ◌++◌, ◌==◌, Eq, string_eq,
  pair_eq, contains, ◌≡◌, refl, ap, ◌∙◌, arith, Option-cases, inl, inr,
}
use businessos.Prelude.Dict.{Dict, get, put, get-put}
use businessos.Errors.{Result, ok, err, conflict_error, ◌>>=◌}
use businessos.Modules.Manifest.{ModuleManifest, is_unique}
use businessos.Modules.Upgrade.{allocate, claims_of, allocate_all, validate_resource_claims}

-- All claims of all manifests, in order.
abbrev pub all_claims : List ModuleManifest → List (String × String)
all_claims [] = []
all_claims (m ∷ ms) = claims_of m.resource_ownership ++ all_claims ms

abbrev pub outcome : Bool → Result (Unit {0})
outcome true = ok tt
outcome false = err conflict_error

abbrev succeeded {ℓ} : {A : Type ℓ} → Result A → Result (Unit {0})
succeeded (ok a) = ok tt
succeeded (err e) = err e

module _ {K V : Type 0} ⦃e : Eq K⦄ where
  abbrev is_taken : Dict K V → K → Bool
  is_taken d key = elim (get d key) [ none ↦ false | some owner ↦ true ]

  -- No key is in the dictionary or twice in the list.
  abbrev is_free : Dict K V → List K → Bool
  is_free d [] = true
  is_free d (key ∷ keys) = not (is_taken d key) && not (contains keys key) && is_free d keys

  taken_put :
      (d : Dict K V) (key k : K) (owner : V)
      → is_taken (put d key owner) k ≡ (key == k) || is_taken d k
  taken_put d key k owner = ground (arith, get-put d key k owner)

  free_put :
      (d : Dict K V) (key : K) (owner : V) (keys : List K)
      → is_free (put d key owner) keys ≡ is_free d keys && not (contains keys key)
  free_put d key owner [] = refl
  free_put d key owner (k ∷ keys) =
      ground (
        arith,
        free_put d key owner keys,
        taken_put d key k owner,
        e.eqb_iff key k,
        e.eqb_iff k key,
      )

  -- The same keys are taken.
  abbrev SameTaken : Dict K V → Dict K V → Type 0
  SameTaken c d = (k : K) → is_taken c k ≡ is_taken d k

  SameTaken-put :
      (c d : Dict K V) (key : K) (x y : V) → SameTaken c d → SameTaken (put c key x) (put d key y)
  SameTaken-put c d key x y h k = ground (arith, h k, taken_put c key k x, taken_put d key k y)

  free_nil : (d : Dict K V) (keys : List K) → d ≡ [] → is_free d keys ≡ is_unique keys
  unfolding get is_unique
  free_nil d [] h = refl
  free_nil d (k ∷ keys) h = ground (arith, free_nil d keys h, h)

abbrev Allocated : Type 0
Allocated = Dict (String × String) String

allocate-free :
    (owner : String) (d : Allocated) (keys : List (String × String))
    → succeeded (allocate owner d keys) ≡ outcome (is_free d keys)
unfolding allocate
allocate-free owner d [] = refl
allocate-free owner d (key ∷ keys) = elim (Option-cases (get d key)) [
  | inl free ↦
      rw (free, allocate)
        (rw (allocate-free owner (put d key owner) keys, free_put d key owner keys) (ground arith))
  | inr (prior, taken) ↦ rw (taken, allocate) (ground (arith, taken))
]

-- Equal up to the owners.
abbrev SameOutcome : Result Allocated → Result Allocated → Type 0
SameOutcome (ok c) (ok d) = SameTaken c d
SameOutcome (err a) (err b) = a ≡ b
SameOutcome (ok c) (err b) = ⊥
SameOutcome (err a) (ok d) = ⊥

allocate_same :
    (a b : String) (c d : Allocated) (keys : List (String × String))
    → SameTaken c d
    → SameOutcome (allocate a c keys) (allocate b d keys)
unfolding allocate
allocate_same a b c d [] h = h
allocate_same a b c d (key ∷ keys) h = elim (Option-cases (get c key)) [
  | inl free ↦ elim (Option-cases (get d key)) [
    | inl free_too ↦
        rw (free, free_too, allocate)
          (allocate_same a b (put c key a) (put d key b) keys (SameTaken-put c d key a b h))
    | inr (prior, taken) ↦ absurd (ground (arith, h key, free, taken))
  ]
  | inr (prior, taken) ↦ elim (Option-cases (get d key)) [
    | inl free ↦ absurd (ground (arith, h key, free, taken))
    | inr (other, taken_too) ↦ rw (taken, taken_too, allocate) refl
  ]
]

allocate-append :
    (owner : String) (d : Allocated) (xs ys : List (String × String))
    → allocate owner d (xs ++ ys) ≡ (allocate owner d xs >>= λ d'. allocate owner d' ys)
unfolding allocate
allocate-append owner d [] ys = refl
allocate-append owner d (key ∷ xs) ys = elim (Option-cases (get d key)) [
  | inl free ↦ rw (free, allocate) (allocate-append owner (put d key owner) xs ys)
  | inr (prior, taken) ↦ rw (taken, allocate) refl
]

succeeded_same : (r s : Result Allocated) → SameOutcome r s → succeeded r ≡ succeeded s
succeeded_same (ok c) (ok d) h = refl
succeeded_same (err a) (err b) h = ap err h
succeeded_same (ok c) (err b) h = absurd h
succeeded_same (err a) (ok d) h = absurd h

-- The owners do not matter to which claims are refused.
allocate_all-flat :
    (d : Allocated) (ms : List ModuleManifest)
    → succeeded (allocate_all d ms) ≡ succeeded (allocate "" d (all_claims ms))
unfolding allocate_all
allocate_all-flat d [] = unfold allocate in refl
allocate_all-flat d (m ∷ ms) =
    rw (allocate-append "" d (claims_of m.resource_ownership) (all_claims ms)) (
      go (allocate m.module_id d (claims_of m.resource_ownership))
        (allocate "" d (claims_of m.resource_ownership))
        (allocate_same m.module_id "" d d (claims_of m.resource_ownership) (λ k. refl))
        (λ c. allocate_all-flat c ms))
  where
    go :
        (r s : Result Allocated)
        → SameOutcome r s
        → ((c : Allocated)
            → succeeded (allocate_all c ms) ≡ succeeded (allocate "" c (all_claims ms)))
        → succeeded (r >>= λ c. allocate_all c ms)
          ≡ succeeded (s >>= λ c. allocate "" c (all_claims ms))
    go (ok c) (ok d') h ih = ih c ∙ succeeded_same _ _ (allocate_same "" "" c d' (all_claims ms) h)
    go (err a) (err b) h ih = ap err h
    go (ok c) (err b) h ih = absurd h
    go (err a) (ok d') h ih = absurd h

-- `_validate_resource_claims` accepts a set of manifests exactly when no two of all their claims,
-- canonical or alias, are the same namespace in the same contract version; otherwise it raises
-- ConflictError.
pub resource_claims_unique :
    (ms : List ModuleManifest) → validate_resource_claims ms ≡ outcome (is_unique (all_claims ms))
unfolding validate_resource_claims
resource_claims_unique ms =
    as_succeeded (allocate_all [] ms)
    ∙ allocate_all-flat [] ms
    ∙ allocate-free "" [] (all_claims ms)
    ∙ ap outcome (free_nil {V = String} [] (all_claims ms) refl)
  where
    as_succeeded : (r : Result Allocated) → (r >>= λ _. ok tt) ≡ succeeded r
    as_succeeded (ok d) = refl
    as_succeeded (err e) = refl
