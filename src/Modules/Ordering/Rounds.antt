-- ===== src/Modules/Ordering/Rounds.antt =====
-- What one round of `_ordered_manifests` selects and what it leaves.
use businessos.Prelude.{
  ◌≤◌, ◌<◌, String, Bool, true, false, none, some, List, [], ◌∷◌, ◌==◌, ==-eq, string_eq,
  if◌then◌else◌, contains, length, count, ◌≡◌, refl, subst, arith, Bool-cases, Option-cases, inl,
  inr,
}
use businessos.Prelude.Dict.{Dict, get}
use businessos.Errors.{Result, ok, err}
use businessos.Modules.Packaging.{Packaging}
use businessos.Modules.Manifest.{ModuleManifest}
use businessos.Modules.Ordering.{validate_dependencies, is_ready, ready_of, without}

without-length : (gone ids : List String) → length (without gone ids) ≤ length ids
without-length gone [] = omega arith
without-length gone (id ∷ ids) = ground (arith, without-length gone ids)

-- Removing something that is there makes the list shorter.
pub without-length_lt :
    (gone ids : List String) (id : String)
    → contains gone id ≡ true
    → contains ids id ≡ true
    → length (without gone ids) < length ids
without-length_lt gone [] id g h = absurd (cc)
without-length_lt gone (k ∷ ids) id g h =
    ground (arith, without-length gone ids, without-length_lt gone ids id g, string_eq.eqb_iff k id)

pub without-count :
    (gone ids : List String) (id : String)
    → count id (without gone ids) ≡ (if contains gone id then 0 else count id ids)
without-count gone [] id = ground arith
without-count gone (k ∷ ids) id = ground (arith, without-count gone ids id, string_eq.eqb_iff k id)

-- The manifest of an identifier has all its dependencies in `resolved`.
abbrev pub is_ready_id : Dict String ModuleManifest → List String → String → Bool
is_ready_id manifests resolved id = elim (get manifests id) [
  | none ↦ false
  | some m ↦ is_ready resolved m
]

module _ (p : Packaging) (manifests : Dict String ModuleManifest) where
  -- The parts of a round that found no error.
  pub record Selected (resolved : List String) (k : String) (ids ready : List String) : Type 0 where
    pub manifest : ModuleManifest
    pub known : get manifests k ≡ some manifest
    pub valid : validate_dependencies p manifests manifest.dependencies ≡ ok tt
    pub rest : List String
    pub later : ready_of p manifests resolved ids ≡ ok rest
    pub all_of : ready ≡ (if is_ready resolved manifest then k ∷ rest else rest)

  pub ready_of-cons :
      (resolved ids : List String) (k : String) (ready : List String)
      → ready_of p manifests resolved (k ∷ ids) ≡ ok ready
      → Selected resolved k ids ready
  unfolding ready_of
  ready_of-cons resolved ids k ready h = elim (Option-cases (get manifests k)) [
    | inl absent ↦ absurd (ground (arith, h, absent))
    | inr (m, known) ↦
        go m known (validate_dependencies p manifests m.dependencies) refl
          (ready_of p manifests resolved ids) refl
  ]
    where
      go :
          (m : ModuleManifest)
          → get manifests k ≡ some m
          → (v : Result (Unit {0})) → validate_dependencies p manifests m.dependencies ≡ v
          → (l : Result (List String)) → ready_of p manifests resolved ids ≡ l
          → Selected resolved k ids ready
      go m known (err e) valid l later = absurd (ground (arith, h, known, valid))
      go m known (ok _) valid (err e) later = absurd (ground (arith, h, known, valid, later))
      go m known (ok _) valid (ok rest) later = record {
        manifest = m;
        known = known;
        valid = valid;
        rest = rest;
        later = later;
        all_of = ground (arith, h, known, valid, later);
      }

  pub ready_of-count :
      (resolved ids ready : List String) (id : String)
      → ready_of p manifests resolved ids ≡ ok ready
      → count id ready ≡ (if is_ready_id manifests resolved id then count id ids else 0)
  ready_of-count resolved [] ready id h = unfold ready_of in ground (arith, h)
  ready_of-count resolved (k ∷ ids) ready id h =
      let s = ready_of-cons resolved ids k ready h in
      step s (ready_of-count resolved ids s.rest id s.later)
    where
      step :
          (s : Selected resolved k ids ready)
          → count id s.rest ≡ (if is_ready_id manifests resolved id then count id ids else 0)
          → count id ready ≡ (if is_ready_id manifests resolved id then count id (k ∷ ids) else 0)
      step s ih = elim (Bool-cases (k == id)) [
        | inl at ↦ ground (
          arith,
          ih,
          s.all_of,
          at,
          subst (λ x. get manifests x ≡ some s.manifest) (==-eq k id at) s.known,
        )
        | inr ne ↦ ground (arith, ih, s.all_of, ne)
      ]
