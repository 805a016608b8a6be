-- ===== src/Activation/AdmitMany.antt =====
-- `admit_many` of platform/src/businessos/activation.py: its generations are admitted together.
use businessos.Prelude.{
  List, [], ◌∷◌, Option, none, some, Bool, true, false, not, ◌&&◌, ◌≡◌, refl, ◌∙◌, arith, ◌==◌,
  if◌then◌else◌, contains, Bool-cases, Option-cases, inl, inr,
}
use businessos.Prelude.Dict.{get, get-put}
use businessos.Errors.{ok, err, not_found_error}
use businessos.Activation.{
  ContributionGeneration, generation_eq, generation_eqb_iff, GenerationState, ContributionGate,
  begin_work, is_active, all_active, begin_all, begin_one, unique, discard_item, enter_many,
}

abbrev pub each_active : List (Option ContributionGeneration) → ContributionGate → Bool
each_active [] s = true
each_active (g ∷ gs) s = is_active g s && each_active gs s

abbrev pub is_named : List (Option ContributionGeneration) → ContributionGeneration → Bool
is_named [] j = false
is_named (none ∷ gs) j = is_named gs j
is_named (some g ∷ gs) j = if g == j then true else is_named gs j

abbrev distinct : List ContributionGeneration → Bool
distinct [] = true
distinct (g ∷ gs) = not (contains gs g) && distinct gs

module _ (g : ContributionGeneration) where
  discard_item-all :
      (gs : List ContributionGeneration) (s : ContributionGate)
      → is_active (some g) s ≡ true
      → all_active (discard_item g gs) s ≡ all_active gs s
  unfolding discard_item all_active
  discard_item-all [] s h = refl
  discard_item-all (k ∷ gs) s h = ground (arith, discard_item-all gs s h, generation_eqb_iff k g)

  discard_item-contains :
      (gs : List ContributionGeneration) (j : ContributionGeneration)
      → contains (discard_item g gs) j ≡ not (g == j) && contains gs j
  unfolding discard_item
  discard_item-contains [] j = ground arith
  discard_item-contains (k ∷ gs) j = ground (
    arith,
    discard_item-contains gs j,
    generation_eqb_iff k g,
    generation_eqb_iff k j,
    generation_eqb_iff g j,
  )

  discard_item-distinct :
      (gs : List ContributionGeneration) → distinct gs ≡ true → distinct (discard_item g gs) ≡ true
  unfolding discard_item
  discard_item-distinct [] h = refl
  discard_item-distinct (k ∷ gs) h =
      ground (arith, discard_item-distinct gs, discard_item-contains gs k)

unique-all :
    (gs : List (Option ContributionGeneration)) (s : ContributionGate)
    → all_active (unique gs) s ≡ each_active gs s
unfolding unique all_active is_active
unique-all [] s = refl
unique-all (none ∷ gs) s = unique-all gs s
unique-all (some g ∷ gs) s = elim (Bool-cases (is_active (some g) s)) [
  | inl live ↦ rw live (discard_item-all g (unique gs) s live ∙ unique-all gs s)
  | inr idle ↦ rw idle
]

unique-distinct : (gs : List (Option ContributionGeneration)) → distinct (unique gs) ≡ true
unfolding unique
unique-distinct [] = refl
unique-distinct (none ∷ gs) = unique-distinct gs
unique-distinct (some g ∷ gs) = ground (
  arith,
  discard_item-contains g (unique gs) g,
  discard_item-distinct g (unique gs) (unique-distinct gs),
  generation_eqb_iff g g,
)

unique-contains :
    (gs : List (Option ContributionGeneration)) (j : ContributionGeneration)
    → contains (unique gs) j ≡ is_named gs j
unfolding unique
unique-contains [] j = refl
unique-contains (none ∷ gs) j = unique-contains gs j
unique-contains (some g ∷ gs) j =
    ground (arith, unique-contains gs j, discard_item-contains g (unique gs) j)

begin_one-get :
    (g : ContributionGeneration) (s : ContributionGate) (j : ContributionGeneration)
    (st : GenerationState)
    → get s.states j ≡ some st
    → get (begin_one g s).states j ≡ some (if g == j then begin_work st else st)
unfolding begin_one
begin_one-get g s j st is = elim (Option-cases (get s.states g)) [
  | inl absent ↦ rw (absent, begin_one) (ground (arith, absent, is, generation_eqb_iff g j))
  | inr (x, known) ↦
      rw (known, begin_one) (rw get-put (ground (arith, known, is, generation_eqb_iff g j)))
]

begin_all-get :
    (gs : List ContributionGeneration) (s : ContributionGate) (j : ContributionGeneration)
    (st : GenerationState)
    → distinct gs ≡ true
    → get s.states j ≡ some st
    → get (begin_all gs s).states j ≡ some (if contains gs j then begin_work st else st)
begin_all-get [] s j st d is = unfold begin_all in is
begin_all-get (g ∷ gs) s j st d is =
    let later =
      begin_all-get gs (begin_one g s) j (if g == j then begin_work st else st) (ground arith)
        (begin_one-get g s j st is) in
    step later
  where
    step :
        get (begin_all gs (begin_one g s)).states j
          ≡ some (
              if contains gs j
              then begin_work (if g == j then begin_work st else st)
              else (if g == j then begin_work st else st))
        → get (begin_all (g ∷ gs) s).states j
          ≡ some (if contains (g ∷ gs) j then begin_work st else st)
    step e = unfold begin_all in ground (arith, e, generation_eqb_iff g j)

-- `admit_many` raises NotFoundError and changes nothing unless every generation that it names is
-- active. If they all are, each generation that is named, be it once or often, has one more unit of
-- work in flight and a cleared event, and the other entries are as they were.
pub enter_many_lem :
    (gs : List (Option ContributionGeneration)) (s : ContributionGate)
    → (each_active gs s ≡ false → enter_many gs s ≡ (err not_found_error, s))
      × (each_active gs s ≡ true
          → ((enter_many gs s).0 ≡ ok tt)
            × ((j : ContributionGeneration) (st : GenerationState)
                → get s.states j ≡ some st
                → get (enter_many gs s).1.states j
                  ≡ some (if is_named gs j then begin_work st else st)))
enter_many_lem gs s = (
  (λ idle. unfold enter_many in rw (unique-all gs s, idle)),
  (λ live. (
    unfold enter_many in rw (unique-all gs s, live),
    (λ j st is.
        unfold enter_many in
        rw (unique-all gs s, live)
          (rw (← unique-contains gs j) (begin_all-get (unique gs) s j st (unique-distinct gs) is))),
  )),
)
