-- ===== src/Activation/Invariant.antt =====
-- What holds of the gate of platform/src/businessos/activation.py however its tasks interleave.
use businessos.Prelude.{
  List, [], ◌∷◌, Option, ◌++◌, some, true, false, ◌≡◌, ap, refl, sym, subst, ◌∙◌, arith, ◌==◌,
  Bool-cases, inl, inr, ==-refl, Option-cases, string_eq, nat_eq,
}
use businessos.Prelude.Dict.{get, get-put}
use businessos.Errors.{ok}
use businessos.Activation.{
  ContributionGeneration, ContributionGate, generation_eq, GenerationState, begin_work, leave,
  begin_close, finish_close, is_active, begin_one, begin_all, all_active, enter_many, leave_all,
  unique, generation_eqb_iff,
}
use businessos.Activation.System.{
  System, Step, reserves, publishes, enters, leaves, enters_many, leaves_many, begins_close,
  finishes_close, times_out, discards, retires, Closer, wake, is_set, Reach, here, next, count,
  count-append, start,
}
use businessos.Activation.Coherence.{
  IsCoherent, update-IsCoherent, retire-IsCoherent, with_closing, reserve-IsCoherent,
  publish-IsCoherent, begin_close-IsCoherent, finish_close-IsCoherent, enter-IsCoherent,
  leave-IsCoherent, discard-IsCoherent,
}

-- One admission of a set.
begin_one-IsCoherent :
    (w : System) (g : ContributionGeneration)
    → IsCoherent w
    → is_active (some g) w.gate ≡ true
    → IsCoherent (record w { gate = begin_one g w.gate; inside = g ∷ w.inside })
unfolding begin_one is_active
begin_one-IsCoherent w g h live = elim (Option-cases (get w.gate.states g)) [
  | inl is ↦ absurd (ground (arith, is, live))
  | inr (st, is) ↦
      rw (is, begin_one)
        (let k = h.states g st is in
          update-IsCoherent w g st (begin_work st) (g ∷ w.inside) h is
            (record { counted = ground (arith, k.counted, ==-refl g); event = ground arith })
            (λ j ne. ground arith))
]

begin_one-active :
    (s : ContributionGate) (g j : ContributionGeneration)
    → is_active (some j) s ≡ true
    → is_active (some j) (begin_one g s) ≡ true
unfolding begin_one is_active
begin_one-active s g j live = elim (Option-cases (get s.states g)) [
  | inl is ↦ ground (arith, is, live)
  | inr (st, is) ↦
      ground
        (arith, is, live, get-put s.states g j (begin_work st), generation_eqb_iff g j, at_other st)
]
  where
    at_other : (st : GenerationState) → (g == j) ≡ true → get s.states g ≡ get s.states j
    at_other st e = ap (get s.states) ((generation_eqb_iff g j).0 e)

all_active-begin :
    (gs : List ContributionGeneration) (s : ContributionGate) (g : ContributionGeneration)
    → all_active gs s ≡ true
    → all_active gs (begin_one g s) ≡ true
unfolding all_active
all_active-begin [] s g h = refl
all_active-begin (j ∷ gs) s g h = ground (
  arith,
  h,
  begin_one-active s g j (ground (arith, h)),
  all_active-begin gs s g (ground (arith, h)),
)

-- Only the number of admissions of each generation matters.
recounted :
    (w : System) (inside : List ContributionGeneration)
    → ((g : ContributionGeneration) → count g inside ≡ count g w.inside)
    → IsCoherent w
    → IsCoherent (record w { inside = inside })
recounted w inside same h = record {
  states = λ g st is. record {
    counted = (h.states g st is).counted ∙ sym (same g);
    event = (h.states g st is).event;
  };
  known = λ g is. same g ∙ h.known g is;
  numbered = h.numbered;
}

count-append_first :
    (g h : ContributionGeneration) (gs inside : List ContributionGeneration)
    → count g ((h ∷ gs) ++ inside) ≡ count g (gs ++ (h ∷ inside))
count-append_first g h gs inside =
    ground (arith, count-append g (h ∷ gs) inside, count-append g gs (h ∷ inside))

begin_all-IsCoherent :
    (gs : List ContributionGeneration) (w : System)
    → IsCoherent w
    → all_active gs w.gate ≡ true
    → IsCoherent (record w { gate = begin_all gs w.gate; inside = gs ++ w.inside })
unfolding begin_all all_active
begin_all-IsCoherent [] w h live = h
begin_all-IsCoherent (g ∷ gs) w h live =
    recounted (record w { gate = begin_all gs (begin_one g w.gate); inside = gs ++ (g ∷ w.inside) })
      ((g ∷ gs) ++ w.inside) (λ j. count-append_first j g gs w.inside)
      (begin_all-IsCoherent gs (record w { gate = begin_one g w.gate; inside = g ∷ w.inside })
        (begin_one-IsCoherent w g h (ground (arith, live)))
        (all_active-begin gs w.gate g (ground (arith, live))))

enter_many-IsCoherent :
    (gs : List (Option ContributionGeneration)) (w : System)
    → IsCoherent w
    → (enter_many gs w.gate).0 ≡ ok tt
    → IsCoherent (record w { gate = (enter_many gs w.gate).1; inside = unique gs ++ w.inside })
unfolding enter_many
enter_many-IsCoherent gs w h done = elim (Bool-cases (all_active (unique gs) w.gate)) [
  | inl live ↦ rw live (begin_all-IsCoherent (unique gs) w h live)
  | inr idle ↦ absurd (ground (arith, done, idle))
]

leave_all-IsCoherent :
    (gs before after : List ContributionGeneration) (w : System)
    → IsCoherent w
    → w.inside ≡ before ++ (gs ++ after)
    → IsCoherent (record w { gate = leave_all gs w.gate; inside = before ++ after })
unfolding leave_all
leave_all-IsCoherent [] before after w h split =
    subst (λ i. IsCoherent (record w { inside = i })) split h
leave_all-IsCoherent (g ∷ gs) before after w h split =
    leave_all-IsCoherent gs before after
      (record w { gate = leave (some g) w.gate; inside = before ++ (gs ++ after) })
      (leave-IsCoherent w g h before (gs ++ after) split) refl

begin_close-steps :
    (w : System) (g : ContributionGeneration)
    → IsCoherent w
    → (cs : List Closer) → IsCoherent (record w { gate = (begin_close g w.gate).1; closing = cs })
begin_close-steps w g h cs =
    with_closing (record w { gate = (begin_close g w.gate).1 }) cs (begin_close-IsCoherent w g h)

Step-IsCoherent : {w v : System} → Step w v → IsCoherent w → IsCoherent v
Step-IsCoherent {w} (reserves owner) h = reserve-IsCoherent w owner h
Step-IsCoherent {w} (publishes g) h = publish-IsCoherent w g h
Step-IsCoherent {w} (enters g done) h = enter-IsCoherent w g h done
Step-IsCoherent {w} (leaves g before after split) h =
    with_closing (record w { gate = leave (some g) w.gate; inside = before ++ after })
      (wake (leave (some g) w.gate) w.closing) (leave-IsCoherent w g h before after split)
Step-IsCoherent {w} (enters_many gs done) h = enter_many-IsCoherent gs w h done
Step-IsCoherent {w} (leaves_many gs before after split) h =
    with_closing (record w { gate = leave_all gs w.gate; inside = before ++ after })
      (wake (leave_all gs w.gate) w.closing) (leave_all-IsCoherent gs before after w h split)
Step-IsCoherent {w} (begins_close g done) h =
    begin_close-steps w g h ((g, is_set w.gate g) ∷ w.closing)
Step-IsCoherent {w} (finishes_close g before after split) h =
    with_closing (record w { gate = (finish_close true g w.gate).1 }) (before ++ after)
      (finish_close-IsCoherent w g h true)
Step-IsCoherent {w} (times_out g woken before after split) h =
    with_closing (record w { gate = (finish_close false g w.gate).1 }) (before ++ after)
      (finish_close-IsCoherent w g h false)
Step-IsCoherent {w} (discards g) h = discard-IsCoherent w g h
Step-IsCoherent {w} (retires owner) h = retire-IsCoherent w owner h

start-IsCoherent : IsCoherent start
unfolding get
start-IsCoherent = record {
  states = λ g st p. absurd (cc);
  known = λ g p. refl;
  numbered = λ g st p. absurd (cc);
}

-- In every reachable system: the work in flight of a known generation is the number of admissions
-- that have not been left, its event is set exactly when there is none, an unknown generation has none,
-- and no generation has a number above the last reserved one.
pub Reach-IsCoherent : {w : System} → Reach start w → IsCoherent w
Reach-IsCoherent here = start-IsCoherent
Reach-IsCoherent (next r s) = Step-IsCoherent s (Reach-IsCoherent r)
