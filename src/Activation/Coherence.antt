-- ===== src/Activation/Coherence.antt =====
-- The agreement of the counts and events of the gate of platform/src/businessos/activation.py with the
-- admissions inside, and the single operations that keep it.
use businessos.Prelude.{
  ℕ, suc, ◌+◌, ◌≤◌, List, ◌∷◌, Bool, ◌++◌, none, some, String, true, false, ◌≡◌, ltb, ap, refl, sym,
  subst, ◌∙◌, arith, ◌==◌, Bool-cases, inl, inr, ==-refl, Option-cases, contains, string_eq, nat_eq,
}
use businessos.Prelude.Dict.{
  get, put, get-put, put-get-some, put-get-none, remove-get-some, remove-get-none,
}
use businessos.Errors.{ok}
use businessos.Activation.{
  ContributionGeneration, generation_eq, GenerationState, ContributionState, active, draining,
  inactive, fresh_state, begin_work, with_state, end_work, reserve, publish, enter, leave,
  begin_close, finish_close, discard, retire, find_state, or_zero, is_active_state, has_work,
}
use businessos.Activation.System.{System, Closer, count, count-append}

-- Of one generation: the work in flight is the number of admissions, and the event tells whether there
-- is any.
pub record IsCounted (inside : List ContributionGeneration) (g : ContributionGeneration)
    (st : GenerationState) : Type 0 where
  pub counted : st.in_flight ≡ count g inside
  pub event : st.drained ≡ (st.in_flight == 0)

pub record IsCoherent (w : System) : Type 0 where
  pub states :
      (g : ContributionGeneration) (st : GenerationState)
      → get w.gate.states g ≡ some st
      → IsCounted w.inside g st
  pub known : (g : ContributionGeneration) → get w.gate.states g ≡ none → count g w.inside ≡ 0
  pub numbered :
      (g : ContributionGeneration) (st : GenerationState)
      → get w.gate.states g ≡ some st
      → g.number ≤ or_zero (get w.gate.next_generation g.owner)

-- A change of one known entry keeps the invariant if it keeps it there.
pub update-IsCoherent :
    (w : System) (g : ContributionGeneration) (st st' : GenerationState)
    (inside' : List ContributionGeneration)
    → IsCoherent w
    → get w.gate.states g ≡ some st
    → IsCounted inside' g st'
    → ((j : ContributionGeneration) → (g == j) ≡ false → count j inside' ≡ count j w.inside)
    → IsCoherent (record w { gate = with_state w.gate g st'; inside = inside' })
update-IsCoherent w g st st' inside' h e c same = record {
  states = λ j x p. elim (put-get-some w.gate.states g j st' p) [
    | inl (at, is) ↦ subst (λ k. IsCounted inside' k x) at (subst (IsCounted inside' g) is c)
    | inr (ne, old) ↦ keep j x ne (h.states j x old)
  ];
  known = λ j p. let (ne, old) = put-get-none w.gate.states g j st' p in same j ne ∙ h.known j old;
  numbered = λ j x p. elim (put-get-some w.gate.states g j st' p) [
    | inl (at, is) ↦
        subst
          (λ (k : ContributionGeneration). k.number ≤ or_zero (get w.gate.next_generation k.owner))
          at (h.numbered g st e)
    | inr (ne, old) ↦ h.numbered j x old
  ];
}
  where
    keep :
        (j : ContributionGeneration) (x : GenerationState)
        → (g == j) ≡ false
        → IsCounted w.inside j x
        → IsCounted inside' j x
    keep j x ne k = record { counted = k.counted ∙ sym (same j ne); event = k.event }

-- The number that `reserve` gives next.
abbrev next_number : System → String → ℕ
next_number w owner = or_zero (get w.gate.next_generation owner) + 1

abbrev next_of : System → String → ContributionGeneration
next_of w owner = record { owner = owner; number = next_number w owner }

-- No entry has it yet.
next-unknown :
    (w : System) (owner : String) → IsCoherent w → get w.gate.states (next_of w owner) ≡ none
next-unknown w owner h = elim (Option-cases (get w.gate.states (next_of w owner))) [
  | inl none_ ↦ none_
  | inr (st, is) ↦ absurd (omega (arith, h.numbered (next_of w owner) st is))
]

next_number_grows :
    (w : System) (owner j : String)
    → or_zero (get w.gate.next_generation j)
      ≤ or_zero (get (put w.gate.next_generation owner (next_number w owner)) j)
next_number_grows w owner j =
    ground (
      arith,
      get-put w.gate.next_generation owner j (next_number w owner),
      string_eq.eqb_iff owner j,
    )

next_number_at :
    (w : System) (owner : String)
    → next_number w owner
      ≤ or_zero (get (put w.gate.next_generation owner (next_number w owner)) owner)
next_number_at w owner = rw (get-put, ==-refl) (omega arith)

module _ (w : System) (owner : String) (h : IsCoherent w) where
  reserve_states :
      (j : ContributionGeneration) (x : GenerationState)
      → get (put w.gate.states (next_of w owner) fresh_state) j ≡ some x
      → IsCounted w.inside j x
  reserve_states j x p = elim (put-get-some w.gate.states (next_of w owner) j fresh_state p) [
    | inl (at, is) ↦
        subst (λ k. IsCounted w.inside k x) at
          (subst (IsCounted w.inside (next_of w owner)) is (record {
            counted = sym (h.known (next_of w owner) (next-unknown w owner h));
            event = refl;
          }))
    | inr (ne, old) ↦ h.states j x old
  ]

  reserve_numbered :
      (j : ContributionGeneration) (x : GenerationState)
      → get (put w.gate.states (next_of w owner) fresh_state) j ≡ some x
      → j.number ≤ or_zero (get (put w.gate.next_generation owner (next_number w owner)) j.owner)
  reserve_numbered j x p = elim (put-get-some w.gate.states (next_of w owner) j fresh_state p) [
    | inl (at, is) ↦
        subst
          (λ (k : ContributionGeneration).
            k.number
            ≤ or_zero (get (put w.gate.next_generation owner (next_number w owner)) k.owner))
          at (next_number_at w owner)
    | inr (ne, old) ↦ omega (arith, h.numbered j x old, next_number_grows w owner j.owner)
  ]

  pub reserve-IsCoherent : IsCoherent (record w { gate = (reserve owner w.gate).1 })
  unfolding reserve
  reserve-IsCoherent = elim (Bool-cases (contains w.gate.retired owner)) [
    | inl gone ↦ rw gone h
    | inr admitted ↦ rw admitted (record {
      states = reserve_states;
      known = λ j p. h.known j (put-get-none w.gate.states (next_of w owner) j fresh_state p).1;
      numbered = reserve_numbered;
    })
  ]

-- An update that leaves the work in flight alone.
relabel-IsCoherent :
    (w : System) (g : ContributionGeneration) (st : GenerationState) (to : ContributionState)
    → IsCoherent w
    → get w.gate.states g ≡ some st
    → IsCoherent (record w { gate = with_state w.gate g (record st { lifecycle = to }) })
relabel-IsCoherent w g st to h is =
    let k = h.states g st is in
    update-IsCoherent w g st (record st { lifecycle = to }) w.inside h is
      (record { counted = k.counted; event = k.event }) (λ _ _. refl)

module _ (w : System) (g : ContributionGeneration) (h : IsCoherent w) where
  pub publish-IsCoherent : IsCoherent (record w { gate = (publish g w.gate).1 })
  unfolding publish
  publish-IsCoherent = elim (Option-cases (get w.gate.states g)) [
    | inl is ↦ rw (is, publish, find_state) h
    | inr (st, is) ↦ elim (Bool-cases (contains w.gate.retired g.owner)) [
      | inl gone ↦ rw (is, publish, find_state, gone) h
      | inr admitted ↦
          rw (is, publish, find_state, admitted) (relabel-IsCoherent w g st active h is)
    ]
  ]

  pub begin_close-IsCoherent : IsCoherent (record w { gate = (begin_close g w.gate).1 })
  unfolding begin_close
  begin_close-IsCoherent = elim (Option-cases (get w.gate.states g)) [
    | inl is ↦ rw (is, begin_close, find_state) h
    | inr (st, is) ↦ rw (is, begin_close, find_state) (relabel-IsCoherent w g st draining h is)
  ]

  pub finish_close-IsCoherent :
      (woken : Bool) → IsCoherent (record w { gate = (finish_close woken g w.gate).1 })
  unfolding finish_close
  finish_close-IsCoherent false = h
  finish_close-IsCoherent true = elim (Option-cases (get w.gate.states g)) [
    | inl is ↦ rw (is, finish_close) h
    | inr (st, is) ↦ rw (is, finish_close) (relabel-IsCoherent w g st inactive h is)
  ]

  pub enter-IsCoherent :
      (enter (some g) w.gate).0 ≡ ok tt
      → IsCoherent (record w { gate = (enter (some g) w.gate).1; inside = g ∷ w.inside })
  unfolding enter
  enter-IsCoherent done = elim (Option-cases (get w.gate.states g)) [
    | inl is ↦ absurd (ground arith)
    | inr (st, is) ↦ elim (Bool-cases (is_active_state st.lifecycle)) [
      | inl live ↦
          rw (is, enter, live)
            (let k = h.states g st is in
              update-IsCoherent w g st (begin_work st) (g ∷ w.inside) h is
                (record { counted = ground (arith, k.counted, ==-refl g); event = ground arith })
                (λ j ne. ground arith))
      | inr shut ↦ absurd (ground arith)
    ]
  ]

  pub leave-IsCoherent :
      (before after : List ContributionGeneration)
      → w.inside ≡ before ++ g ∷ after
      → IsCoherent (record w { gate = leave (some g) w.gate; inside = before ++ after })
  unfolding leave
  leave-IsCoherent before after split = elim (Option-cases (get w.gate.states g)) [
    | inl is ↦
        absurd (omega (arith, h.known g is, count_split before after g split, count_self after g))
    | inr (st, is) ↦
        rw (is, leave)
          (let k = h.states g st is in
            update-IsCoherent w g st (end_work st) (before ++ after) h is
              (record {
                counted = omega (
                  arith,
                  k.counted,
                  count_split before after g split,
                  count_self after g,
                  count-append g before after,
                );
                event = ground (arith, k.event);
              })
              (λ j ne.
                ground (arith, count_split before after j split, count-append j before after)))
  ]
    where
      count_split :
          (before after : List ContributionGeneration) (j : ContributionGeneration)
          → w.inside ≡ before ++ g ∷ after
          → count j w.inside ≡ count j before + count j (g ∷ after)
      count_split before after j e = ap (count j) e ∙ count-append j before (g ∷ after)

      count_self :
          (after : List ContributionGeneration) (j : ContributionGeneration)
          → count j (j ∷ after) ≡ suc (count j after)
      count_self after j = ground (arith, ==-refl j)

  pub discard-IsCoherent : IsCoherent (record w { gate = (discard g w.gate).1 })
  unfolding discard
  discard-IsCoherent = elim (Option-cases (get w.gate.states g)) [
    | inl is ↦ rw (is, discard) h
    | inr (st, is) ↦ elim (Bool-cases (ltb 0 st.in_flight)) [
      | inl busy ↦ rw (is, discard, busy) h
      | inr quiet ↦
          rw (is, discard, quiet)
            (record {
              states = λ j x p. h.states j x (remove-get-some w.gate.states g j p).1;
              known = λ j p. elim (remove-get-none w.gate.states g j p) [
                | inl at ↦
                    subst (λ k. count k w.inside ≡ 0) at
                      (ground (arith, (h.states g st is).counted))
                | inr old ↦ h.known j old
              ];
              numbered = λ j x p. h.numbered j x (remove-get-some w.gate.states g j p).1;
            })
    ]
  ]

pub retire-IsCoherent :
    (w : System) (owner : String)
    → IsCoherent w
    → IsCoherent (record w { gate = (retire owner w.gate).1 })
unfolding retire
retire-IsCoherent w owner h = elim (Bool-cases (has_work owner w.gate.states)) [
  | inl busy ↦ rw busy h
  | inr quiet ↦ rw quiet (record { states = h.states; known = h.known; numbered = h.numbered })
]

-- What is known of a gate and its admissions does not depend on the calls that wait.
pub with_closing :
    (w : System) (cs : List Closer) → IsCoherent w → IsCoherent (record w { closing = cs })
with_closing w cs h = record { states = h.states; known = h.known; numbered = h.numbered }
