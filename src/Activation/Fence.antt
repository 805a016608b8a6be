-- ===== src/Activation/Fence.antt =====
-- A generation that has begun to close, or that was discarded, admits no work until it is published
-- again.
use businessos.Prelude.{
  List, [], ◌∷◌, Option, ◌==◌, ◌+◌, ◌≤◌, some, String, Bool, true, false, ◌≡◌, ◌≢◌, refl, ap, subst,
  arith, ==-refl, contains, string_eq, Bool-cases, Option-cases, inl, inr, ltb,
}
use businessos.Prelude.Dict.{get, get-put, put-get-some, remove-get-some}
use businessos.Errors.{ok, err, not_found_error}
use businessos.Activation.{
  ContributionGeneration, generation_eq, GenerationState, ContributionState, ContributionGate,
  active, draining, inactive, fresh_state, begin_work, end_work, with_state, reserve, publish,
  enter, leave, begin_close, finish_close, discard, retire, find_state, or_zero, is_active_state,
  has_work, begin_one, begin_all, all_active, enter_many, leave_all, unique,
}
use businessos.Activation.System.{
  System, Step, reserves, publishes, enters, leaves, enters_many, leaves_many, begins_close,
  finishes_close, times_out, discards, retires, Closer, IsUnpublished, NeverPublished, Reach, here,
  next, start,
}
use businessos.Activation.Coherence.{IsCoherent}
use businessos.Activation.Invariant.{Reach-IsCoherent}

abbrev pub is_closing : ContributionState → Bool
is_closing draining = true
is_closing inactive = true
is_closing _ = false

-- The number has been given out, and an entry that is there is draining or inactive.
pub record IsClosed (g : ContributionGeneration) (s : ContributionGate) : Type 0 where
  pub given : g.number ≤ or_zero (get s.next_generation g.owner)
  pub shut : (st : GenerationState) → get s.states g ≡ some st → is_closing st.lifecycle ≡ true

module _ (g : ContributionGeneration) (s : ContributionGate) (h : IsClosed g s) where
  update-IsClosed :
      (j : ContributionGeneration) (st st' : GenerationState)
      → get s.states j ≡ some st
      → (is_closing st.lifecycle ≡ true → is_closing st'.lifecycle ≡ true)
      → IsClosed g (with_state s j st')
  update-IsClosed j st st' is keep = record {
    given = h.given;
    shut = λ x p. elim (put-get-some s.states j g st' p) [
      | inl (at, new) ↦
          subst (λ (y : GenerationState). is_closing y.lifecycle ≡ true) new
            (keep (h.shut st (subst (λ k. get s.states k ≡ some st) at is)))
      | inr (ne, old) ↦ h.shut x old
    ];
  }

  reserve-IsClosed : (owner : String) → IsClosed g (reserve owner s).1
  unfolding reserve
  reserve-IsClosed owner = elim (Bool-cases (contains s.retired owner)) [
    | inl gone ↦ rw gone h
    | inr admitted ↦ rw admitted (record {
      given = ground (
        arith,
        h.given,
        get-put s.next_generation owner g.owner (or_zero (get s.next_generation owner) + 1),
        string_eq.eqb_iff owner g.owner,
      );
      shut = λ x p.
          elim (put-get-some s.states
            (record { owner = owner; number = or_zero (get s.next_generation owner) + 1 }) g
            fresh_state p) [
              | inl (at, new) ↦ absurd (other owner at)
              | inr (ne, old) ↦ h.shut x old
            ];
    })
  ]
    where
      other :
          (owner : String)
          → record { owner = owner; number = or_zero (get s.next_generation owner) + 1 } ≢ g
      other owner at = omega (
        arith,
        h.given,
        ap (λ (k : ContributionGeneration). k.number) at,
        ap (λ (k : ContributionGeneration). or_zero (get s.next_generation k.owner)) at,
      )

  publish-IsClosed : (j : ContributionGeneration) → (j == g) ≡ false → IsClosed g (publish j s).1
  unfolding publish find_state
  publish-IsClosed j other = elim (Option-cases (get s.states j)) [
    | inl is ↦ rw (is, publish, find_state) h
    | inr (x, is) ↦ elim (Bool-cases (contains s.retired j.owner)) [
      | inl gone ↦ rw (is, publish, find_state, gone) h
      | inr admitted ↦
          rw (is, publish, find_state, admitted)
            (record {
              given = h.given;
              shut = λ y p. h.shut y (
                  ground (arith, p, other, get-put s.states j g (record x { lifecycle = active })));
            })
    ]
  ]

  enter-IsClosed : (j : ContributionGeneration) → IsClosed g (enter (some j) s).1
  unfolding enter
  enter-IsClosed j = elim (Option-cases (get s.states j)) [
    | inl is ↦ rw (is, enter) h
    | inr (x, is) ↦ elim (Bool-cases (is_active_state x.lifecycle)) [
      | inl live ↦ rw (is, enter, live) (update-IsClosed j x (begin_work x) is (λ c. c))
      | inr idle ↦ rw (is, enter, idle) h
    ]
  ]

  leave-IsClosed : (j : ContributionGeneration) → IsClosed g (leave (some j) s)
  unfolding leave
  leave-IsClosed j = elim (Option-cases (get s.states j)) [
    | inl is ↦ rw (is, leave) h
    | inr (x, is) ↦ rw (is, leave) (update-IsClosed j x (end_work x) is (λ c. c))
  ]

  begin_close-IsClosed : (j : ContributionGeneration) → IsClosed g (begin_close j s).1
  unfolding begin_close
  begin_close-IsClosed j = elim (Option-cases (get s.states j)) [
    | inl is ↦ rw (is, begin_close, find_state) h
    | inr (x, is) ↦
        rw (is, begin_close, find_state)
          (update-IsClosed j x (record x { lifecycle = draining }) is (λ c. refl))
  ]

  finish_close-IsClosed :
      (woken : Bool) (j : ContributionGeneration) → IsClosed g (finish_close woken j s).1
  unfolding finish_close
  finish_close-IsClosed false j = h
  finish_close-IsClosed true j = elim (Option-cases (get s.states j)) [
    | inl is ↦ rw (is, finish_close) h
    | inr (x, is) ↦
        rw (is, finish_close)
          (update-IsClosed j x (record x { lifecycle = inactive }) is (λ c. refl))
  ]

  discard-IsClosed : (j : ContributionGeneration) → IsClosed g (discard j s).1
  unfolding discard
  discard-IsClosed j = elim (Option-cases (get s.states j)) [
    | inl is ↦ rw (is, discard) h
    | inr (x, is) ↦ elim (Bool-cases (ltb 0 x.in_flight)) [
      | inl busy ↦ rw (is, discard, busy) h
      | inr quiet ↦
          rw (is, discard, quiet)
            (record { given = h.given; shut = λ y p. h.shut y (remove-get-some s.states j g p).1 })
    ]
  ]

  retire-IsClosed : (owner : String) → IsClosed g (retire owner s).1
  unfolding retire
  retire-IsClosed owner = elim (Bool-cases (has_work owner s.states)) [
    | inl busy ↦ rw busy h
    | inr quiet ↦ rw quiet (record { given = h.given; shut = h.shut })
  ]

  not-enter_of_closed : enter (some g) s ≡ (err not_found_error, s)
  unfolding enter
  not-enter_of_closed = elim (Option-cases (get s.states g)) [
    | inl is ↦ rw (is, enter)
    | inr (st, is) ↦ rw (is, enter, not_active st (h.shut st is))
  ]
    where
      not_active :
          (st : GenerationState)
          → is_closing st.lifecycle ≡ true
          → is_active_state st.lifecycle ≡ false
      not_active st c = ground arith

begin_one-IsClosed :
    (g j : ContributionGeneration) (s : ContributionGate)
    → IsClosed g s
    → IsClosed g (begin_one j s)
unfolding begin_one
begin_one-IsClosed g j s h = elim (Option-cases (get s.states j)) [
  | inl is ↦ rw (is, begin_one) h
  | inr (x, is) ↦ rw (is, begin_one) (update-IsClosed g s h j x (begin_work x) is (λ c. c))
]

begin_all-IsClosed :
    (g : ContributionGeneration) (gs : List ContributionGeneration) (s : ContributionGate)
    → IsClosed g s
    → IsClosed g (begin_all gs s)
unfolding begin_all
begin_all-IsClosed g [] s h = h
begin_all-IsClosed g (j ∷ gs) s h =
    begin_all-IsClosed g gs (begin_one j s) (begin_one-IsClosed g j s h)

enter_many-IsClosed :
    (g : ContributionGeneration) (gs : List (Option ContributionGeneration)) (s : ContributionGate)
    → IsClosed g s
    → IsClosed g (enter_many gs s).1
unfolding enter_many
enter_many-IsClosed g gs s h = elim (Bool-cases (all_active (unique gs) s)) [
  | inl live ↦ rw live (begin_all-IsClosed g (unique gs) s h)
  | inr idle ↦ rw idle h
]

leave_all-IsClosed :
    (g : ContributionGeneration) (gs : List ContributionGeneration) (s : ContributionGate)
    → IsClosed g s
    → IsClosed g (leave_all gs s)
unfolding leave_all
leave_all-IsClosed g [] s h = h
leave_all-IsClosed g (j ∷ gs) s h =
    leave_all-IsClosed g gs (leave (some j) s) (leave-IsClosed g s h j)

Step-IsClosed :
    (g : ContributionGeneration) {w v : System} (step : Step w v)
    → IsUnpublished g step
    → IsClosed g w.gate
    → IsClosed g v.gate
Step-IsClosed g {w} (reserves owner) other h = reserve-IsClosed g w.gate h owner
Step-IsClosed g {w} (publishes j) other h = publish-IsClosed g w.gate h j other
Step-IsClosed g {w} (enters j done) other h = enter-IsClosed g w.gate h j
Step-IsClosed g {w} (leaves j before after split) other h = leave-IsClosed g w.gate h j
Step-IsClosed g {w} (enters_many gs done) other h = enter_many-IsClosed g gs w.gate h
Step-IsClosed g {w} (leaves_many gs before after split) other h = leave_all-IsClosed g gs w.gate h
Step-IsClosed g {w} (begins_close j done) other h = begin_close-IsClosed g w.gate h j
Step-IsClosed g {w} (finishes_close j before after split) other h =
    finish_close-IsClosed g w.gate h true j
Step-IsClosed g {w} (times_out j woken before after split) other h =
    finish_close-IsClosed g w.gate h false j
Step-IsClosed g {w} (discards j) other h = discard-IsClosed g w.gate h j
Step-IsClosed g {w} (retires owner) other h = retire-IsClosed g w.gate h owner

Reach-IsClosed :
    (g : ContributionGeneration) {w v : System} (path : Reach w v)
    → NeverPublished g path
    → IsClosed g w.gate
    → IsClosed g v.gate
Reach-IsClosed g here never h = h
Reach-IsClosed g (next r s) (never, other) h = Step-IsClosed g s other (Reach-IsClosed g r never h)

begin_close_closes :
    (w : System) (g : ContributionGeneration)
    → IsCoherent w
    → (begin_close g w.gate).0 ≡ ok tt
    → IsClosed g (begin_close g w.gate).1
unfolding begin_close
begin_close_closes w g h done = elim (Option-cases (get w.gate.states g)) [
  | inl is ↦ absurd (ground (arith, is))
  | inr (st, is) ↦
      rw (is, begin_close, find_state)
        (record {
          given = h.numbered g st is;
          shut = λ x p.
              elim (put-get-some w.gate.states g g (record st { lifecycle = draining }) p) [
                | inl (at, new) ↦
                    subst (λ (y : GenerationState). is_closing y.lifecycle ≡ true) new refl
                | inr (ne, old) ↦ absurd (ground (arith, ne, ==-refl g))
              ];
        })
]

-- Once `close_and_drain` has begun on a generation of a reachable system, every later admission of
-- that generation is refused with NotFoundError and changes nothing, whatever the other tasks do, as
-- long as none of them publishes that generation again.
pub closed_until_publish :
    {w v : System} (g : ContributionGeneration) (cs : List Closer)
    → Reach start w
    → (begin_close g w.gate).0 ≡ ok tt
    → (path : Reach (record w { gate = (begin_close g w.gate).1; closing = cs }) v)
    → NeverPublished g path
    → enter (some g) v.gate ≡ (err not_found_error, v.gate)
closed_until_publish {w} {v} g cs before done path never =
    not-enter_of_closed g v.gate
      (Reach-IsClosed g path never (begin_close_closes w g (Reach-IsCoherent before) done))
