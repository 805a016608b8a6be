-- ===== src/Activation/System.antt =====
-- The gate among concurrent tasks. `inside` holds one entry for each admission whose context has been
-- entered and not yet left, and `closing` one for each call of `close_and_drain` that waits, with a flag
-- for the event having been set since. A step is what one task does between two suspension points.
use businessos.Prelude.{
  ℕ, suc, ◌+◌, Bool, true, false, ◌||◌, Option, none, some, List, [], ◌∷◌, ◌++◌, String, ◌≡◌, arith,
  ◌==◌, if◌then◌else◌,
}
use businessos.Prelude.Dict.{get}
use businessos.Errors.{ok}
use businessos.Activation.{
  ContributionGeneration, generation_eq, ContributionGate, reserve, publish, enter, leave, unique,
  enter_many, leave_all, begin_close, finish_close, discard, retire, empty,
}

abbrev pub Closer : Type 0
Closer = ContributionGeneration × Bool

pub record System : Type 0 where
  pub gate : ContributionGate
  pub inside : List ContributionGeneration
  pub closing : List Closer

abbrev pub count : ContributionGeneration → List ContributionGeneration → ℕ
count g [] = 0
count g (h ∷ hs) = if h == g then suc (count g hs) else count g hs

abbrev pub start : System
start = record { gate = empty; inside = []; closing = [] }

-- state.drained.is_set()
unfoldable pub is_set : ContributionGate → ContributionGeneration → Bool
is_set s g = elim (get s.states g) [ none ↦ false | some st ↦ st.drained ]

-- The event, where it is set, wakes the calls that wait for it; they stay awake if it is cleared.
abbrev pub wake : ContributionGate → List Closer → List Closer
wake s [] = []
wake s ((g, woken) ∷ cs) = (g, woken || is_set s g) ∷ wake s cs

pub data Step (w : System) : System → Type 0 where
  reserves : (owner : String) → Step w (record w { gate = (reserve owner w.gate).1 })
  publishes : (g : ContributionGeneration) → Step w (record w { gate = (publish g w.gate).1 })
  enters :
      (g : ContributionGeneration)
      → (enter (some g) w.gate).0 ≡ ok tt
      → Step w (record w { gate = (enter (some g) w.gate).1; inside = g ∷ w.inside })
  leaves :
      (g : ContributionGeneration) (before after : List ContributionGeneration)
      → w.inside ≡ before ++ g ∷ after
      → Step w (record {
        gate = leave (some g) w.gate;
        inside = before ++ after;
        closing = wake (leave (some g) w.gate) w.closing;
      })
  enters_many :
      (gs : List (Option ContributionGeneration))
      → (enter_many gs w.gate).0 ≡ ok tt
      → Step w (record w { gate = (enter_many gs w.gate).1; inside = unique gs ++ w.inside })
  leaves_many :
      (gs before after : List ContributionGeneration)
      → w.inside ≡ before ++ (gs ++ after)
      → Step w (record {
        gate = leave_all gs w.gate;
        inside = before ++ after;
        closing = wake (leave_all gs w.gate) w.closing;
      })
  begins_close :
      (g : ContributionGeneration)
      → (begin_close g w.gate).0 ≡ ok tt
      → Step w
          (record w { gate = (begin_close g w.gate).1; closing = (g, is_set w.gate g) ∷ w.closing })
  finishes_close :
      (g : ContributionGeneration) (before after : List Closer)
      → w.closing ≡ before ++ (g, true) ∷ after
      → Step w (record w { gate = (finish_close true g w.gate).1; closing = before ++ after })
  times_out :
      (g : ContributionGeneration) (woken : Bool) (before after : List Closer)
      → w.closing ≡ before ++ (g, woken) ∷ after
      → Step w (record w { gate = (finish_close false g w.gate).1; closing = before ++ after })
  discards : (g : ContributionGeneration) → Step w (record w { gate = (discard g w.gate).1 })
  retires : (owner : String) → Step w (record w { gate = (retire owner w.gate).1 })

pub data Reach (w : System) : System → Type 0 where
  here : Reach w w
  next : {v u : System} → Reach w v → Step v u → Reach w u

-- The step publishes no generation, or another one.
abbrev pub IsUnpublished : (g : ContributionGeneration) {w v : System} → Step w v → Type 0
IsUnpublished g (publishes j) = (j == g) ≡ false
IsUnpublished g _ = Unit

-- No step on the way publishes the generation.
abbrev pub NeverPublished : (g : ContributionGeneration) {w v : System} → Reach w v → Type 0
NeverPublished g here = Unit
NeverPublished g (next path step) = NeverPublished g path × IsUnpublished g step

pub count-append :
    (g : ContributionGeneration) (xs ys : List ContributionGeneration)
    → count g (xs ++ ys) ≡ count g xs + count g ys
count-append g [] ys = omega arith
count-append g (x ∷ xs) ys = ground (arith, count-append g xs ys)
