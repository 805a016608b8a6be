-- ===== src/Activation.antt =====
-- platform/src/businessos/activation.py: the contribution gate, which admits work to the
-- generations of a module. The methods take the gate and return it beside their result. The two
-- parts of a context manager are two functions (`enter`, `leave`), and so are the two parts of
-- `close_and_drain`, between which other tasks run.
pub mod System
pub mod Coherence
pub mod Invariant
pub mod Fence
pub mod Admission
pub mod AdmitMany
use businessos.Prelude.{
  ℕ, zero, ◌+◌, ◌-◌, String, Bool, true, false, not, ◌&&◌, ◌||◌, Option, none, some, List, [], ◌∷◌,
  Eq, ◌==◌, ==-eq, nat_eq, string_eq, if◌then◌else◌, contains, any, arith, ◌↔◌, ◌≡◌, ltb,
}
use businessos.Prelude.Dict.{Dict, get, put, remove, keys}
use businessos.Errors.{Result, ok, err, configuration_error, not_found_error, timeout_error}

pub data ContributionState : Type 0 where
  staged active draining inactive : ContributionState

abbrev pub is_active_state : ContributionState → Bool
is_active_state active = true
is_active_state _ = false

pub record ContributionGeneration : Type 0 where
  pub owner : String
  pub number : ℕ

abbrev generation_eqb : ContributionGeneration → ContributionGeneration → Bool
generation_eqb g h = (g.owner == h.owner) && (g.number == h.number)

pub generation_eqb_iff : (g h : ContributionGeneration) → (generation_eqb g h ≡ true) ↔ (g ≡ h)
generation_eqb_iff g h = ground (arith, string_eq.eqb_iff g.owner h.owner)

instance abbrev pub generation_eq : Eq ContributionGeneration
generation_eq = record { eqb = generation_eqb; eqb_iff = generation_eqb_iff }

-- `drained` is the flag of the asyncio event.
pub record GenerationState : Type 0 where
  pub lifecycle : ContributionState
  pub in_flight : ℕ
  pub drained : Bool

pub record ContributionGate : Type 0 where
  pub next_generation : Dict String ℕ
  pub states : Dict ContributionGeneration GenerationState
  pub retired : List String

abbrev pub empty : ContributionGate
empty = record { next_generation = []; states = []; retired = [] }

abbrev pub with_state :
    ContributionGate → ContributionGeneration → GenerationState → ContributionGate
with_state s g st = record s { states = put s.states g st }

abbrev pub or_zero : Option ℕ → ℕ
or_zero none = 0
or_zero (some n) = n

abbrev pub fresh_state : GenerationState
fresh_state = record { lifecycle = staged; in_flight = 0; drained = true }

unfoldable pub reserve :
    String → ContributionGate → Result ContributionGeneration × ContributionGate
reserve owner s =
    if contains s.retired owner
    then (err configuration_error, s)
    else (let number = or_zero (get s.next_generation owner) + 1 in
        let generation : ContributionGeneration = record { owner = owner; number = number } in
        (
          ok generation,
          record s {
            next_generation = put s.next_generation owner number;
            states = put s.states generation fresh_state;
          },
        ))

-- `_state`
unfoldable pub find_state : ContributionGeneration → ContributionGate → Result GenerationState
find_state g s = elim (get s.states g) [ none ↦ err configuration_error | some st ↦ ok st ]

unfoldable pub publish :
    ContributionGeneration → ContributionGate → Result (Unit {0}) × ContributionGate
unfolding find_state
publish g s = elim (find_state g s) [
  | err e ↦ (err e, s)
  | ok st ↦
      if contains s.retired g.owner
      then (err configuration_error, s)
      else (ok tt, with_state s g (record st { lifecycle = active }))
]

unfoldable pub is_active : Option ContributionGeneration → ContributionGate → Bool
is_active none s = true
is_active (some g) s = elim (get s.states g) [
  | none ↦ false
  | some st ↦ is_active_state st.lifecycle
]

filter_keys :
    (ContributionGeneration → Bool) → List ContributionGeneration → List ContributionGeneration
filter_keys p [] = []
filter_keys p (g ∷ gs) = if p g then g ∷ filter_keys p gs else filter_keys p gs

unfoldable pub active_generation : String → ContributionGate → Result ContributionGeneration
unfolding filter_keys is_active
active_generation owner s =
    elim (filter_keys (λ g. (g.owner == owner) && is_active (some g) s) (keys s.states)) [
      | [] ↦ err not_found_error
      | g ∷ rest ↦ elim rest [ [] ↦ ok g | h ∷ more ↦ err not_found_error ]
    ]

-- The entry of `admit`, and of `admit_many` for one of its generations.
abbrev pub begin_work : GenerationState → GenerationState
begin_work st = record st { in_flight = st.in_flight + 1; drained = false }

-- The `finally` block of `admit`.
abbrev pub end_work : GenerationState → GenerationState
end_work st =
    let left = st.in_flight - 1 in
    record st { in_flight = left; drained = if left == 0 then true else st.drained }

unfoldable pub enter :
    Option ContributionGeneration → ContributionGate → Result (Unit {0}) × ContributionGate
enter none s = (ok tt, s)
enter (some g) s = elim (get s.states g) [
  | none ↦ (err not_found_error, s)
  | some st ↦
      if is_active_state st.lifecycle
      then (ok tt, with_state s g (begin_work st))
      else (err not_found_error, s)
]

unfoldable pub leave : Option ContributionGeneration → ContributionGate → ContributionGate
leave none s = s
leave (some g) s = elim (get s.states g) [ none ↦ s | some st ↦ with_state s g (end_work st) ]

unfoldable pub discard_item :
    ContributionGeneration → List ContributionGeneration → List ContributionGeneration
discard_item g [] = []
discard_item g (h ∷ hs) = let rest = discard_item g hs in if h == g then rest else h ∷ rest

-- tuple(dict.fromkeys(item for item in generations if item is not None))
unfoldable pub unique : List (Option ContributionGeneration) → List ContributionGeneration
unfolding discard_item
unique [] = []
unique (none ∷ gs) = unique gs
unique (some g ∷ gs) = g ∷ discard_item g (unique gs)

-- The first loop of `admit_many`: every generation is looked up before any is counted.
unfoldable pub all_active : List ContributionGeneration → ContributionGate → Bool
all_active [] s = true
all_active (g ∷ gs) s = is_active (some g) s && all_active gs s

unfoldable pub begin_one : ContributionGeneration → ContributionGate → ContributionGate
begin_one g s = elim (get s.states g) [ none ↦ s | some st ↦ with_state s g (begin_work st) ]

unfoldable pub begin_all : List ContributionGeneration → ContributionGate → ContributionGate
unfolding begin_one
begin_all [] s = s
begin_all (g ∷ gs) s = begin_all gs (begin_one g s)

unfoldable pub enter_many :
    List (Option ContributionGeneration) → ContributionGate → Result (Unit {0}) × ContributionGate
unfolding unique all_active begin_all
enter_many gs s =
    if all_active (unique gs) s then (ok tt, begin_all (unique gs) s) else (err not_found_error, s)

unfoldable pub leave_all : List ContributionGeneration → ContributionGate → ContributionGate
unfolding leave
leave_all [] s = s
leave_all (g ∷ gs) s = leave_all gs (leave (some g) s)

-- `close_and_drain` up to its wait.
unfoldable pub begin_close :
    ContributionGeneration → ContributionGate → Result (Unit {0}) × ContributionGate
unfolding find_state
begin_close g s = elim (find_state g s) [
  | err e ↦ (err e, s)
  | ok st ↦ (ok tt, with_state s g (record st { lifecycle = draining }))
]

-- `close_and_drain` after its wait: the wait has ended, or the timeout has ended it. The work that
-- other tasks began meanwhile is not looked at.
unfoldable pub finish_close :
    Bool → ContributionGeneration → ContributionGate → Result (Unit {0}) × ContributionGate
finish_close woken g s =
    if woken
    then (elim (get s.states g) [
      | none ↦ (ok tt, s)
      | some st ↦ (ok tt, with_state s g (record st { lifecycle = inactive }))
    ])
    else (err timeout_error, s)

unfoldable pub discard :
    ContributionGeneration → ContributionGate → Result (Unit {0}) × ContributionGate
discard g s = elim (get s.states g) [
  | none ↦ (ok tt, s)
  | some st ↦
      if ltb 0 st.in_flight
      then (err configuration_error, s)
      else (ok tt, record s { states = remove s.states g })
]

unfoldable pub has_work : String → Dict ContributionGeneration GenerationState → Bool
has_work owner [] = false
has_work owner ((g, st) ∷ d) = ((g.owner == owner) && ltb 0 st.in_flight) || has_work owner d

unfoldable pub retire : String → ContributionGate → Result (Unit {0}) × ContributionGate
unfolding has_work
retire owner s = if has_work owner s.states then (err configuration_error, s) else (
  ok tt,
  record s { retired = if contains s.retired owner then s.retired else owner ∷ s.retired },
)
