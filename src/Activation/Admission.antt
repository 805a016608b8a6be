-- ===== src/Activation/Admission.antt =====
-- Retired owners, the unique active generation of an owner, and admission of several generations.
use businessos.Prelude.{
  ℕ, List, [], ◌∷◌, some, String, Bool, true, false, ◌&&◌, ◌≡◌, refl, arith, ◌==◌, ==-refl,
  contains, string_eq,
}
use businessos.Prelude.Dict.{keys}
use businessos.Errors.{ok, err, configuration_error}
use businessos.Activation.{
  ContributionGeneration, generation_eq, generation_eqb_iff, ContributionGate, reserve, publish,
  enter, leave, begin_close, finish_close, discard, retire, find_state, is_active,
  active_generation, filter_keys, begin_one, begin_all, enter_many, leave_all, unique,
}
use businessos.Activation.System.{
  System, Step, reserves, publishes, enters, leaves, enters_many, leaves_many, begins_close,
  finishes_close, times_out, discards, retires, Reach, here, next,
}

abbrev pub IsRetired : String → ContributionGate → Type 0
IsRetired owner s = contains s.retired owner ≡ true

begin_all-retired :
    (gs : List ContributionGeneration) (s : ContributionGate) → (begin_all gs s).retired ≡ s.retired
unfolding begin_all begin_one
begin_all-retired [] s = refl
begin_all-retired (g ∷ gs) s = ground (arith, begin_all-retired gs (begin_one g s))

leave_all-retired :
    (gs : List ContributionGeneration) (s : ContributionGate) → (leave_all gs s).retired ≡ s.retired
unfolding leave_all leave
leave_all-retired [] s = refl
leave_all-retired (g ∷ gs) s = ground (arith, leave_all-retired gs (leave (some g) s))

Step-IsRetired :
    (owner : String) {w v : System} → Step w v → IsRetired owner w.gate → IsRetired owner v.gate
unfolding reserve publish enter leave enter_many begin_close finish_close discard retire
Step-IsRetired owner {w} (reserves o) h = ground arith
Step-IsRetired owner {w} (publishes j) h = ground arith
Step-IsRetired owner {w} (enters j done) h = ground arith
Step-IsRetired owner {w} (leaves j before after split) h = ground arith
Step-IsRetired owner {w} (enters_many gs done) h =
    ground (arith, h, begin_all-retired (unique gs) w.gate)
Step-IsRetired owner {w} (leaves_many gs before after split) h =
    ground (arith, h, leave_all-retired gs w.gate)
Step-IsRetired owner {w} (begins_close j done) h = ground arith
Step-IsRetired owner {w} (finishes_close j before after split) h = ground arith
Step-IsRetired owner {w} (times_out j woken before after split) h = ground arith
Step-IsRetired owner {w} (discards j) h = ground arith
Step-IsRetired owner {w} (retires o) h = ground arith

Reach-IsRetired :
    (owner : String) {w v : System} → IsRetired owner w.gate → Reach w v → IsRetired owner v.gate
Reach-IsRetired owner h here = h
Reach-IsRetired owner h (next r s) = Step-IsRetired owner s (Reach-IsRetired owner h r)

-- After a successful `retire`, whatever the other tasks do, no generation of the owner is reserved
-- and none is published: both calls raise and change nothing.
pub retired_forever :
    (w : System) {v : System} (owner : String) (number : ℕ)
    → (retire owner w.gate).0 ≡ ok tt
    → Reach (record w { gate = (retire owner w.gate).1 }) v
    → (reserve owner v.gate ≡ (err configuration_error, v.gate))
      × (publish (record { owner = owner; number = number }) v.gate
          ≡ (err configuration_error, v.gate))
unfolding retire reserve publish find_state
retired_forever w {v} owner number done after =
    let gone = Reach-IsRetired owner (now done) after in (rw gone, ground (arith, gone))
  where
    now : (retire owner w.gate).0 ≡ ok tt → IsRetired owner (retire owner w.gate).1
    now h = ground (arith, ==-refl owner)

abbrev is_active_of : String → ContributionGate → ContributionGeneration → Bool
is_active_of owner s g = (g.owner == owner) && is_active (some g) s

filter_keys-nil :
    (p : ContributionGeneration → Bool) (gs : List ContributionGeneration)
    (h : ContributionGeneration)
    → filter_keys p gs ≡ []
    → contains gs h ≡ true
    → p h ≡ false
unfolding filter_keys
filter_keys-nil p [] h e m = absurd (cc)
filter_keys-nil p (g ∷ gs) h e m = ground (arith, filter_keys-nil p gs h, generation_eqb_iff g h)

filter_keys-one :
    (p : ContributionGeneration → Bool) (gs : List ContributionGeneration)
    (g h : ContributionGeneration)
    → filter_keys p gs ≡ g ∷ []
    → contains gs h ≡ true
    → p h ≡ true
    → h ≡ g
unfolding filter_keys
filter_keys-one p [] g h e m t = absurd (cc)
filter_keys-one p (k ∷ gs) g h e m t =
    ground (arith, filter_keys-one p gs g h, filter_keys-nil p gs h, generation_eqb_iff k h)

filter_keys-head :
    (p : ContributionGeneration → Bool) (gs rest : List ContributionGeneration)
    (g : ContributionGeneration)
    → filter_keys p gs ≡ g ∷ rest
    → p g ≡ true
unfolding filter_keys
filter_keys-head p [] rest g e = absurd (cc)
filter_keys-head p (k ∷ gs) rest g e = ground (arith, filter_keys-head p gs rest g)

-- `active_generation` returns an active generation of the owner, and the only one.
pub active_generation_unique :
    (owner : String) (s : ContributionGate) (g : ContributionGeneration)
    → active_generation owner s ≡ ok g
    → (g.owner ≡ owner)
      × (is_active (some g) s ≡ true)
      × ((h : ContributionGeneration)
          → contains (keys s.states) h ≡ true
          → h.owner ≡ owner
          → is_active (some h) s ≡ true
          → h ≡ g)
unfolding active_generation
active_generation_unique owner s g e =
    let one : filter_keys (is_active_of owner s) (keys s.states) ≡ g ∷ [] = ground arith in
    let at = filter_keys-head (is_active_of owner s) (keys s.states) [] g one in
    (
      ground (arith, at, string_eq.eqb_iff g.owner owner),
      ground (arith, at),
      λ h known of_owner live.
          filter_keys-one (is_active_of owner s) (keys s.states) g h one known
            (ground (arith, of_owner, live, string_eq.eqb_iff h.owner owner)),
    )
