-- ===== src/Tests/Gate.antt =====
-- The contribution gate with one module, "sales".
use businessos.Prelude.{
  Option, none, some, List, [], ◌∷◌, ◌≡◌, refl, true, false, contains, if◌then◌else◌, ◌++◌,
}
use businessos.Prelude.Dict.{get, put, keys, remove}
use businessos.Errors.{ok, err, timeout_error, not_found_error, configuration_error}
use businessos.Activation.{
  ContributionGeneration, generation_eq, GenerationState, inactive, empty, reserve, publish, enter,
  leave, begin_close, finish_close, discard, retire, find_state, is_active, active_generation,
  enter_many, begin_work, active, unique, leave_all,
}
use businessos.Activation.System.{
  System, Reach, here, next, reserves, publishes, enters, leaves, enters_many, leaves_many, start,
  wake, is_set,
}
use businessos.Activation.Coherence.{IsCoherent}
use businessos.Activation.Invariant.{Reach-IsCoherent}
use businessos.Activation.Fence.{closed_until_publish}
use businessos.Activation.Admission.{retired_forever, active_generation_unique}
use businessos.Activation.AdmitMany.{each_active, is_named, enter_many_lem}

abbrev pub sales : ContributionGeneration
sales = record { owner = "sales"; number = 1 }

abbrev pub reserved : System
reserved = record { gate = (reserve "sales" empty).1; inside = []; closing = [] }

abbrev pub published : System
published = record { gate = (publish sales reserved.gate).1; inside = []; closing = [] }

abbrev pub working : System
working = record { gate = (enter (some sales) published.gate).1; inside = sales ∷ []; closing = [] }

abbrev pub closed : System
closed = record {
  gate = (begin_close sales working.gate).1;
  inside = sales ∷ [];
  closing = (sales, false) ∷ [];
}

abbrev pub drained : System
drained = record {
  gate = leave (some sales) closed.gate;
  inside = [];
  closing = wake (leave (some sales) closed.gate) closed.closing;
}

unfoldable pub gate_code : Unit {0}
unfolding reserve publish enter leave begin_close finish_close discard retire find_state is_active
    active_generation enter_many get put remove
gate_code = tt

enters_published : (enter (some sales) published.gate).0 ≡ ok tt
unfolding gate_code
enters_published = refl

pub Reach-published : Reach start published
Reach-published = next (next here (reserves "sales")) (publishes sales)

pub Reach-working : Reach start working
Reach-working = next Reach-published (enters sales enters_published)

close_ends :
    find_state sales (finish_close true sales drained.gate).1
    ≡ ok (record { lifecycle = inactive; in_flight = 0; drained = true })
unfolding gate_code
close_ends = refl

-- The generation is published again, and admits work, before the call that has been woken goes on.
close_overtaken :
    find_state sales
      (finish_close true sales (enter (some sales) (publish sales drained.gate).1).1).1
    ≡ ok (record { lifecycle = inactive; in_flight = 1; drained = false })
unfolding gate_code
close_overtaken = refl

close_times_out : (finish_close false sales closed.gate).0 ≡ err timeout_error
unfolding gate_code
close_times_out = refl

pub closes : (begin_close sales working.gate).0 ≡ ok tt
unfolding gate_code
closes = refl

event_set : wake drained.gate ((sales, false) ∷ []) ≡ (sales, true) ∷ []
unfolding gate_code is_set
event_set = refl

abbrev pub Reach-drained : Reach closed drained
Reach-drained = next here (leaves sales [] [] refl)

retires_published : (retire "sales" published.gate).0 ≡ ok tt
unfolding gate_code
retires_published = refl

sales_active : active_generation "sales" published.gate ≡ ok sales
unfolding gate_code
sales_active = refl

-- One more unit of work for a set in which the generation stands twice, which then ends.
abbrev set_entered : System
set_entered = record working {
  gate = (enter_many (some sales ∷ none ∷ some sales ∷ []) working.gate).1;
  inside = unique (some sales ∷ none ∷ some sales ∷ []) ++ working.inside;
}

many_code : Unit {0}
unfolding gate_code enter_many leave_all
many_code = tt

enters_set : (enter_many (some sales ∷ none ∷ some sales ∷ []) working.gate).0 ≡ ok tt
unfolding many_code
enters_set = refl

set_inside : set_entered.inside ≡ sales ∷ sales ∷ []
unfolding many_code
set_inside = refl

set_counted :
    find_state sales set_entered.gate
    ≡ ok (record { lifecycle = active; in_flight = 2; drained = false })
unfolding many_code
set_counted = refl

abbrev set_left : System
set_left = record {
  gate = leave_all (sales ∷ []) set_entered.gate;
  inside = sales ∷ [];
  closing = [];
}

Reach-set_left : Reach start set_left
Reach-set_left =
    next (next Reach-working (enters_many (some sales ∷ none ∷ some sales ∷ []) enters_set))
      (leaves_many (sales ∷ []) [] (sales ∷ []) set_inside)

Reach-IsCoherent_example : IsCoherent set_left
Reach-IsCoherent_example = Reach-IsCoherent Reach-set_left

closed_until_publish_example : enter (some sales) drained.gate ≡ (err not_found_error, drained.gate)
closed_until_publish_example =
    closed_until_publish {w = working} sales closed.closing Reach-working closes Reach-drained
      (tt, tt)

retired_forever_example :
    (reserve "sales" (retire "sales" published.gate).1
      ≡ (err configuration_error, (retire "sales" published.gate).1))
    × (publish (record { owner = "sales"; number = 2 }) (retire "sales" published.gate).1
        ≡ (err configuration_error, (retire "sales" published.gate).1))
retired_forever_example = retired_forever published "sales" 2 retires_published here

active_generation_unique_example :
    (sales.owner ≡ "sales")
    × (is_active (some sales) published.gate ≡ true)
    × ((h : ContributionGeneration)
        → contains (keys published.gate.states) h ≡ true
        → h.owner ≡ "sales"
        → is_active (some h) published.gate ≡ true
        → h ≡ sales)
active_generation_unique_example =
    active_generation_unique "sales" published.gate sales sales_active

abbrev request_set : List (Option ContributionGeneration)
request_set = some sales ∷ none ∷ some sales ∷ []

enter_many_lem_example :
    (each_active request_set published.gate ≡ false
      → enter_many request_set published.gate ≡ (err not_found_error, published.gate))
    × (each_active request_set published.gate ≡ true
        → ((enter_many request_set published.gate).0 ≡ ok tt)
          × ((j : ContributionGeneration) (st : GenerationState)
              → get published.gate.states j ≡ some st
              → get (enter_many request_set published.gate).1.states j
                ≡ some (if is_named request_set j then begin_work st else st)))
enter_many_lem_example = enter_many_lem request_set published.gate
