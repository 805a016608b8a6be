-- ===== src/Tests/Injection.antt =====
-- Three dependencies, "orders", "stock" and "ledger", whose resolutions wait for one another.
use businessos.Prelude.{
  Option, String, true, false, none, some, List, [], ◌∷◌, ◌≡◌, ◌↔◌, ◌⊎◌, refl, string_eq, option_eq,
  arith, is_some,
}
use businessos.Prelude.Dict.{get, put, remove}
use businessos.Prelude.Sorting.{sorted, insert_sorted, str_leb}
use businessos.Errors.{ok, err, configuration_error, conflict_error}
use businessos.Activation.{is_active}
use businessos.Di.{DependencyKey, key_eq, key_eqb}
use businessos.Di.Waits.{
  WaitGraph, Edge, pairwise, waits_of, count_of, dependencies, try_each, search, wait_path,
  count_wait, remove_wait, add_wait, remove_each, add_each, add_wait_chain,
}
use businessos.Di.Search.{Waits}
use businessos.Di.Search.Total.{wait_path-Waits}
use businessos.Di.Counts.{waits, count_waits, IsPositive}
use businessos.Di.Acyclic.{IsAcyclic}
use businessos.Di.Chains.{IsSound, back, count_each, add_wait_chain-lem}
use businessos.Di.Tasks.{Reach, here, next, begins, refused, ends, IsSettled, Reach-IsSettled}
use businessos.Di.Registrations.{
  Registration, Container, singleton, check_owner, register, is_inactive,
  registration_for_resolution,
}
use businessos.Tests.Gate.{gate_code, sales, published, closed}

di_code : Unit {0}
unfolding key_eqb waits_of count_of dependencies try_each search wait_path count_wait remove_wait
    add_wait remove_each add_each add_wait_chain back count_each waits count_waits check_owner
    register is_inactive registration_for_resolution get put remove sorted insert_sorted str_leb
    gate_code is_active
di_code = tt

abbrev key : String → DependencyKey
key name = record { name = name; required_owner = none }

abbrev orders : DependencyKey
orders = key "orders"

abbrev stock : DependencyKey
stock = key "stock"

abbrev ledger : DependencyKey
ledger = key "ledger"

abbrev no_waits : WaitGraph
no_waits = []

no_waits-IsPositive : IsPositive no_waits
unfolding waits waits_of get
no_waits-IsPositive a b n e = absurd (ground (arith, e))

no_waits-IsAcyclic : IsAcyclic no_waits
unfolding waits waits_of get
no_waits-IsAcyclic a b e path = absurd (ground (arith, e))

no_waits-IsSettled : IsSettled (no_waits, [])
unfolding waits waits_of get count_waits
no_waits-IsSettled = record {
  positive = no_waits-IsPositive;
  acyclic = no_waits-IsAcyclic;
  counted = λ a b. refl;
}

-- "orders" waits for "stock", and "stock" for "ledger".
abbrev one : WaitGraph
one = (add_wait_chain no_waits (orders ∷ []) stock).1

abbrev two : WaitGraph
two = (add_wait_chain one (stock ∷ []) ledger).1

abbrev first_edges : List Edge
first_edges = (orders, stock) ∷ []

abbrev second_edges : List Edge
second_edges = (stock, ledger) ∷ []

first_begins : add_wait_chain no_waits (orders ∷ []) stock ≡ (ok first_edges, one)
unfolding di_code
first_begins = refl

second_begins : add_wait_chain one (stock ∷ []) ledger ≡ (ok second_edges, two)
unfolding di_code
second_begins = refl

third_refused : add_wait_chain two (ledger ∷ []) orders ≡ (err configuration_error, two)
unfolding di_code
third_refused = refl

all_removed : remove_each second_edges (remove_each first_edges two) ≡ no_waits
unfolding di_code
all_removed = refl

abbrev Reach-working-tasks : Reach (no_waits, []) (remove_each first_edges two, second_edges ∷ [])
Reach-working-tasks =
    next
      (next
        (next (next here (begins (orders ∷ []) stock first_begins))
          (begins (stock ∷ []) ledger second_begins))
        (refused (ledger ∷ []) orders third_refused))
      (ends (second_edges ∷ []) first_edges [])

Reach-IsSettled_example : IsSettled (remove_each first_edges two, second_edges ∷ [])
Reach-IsSettled_example = Reach-IsSettled Reach-working-tasks no_waits-IsSettled

wait_path-Waits_example :
    (path : Option (List DependencyKey)) × (wait_path two orders ledger ≡ some path)
    × ((is_some path ≡ true) ↔ Waits two orders ledger)
wait_path-Waits_example = wait_path-Waits two orders ledger

add_wait_chain-lem_example :
    ((add_wait_chain no_waits (orders ∷ stock ∷ []) orders ≡ (
      ok (back (pairwise (orders ∷ stock ∷ orders ∷ [])) []),
      count_each (pairwise (orders ∷ stock ∷ orders ∷ [])) no_waits,
    ))
      × IsSound (count_each (pairwise (orders ∷ stock ∷ orders ∷ [])) no_waits))
    ⊎ (((add_wait_chain no_waits (orders ∷ stock ∷ []) orders).0 ≡ err configuration_error)
        × (IsAcyclic (count_each (pairwise (orders ∷ stock ∷ orders ∷ [])) no_waits) → ⊥)
        × IsSound (add_wait_chain no_waits (orders ∷ stock ∷ []) orders).1
        × ((a b : DependencyKey)
            → count_waits (add_wait_chain no_waits (orders ∷ stock ∷ []) orders).1 a b
              ≡ count_waits no_waits a b))
add_wait_chain-lem_example =
    add_wait_chain-lem no_waits (orders ∷ stock ∷ []) orders no_waits-IsPositive no_waits-IsAcyclic

abbrev registration : Registration
registration = record {
  scope = singleton;
  owner = some "sales";
  generation = some sales;
  gated = true;
}

abbrev empty : Container
empty = record { registrations = []; closed = false }

abbrev with_orders : Container
with_orders = record { registrations = (orders, registration) ∷ []; closed = false }

registers : register orders registration true empty ≡ ok with_orders
unfolding di_code
registers = refl

registers_again : register orders registration true with_orders ≡ err conflict_error
unfolding di_code
registers_again = refl

resolves :
    registration_for_resolution published.gate (stock ∷ []) orders with_orders ≡ ok registration
unfolding di_code
resolves = refl

in_path :
    registration_for_resolution published.gate (orders ∷ stock ∷ []) orders with_orders
    ≡ err configuration_error
unfolding di_code
in_path = refl
