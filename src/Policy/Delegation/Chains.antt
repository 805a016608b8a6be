-- ===== src/Policy/Delegation/Chains.antt =====
-- What `has_effective_role_source` finds: a chain of delegations that ends in an assignment.
use businessos.Prelude.{
  ℕ, zero, suc, Bool, true, false, not, ◌&&◌, ◌||◌, Option, none, List, [], ◌∷◌, nat_eq, string_eq,
  option_eq, pair_eq, any, length, ◌+◌, ◌≤◌, ◌≡◌, ◌↔◌, refl, arith, Bool-cases, inl, inr,
}
use businessos.Policy.Models.{DelegationGrantRecord}
use businessos.Policy.Delegation.{
  Authority, Source, Principal, principal, delegator, is_assigned, is_usable, is_blocked, Outcome,
  answer, out_of_fuel, try_grants, search_source, has_effective_role_source,
}

pub data Member (g : DelegationGrantRecord) : List DelegationGrantRecord → Type 0 where
  first : {gs : List DelegationGrantRecord} → Member g (g ∷ gs)
  later :
      {h : DelegationGrantRecord} {gs : List DelegationGrantRecord}
      → Member g gs
      → Member g (h ∷ gs)

any-Member :
    (p : DelegationGrantRecord → Bool) (gs : List DelegationGrantRecord)
    → any p gs ≡ true
    → (g : DelegationGrantRecord) × Member g gs × (p g ≡ true)
any-Member p [] h = absurd (ground (arith, h))
any-Member p (g ∷ gs) h = elim (Bool-cases (p g)) [
  | inl held ↦ (g, first, held)
  | inr missing ↦
      (let (k, m, held) = any-Member p gs (ground (arith, h, missing)) in (k, later m, held))
]

Member-any :
    (p : DelegationGrantRecord → Bool) (gs : List DelegationGrantRecord) (g : DelegationGrantRecord)
    → Member g gs
    → p g ≡ true
    → any p gs ≡ true
Member-any p [] g m held = elim m [ ]
Member-any p (_ ∷ gs) g first held = ground (arith, held)
Member-any p (h ∷ gs) g (later m) held = ground (arith, Member-any p gs g m held)

module _ (w : Authority) where
  -- A chain of usable grants from the principal to an assigned one, without repeated principals.
  pub data Chain : List Principal → Source → Type 0 where
    direct :
        {visited : List Principal} {q : Source}
        → is_blocked visited q ≡ false
        → any (is_assigned w q) w.assignments ≡ true
        → Chain visited q
    delegated :
        {visited : List Principal} {q : Source} (g : DelegationGrantRecord)
        → is_blocked visited q ≡ false
        → Member g w.delegations
        → is_usable w q g ≡ true
        → Chain (principal q ∷ visited) (delegator g)
        → Chain visited q

  -- The loop over the grants, where each recursive call answers.
  try_grants-any :
      (q : Source) (source : DelegationGrantRecord → Option ℕ → Outcome)
      (found : DelegationGrantRecord → Bool)
      → ((g : DelegationGrantRecord) → source g none ≡ answer (found g) none)
      → (gs : List DelegationGrantRecord)
      → try_grants w q source gs none ≡ answer (any (λ g. is_usable w q g && found g) gs) none
  unfolding try_grants
  try_grants-any q source found h [] = refl
  try_grants-any q source found h (g ∷ gs) = ground (arith, h g, try_grants-any q source found h gs)

  abbrev found_by : List Principal → Source → (DelegationGrantRecord → Bool) → Bool
  found_by visited q found =
      not (is_blocked visited q)
      && (any (is_assigned w q) w.assignments
          || any (λ g. is_usable w q g && found g) w.delegations)

  search_source-any :
      (q : Source) (visited : List Principal) (source : DelegationGrantRecord → Option ℕ → Outcome)
      (found : DelegationGrantRecord → Bool)
      → ((g : DelegationGrantRecord) → source g none ≡ answer (found g) none)
      → search_source w q visited source none ≡ answer (found_by visited q found) none
  unfolding search_source
  search_source-any q visited source found h =
      ground (arith, try_grants-any q source found h w.delegations)

  -- One level of the search is one link of a chain.
  found_by-Chain :
      (visited : List Principal) (q : Source) (found : DelegationGrantRecord → Bool)
      → ((g : DelegationGrantRecord)
          → is_blocked visited q ≡ false
          → (found g ≡ true) ↔ Chain (principal q ∷ visited) (delegator g))
      → (found_by visited q found ≡ true) ↔ Chain visited q
  found_by-Chain visited q found h = (sound, complete)
    where
      sound : found_by visited q found ≡ true → Chain visited q
      sound f = elim (Bool-cases (any (is_assigned w q) w.assignments)) [
        | inl held ↦ direct (ground (arith, f)) held
        | inr missing ↦
            (let (g, m, both) =
                any-Member (λ g. is_usable w q g && found g) w.delegations
                  (ground (arith, f, missing)) in
              delegated g (ground (arith, f)) m (ground (arith, both))
                ((h g (ground (arith, f))).0 (ground (arith, both))))
      ]

      complete : Chain visited q → found_by visited q found ≡ true
      complete (direct free held) = ground (arith, free, held)
      complete (delegated g free m u c) = ground (
        arith,
        free,
        Member-any (λ g. is_usable w q g && found g) w.delegations g m
            (ground (arith, u, (h g free).1 c)),
      )

  abbrev Decides : ℕ → List Principal → Source → Type 0
  Decides fuel visited q =
      (b : Bool) × (has_effective_role_source fuel w visited q none ≡ answer b none)
      × ((b ≡ true) ↔ Chain visited q)

  level :
      (fuel : ℕ) (visited : List Principal) (q : Source)
      → ((g : DelegationGrantRecord) → Decides (suc fuel) (principal q ∷ visited) (delegator g))
      → Decides (suc (suc fuel)) visited q
  unfolding has_effective_role_source
  level fuel visited q below = (
    found_by visited q found,
    search_source-any q visited source found (λ g. (below g).1),
    found_by-Chain visited q found (λ g free. (below g).2),
  )
    where
      found : DelegationGrantRecord → Bool
      found g = (below g).0

      source : DelegationGrantRecord → Option ℕ → Outcome
      source grant left =
          has_effective_role_source (suc fuel) w (principal q ∷ visited) (delegator grant) left

  decides :
      (fuel : ℕ) (visited : List Principal) (q : Source)
      → 17 ≤ fuel + length visited
      → Decides (suc fuel) visited q
  unfolding has_effective_role_source
  decides zero visited q enough = (
    false,
    blocked_search (λ grant left. out_of_fuel),
    ((λ f. absurd (ground (arith, f))), (λ c. absurd (blocked_Chain c))),
  )
    where
      is_full : is_blocked visited q ≡ true
      is_full = ground (arith, enough)

      blocked_search :
          (source : DelegationGrantRecord → Option ℕ → Outcome)
          → search_source w q visited source none ≡ answer false none
      blocked_search source = rw (search_source, is_full) refl

      blocked_Chain : Chain visited q → ⊥
      blocked_Chain (direct free held) = ground (arith, free, is_full)
      blocked_Chain (delegated g free m u c) = ground (arith, free, is_full)
  decides (suc fuel) visited q enough =
      level fuel visited q
        (λ g. decides fuel (principal q ∷ visited) (delegator g) (omega (arith, enough)))

  -- With 18 units of fuel and missing budget, `has_effective_role_source` answers, and it answers True
  -- exactly if there is a chain of at most 17 different principals, each but the last holding the role
  -- by a live grant of the next that covers the scope and the time asked for, and the last by an
  -- assignment.
  pub has_effective_role_source_lem :
      (q : Source)
      → (b : Bool) × (has_effective_role_source 18 w [] q none ≡ answer b none)
        × ((b ≡ true) ↔ Chain [] q)
  has_effective_role_source_lem q = decides 17 [] q (omega arith)
