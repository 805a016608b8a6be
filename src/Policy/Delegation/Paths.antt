-- ===== src/Policy/Delegation/Paths.antt =====
-- Every path of delegations, with repeated principals or not, has a chain without them.
use businessos.Prelude.{
  ℕ, zero, suc, Bool, true, false, ◌&&◌, Option, none, List, [], ◌∷◌, ◌==◌, ==-eq, nat_eq,
  string_eq, option_eq, pair_eq, contains, any, length, leb, ◌+◌, ◌≤◌, ◌≡◌, ◌↔◌, refl, sym, subst,
  ap, arith, Bool-cases, inl, inr, ◌⊎◌,
}
use businessos.Policy.Models.{DelegationGrantRecord, SubjectRoleAssignmentRecord, ScopeType}
use businessos.Policy.Delegation.{
  Authority, Source, Principal, principal, delegator, is_assigned, is_usable, scope_covers, covers,
  answer, has_effective_role_source,
}
use businessos.Policy.Delegation.Chains.{
  Member, Chain, direct, delegated, has_effective_role_source_lem,
}

-- The authority of `q'` covers that of `q`.
abbrev Within : Source → Source → Type 0
Within q q' =
    scope_covers q'.scope_type q'.scope_id q.scope_type q.scope_id
      && leb q'.valid_from q.valid_from
      && leb q.valid_until q'.valid_until
    ≡ true

scope_covers_trans :
    (a : ScopeType) (i : Option ℕ) (b : ScopeType) (j : Option ℕ) (c : ScopeType) (k : Option ℕ)
    → scope_covers a i b j ≡ true
    → scope_covers b j c k ≡ true
    → scope_covers a i c k ≡ true
unfolding scope_covers
scope_covers_trans a i b j c k h l = ground (arith, h, l)

Within-trans : (q r s : Source) → Within q r → Within r s → Within q s
Within-trans q r s h k = ground (
  arith,
  h,
  k,
  scope_covers_trans s.scope_type s.scope_id r.scope_type r.scope_id q.scope_type q.scope_id,
)

module _ (w : Authority) where
  usable-Within :
      (q : Source) (g : DelegationGrantRecord) → is_usable w q g ≡ true → Within q (delegator g)
  unfolding is_usable covers
  usable-Within q g u = ground (arith, u)

  -- A path of the given number of grants, whose principals are not in `visited`.
  pub data Held (visited : List Principal) : ℕ → Source → Type 0 where
    assigned :
        {q : Source}
        → contains visited (principal q) ≡ false
        → any (is_assigned w q) w.assignments ≡ true
        → Held visited zero q
    granted :
        {n : ℕ} {q : Source} (g : DelegationGrantRecord)
        → contains visited (principal q) ≡ false
        → Member g w.delegations
        → is_usable w q g ≡ true
        → Held visited n (delegator g)
        → Held visited (suc n) q

  assigned_mono :
      (q r : Source)
      → principal q ≡ principal r
      → Within q r
      → (a : SubjectRoleAssignmentRecord) → is_assigned w r a ≡ true
      → is_assigned w q a ≡ true
  unfolding is_assigned covers
  assigned_mono q r same h a held = ground (
    arith,
    h,
    held,
    ap (λ x. x.0) same,
    ap (λ x. x.1) same,
    option_eq.eqb_iff a.subject_type q.subject_type,
    option_eq.eqb_iff a.subject_type r.subject_type,
    scope_covers_trans a.scope_type a.scope_id r.scope_type r.scope_id q.scope_type q.scope_id,
  )

  usable_mono :
      (q r : Source)
      → principal q ≡ principal r
      → Within q r
      → (g : DelegationGrantRecord) → is_usable w r g ≡ true
      → is_usable w q g ≡ true
  unfolding is_usable covers
  usable_mono q r same h g held = ground (
    arith,
    h,
    held,
    ap (λ x. x.0) same,
    ap (λ x. x.1) same,
    option_eq.eqb_iff g.delegatee_type q.subject_type,
    option_eq.eqb_iff g.delegatee_type r.subject_type,
    scope_covers_trans g.scope_type g.scope_id r.scope_type r.scope_id q.scope_type q.scope_id,
  )

  any_mono :
      (p r : SubjectRoleAssignmentRecord → Bool)
      → ((a : SubjectRoleAssignmentRecord) → p a ≡ true → r a ≡ true)
      → (xs : List SubjectRoleAssignmentRecord) → any p xs ≡ true
      → any r xs ≡ true
  any_mono p r h [] held = held
  any_mono p r h (a ∷ xs) held = ground (arith, h a, any_mono p r h xs, held)

  -- A path of a principal serves each smaller request of the same principal.
  Held-mono :
      {visited : List Principal} {n : ℕ} (q r : Source)
      → principal q ≡ principal r
      → Within q r
      → Held visited n r
      → Held visited n q
  Held-mono {visited} q r same h (assigned new held) =
      assigned (subst (λ p. contains visited p ≡ false) (sym same) new)
        (any_mono (is_assigned w r) (is_assigned w q) (assigned_mono q r same h) w.assignments held)
  Held-mono {visited} q r same h (granted g new m u t) =
      granted g (subst (λ p. contains visited p ≡ false) (sym same) new) m
        (usable_mono q r same h g u) t

  -- A path meets the principal of `q` again, or never.
  abbrev Meets : List Principal → ℕ → Source → Type 0
  Meets visited n q =
      (m : ℕ) × (r : Source) × (m ≤ n) × (principal q ≡ principal r) × Within q r × Held visited m r

  cut :
      (visited : List Principal) (q : Source) (n : ℕ) (r : Source)
      → Within q r
      → Held visited n r
      → Meets visited n q ⊎ Held (principal q ∷ visited) n r
  cut visited q n r h (assigned new held) = elim (Bool-cases (principal q == principal r)) [
    | inl met ↦ inl (0, r, omega arith, ==-eq (principal q) (principal r) met, h, assigned new held)
    | inr other ↦ inr (assigned (ground (arith, new, other)) held)
  ]
  cut visited q (suc n) r h (granted g new m u t) = elim (Bool-cases (principal q == principal r)) [
    | inl met ↦
        inl (suc n, r, omega arith, ==-eq (principal q) (principal r) met, h, granted g new m u t)
    | inr other ↦
        elim (cut visited q n (delegator g) (Within-trans q r (delegator g) h (usable-Within r g u))
          t) [
            | inl (k, s, le, same, less, again) ↦ inl (k, s, omega (arith, le), same, less, again)
            | inr rest ↦ inr (granted g (ground (arith, new, other)) m u rest)
          ]
  ]

  -- A path of at most 16 grants has a chain without repeated principals.
  Held-Chain :
      (k : ℕ) (visited : List Principal) (n : ℕ) (q : Source)
      → n ≤ k
      → length visited + n ≤ 16
      → Held visited n q
      → Chain w visited q
  Held-Chain k visited zero q le room (assigned new held) = direct (ground (arith, new, room)) held
  Held-Chain zero visited (suc n) q le room t = absurd (omega (arith, le))
  Held-Chain (suc k) visited (suc n) q le room (granted g new m u t) =
      elim (cut visited q n (delegator g) (usable-Within q g u) t) [
        | inr rest ↦ delegated g (ground (arith, new, room)) m u (
            Held-Chain k (principal q ∷ visited) n (delegator g) (omega (arith, le))
              (omega (arith, room)) rest)
        | inl (i, r, less, same, h, again) ↦
            Held-Chain k visited i q (omega (arith, le, less)) (omega (arith, room, less))
              (Held-mono q r same h again)
      ]

  Chain-Held :
      (visited : List Principal) (q : Source)
      → Chain w visited q
      → (n : ℕ) × (n + length visited ≤ 16) × Held [] n q
  Chain-Held visited q (direct free held) = (0, ground (arith, free), assigned refl held)
  Chain-Held visited q (delegated g free m u c) =
      let (n, le, t) = Chain-Held (principal q ∷ visited) (delegator g) c in
      (suc n, omega (arith, le), granted g refl m u t)

  -- With 18 units of fuel and no budget, `has_effective_role_source` answers, and it answers True
  -- exactly if the principal holds the role by a path of at most 16 grants that ends in an assignment,
  -- where each grant and the assignment are live and cover the scope and the time of the request
  -- before it. The path may repeat principals.
  pub has_effective_role_source_paths :
      (q : Source)
      → (b : Bool) × (has_effective_role_source 18 w [] q none ≡ answer b none)
        × ((b ≡ true) ↔ ((n : ℕ) × (n ≤ 16) × Held [] n q))
  has_effective_role_source_paths q =
      let (b, answers, chain) = has_effective_role_source_lem w q in
      (
        b,
        answers,
        (
          (λ held. let (n, le, t) = Chain-Held [] q (chain.0 held) in (n, omega (arith, le), t)),
          (λ (n, le, t). chain.1 (Held-Chain n [] n q (omega arith) (omega (arith, le)) t)),
        ),
      )
