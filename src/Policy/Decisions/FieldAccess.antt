-- ===== src/Policy/Decisions/FieldAccess.antt =====
-- Which field policy decides in `evaluate_field_access` of
-- foundations/policy/src/businessos_policy/contracts.py, and how.
use businessos.Prelude.{
  ℕ, String, Bool, true, false, ◌&&◌, Option, none, some, List, [], ◌∷◌, ◌==◌, nat_eq, string_eq,
  if◌then◌else◌, contains, is_none, any, ◌≡◌, refl, ◌∙◌, arith, ◌⊎◌, inl, inr, Bool-cases,
}
use businessos.Policy.Models.{FieldAccessType, read, write, deny, FieldPolicyRecord, PolicyContext}
use businessos.Policy.Decisions.{
  FieldAccessDecision, denied, matching_fields, first_for_role, first_for_all, role_policy,
  decide_field, evaluate_field_access,
}

module _ {A : Type 0} (f : A → Bool) where
  -- The first of a list that passes the test.
  pub data IsFirst (a : A) : List A → Type 0 where
    now : {rest : List A} → f a ≡ true → IsFirst a (a ∷ rest)
    later : {b : A} {rest : List A} → f b ≡ false → IsFirst a rest → IsFirst a (b ∷ rest)

  abbrev find : List A → Option A
  find [] = none
  find (a ∷ rest) = let next = find rest in if f a then some a else next

  data Finds (xs : List A) : Type 0 where
    missing : find xs ≡ none → any f xs ≡ false → Finds xs
    found : (a : A) → find xs ≡ some a → IsFirst a xs → Finds xs

  find_cases : (xs : List A) → Finds xs
  find_cases [] = missing refl refl
  find_cases (a ∷ rest) = elim (Bool-cases (f a)) [
    | inl pass ↦ found a (ground (arith, pass)) (now pass)
    | inr fail ↦ elim (find_cases rest) [
      | missing e h ↦ missing (ground (arith, fail, e)) (ground (arith, fail, h))
      | found b e h ↦ found b (ground (arith, fail, e)) (later fail h)
    ]
  ]

-- What a policy of the access type grants to a request.
abbrev pub grants : FieldAccessType → FieldAccessType → Bool
grants write requested = true
grants deny requested = false
grants _ write = false
grants _ _ = true

module _ (field_name resource_type : String) (context : PolicyContext) (ids : List ℕ) where
  abbrev pub fits : FieldPolicyRecord → Bool
  fits p =
      (p.tenant_id == context.tenant_id)
      && (p.resource_type == resource_type)
      && (p.field_name == field_name)

  abbrev pub fits_role : FieldPolicyRecord → Bool
  fits_role p = fits p && elim p.role_id [ none ↦ false | some id ↦ contains ids id ]

  abbrev pub fits_all : FieldPolicyRecord → Bool
  fits_all p = fits p && is_none p.role_id

  module _ (matches : Option String → Bool) (requested : FieldAccessType) where
    abbrev pub outcome : FieldPolicyRecord → FieldAccessDecision
    outcome p =
        if matches p.condition_expression && grants p.access_type requested
        then record { allowed = true; access_type = p.access_type; mask_pattern = p.mask_pattern }
        else denied

    -- The first policy for an active role decides, without one the first for no role; a field that no
    -- policy names may be read, and one with policies for other roles only is denied.
    pub data IsDecided (policies : List FieldPolicyRecord) (d : FieldAccessDecision) : Type 0 where
      unnamed :
          any fits policies ≡ false
          → d ≡ record { allowed = true; access_type = read; mask_pattern = none }
          → IsDecided policies d
      by_role :
          (p : FieldPolicyRecord)
          → IsFirst fits_role p policies
          → d ≡ outcome p
          → IsDecided policies d
      by_default :
          (p : FieldPolicyRecord)
          → any fits_role policies ≡ false
          → IsFirst fits_all p policies
          → d ≡ outcome p
          → IsDecided policies d
      undecided :
          any fits policies ≡ true
          → any fits_role policies ≡ false
          → any fits_all policies ≡ false
          → d ≡ denied
          → IsDecided policies d

    decide-outcome : (p : FieldPolicyRecord) → decide_field matches requested (some p) ≡ outcome p
    unfolding decide_field
    decide-outcome p = ground arith

  decide_none :
      (matches : Option String → Bool) (requested : FieldAccessType)
      → decide_field matches requested none ≡ denied
  unfolding decide_field
  decide_none matches requested = refl

  matching_any :
      (ps : List FieldPolicyRecord)
      → ((matching_fields field_name resource_type context ps ≡ []) × (any fits ps ≡ false))
        ⊎ ((q : FieldPolicyRecord) × (qs : List FieldPolicyRecord) × (matching_fields field_name
                resource_type context ps
              ≡ q ∷ qs)
            × (any fits ps ≡ true))
  unfolding matching_fields
  matching_any [] = inl (refl, refl)
  matching_any (p ∷ ps) = elim (Bool-cases (fits p)) [
    | inl pass ↦ inr (
        (
          p,
          matching_fields field_name resource_type context ps,
          ground (arith, pass),
          ground (arith, pass),
        ))
    | inr fail ↦ elim (matching_any ps) [
      | inl (e, h) ↦ inl ((ground (arith, fail, e), ground (arith, fail, h)))
      | inr (q, qs, e, h) ↦ inr ((q, qs, ground (arith, fail, e), ground (arith, fail, h)))
    ]
  ]

  first_role :
      (ps : List FieldPolicyRecord)
      → first_for_role ids (matching_fields field_name resource_type context ps) ≡ find fits_role ps
  unfolding first_for_role matching_fields
  first_role [] = refl
  first_role (p ∷ ps) = ground (arith, first_role ps)

  first_all :
      (ps : List FieldPolicyRecord)
      → first_for_all (matching_fields field_name resource_type context ps) ≡ find fits_all ps
  unfolding first_for_all matching_fields
  first_all [] = refl
  first_all (p ∷ ps) = ground (arith, first_all ps)

  module _ (matches : Option String → Bool) (requested : FieldAccessType) where
    chosen :
        (ps : List FieldPolicyRecord)
        → any fits ps ≡ true
        → (d : FieldAccessDecision)
        → d
          ≡ decide_field matches requested
              (role_policy ids (matching_fields field_name resource_type context ps))
        → IsDecided matches requested ps d
    unfolding role_policy
    chosen ps named d is = elim (find_cases fits_role ps) [
      | found p e first ↦
          by_role p first
            (is ∙ ground (arith, first_role ps, e, decide-outcome matches requested p))
      | missing e free ↦ elim (find_cases fits_all ps) [
        | found p e' first ↦ by_default p free first (
            is
            ∙ ground
                (arith, first_role ps, first_all ps, e, e', decide-outcome matches requested p))
        | missing e' free' ↦
            undecided named free free' (
              is
              ∙ ground (arith, first_role ps, first_all ps, e, e', decide_none matches requested))
      ]
    ]

    -- The decision is that of the first policy of the tenant, resource and field for an active role;
    -- without one, of the first such policy for no role; where no policy names the field of the
    -- resource and tenant, reading is allowed without a mask, whatever is requested; where some do
    -- and none is for an active role or for no role, it is a denial. The deciding policy allows, with
    -- its own access type and mask, exactly if its condition holds, it does not deny, and it is for
    -- writing where writing is requested; it denies otherwise.
    pub evaluate_field_access-IsDecided :
        (ps : List FieldPolicyRecord)
        → IsDecided matches requested ps
            (evaluate_field_access matches field_name resource_type context ps ids requested)
    unfolding evaluate_field_access
    evaluate_field_access-IsDecided ps = elim (matching_any ps) [
      | inl (e, h) ↦ unnamed h (ground (arith, e))
      | inr (q, qs, e, h) ↦
          chosen ps h
            (evaluate_field_access matches field_name resource_type context ps ids requested)
            (ground (arith, e))
    ]
