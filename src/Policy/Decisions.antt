-- ===== src/Policy/Decisions.antt =====
-- `PolicyEvaluationService` of foundations/policy/src/businessos_policy/contracts.py: field access,
-- approval limits, segregation of duties and support access. `matches` is `_condition_matches` at the
-- attributes of the context.
pub mod FieldAccess
use businessos.Prelude.{
  ℕ, String, Bool, true, false, not, ◌&&◌, ◌||◌, Option, none, some, List, [], ◌∷◌, ◌==◌, nat_eq,
  string_eq, option_eq, if◌then◌else◌, contains, is_none, any, ltb, leb, map, ◌≡◌, refl, arith, ◌-◌,
}
use businessos.Policy.Models.{
  FieldAccessType, read, write, deny, FieldPolicyRecord, ℤ, pos, negsuc, ApprovalLimitRecord,
  SegregationOfDutiesRuleRecord, SupportAccessGrantRecord, PolicyContext,
}

pub record FieldAccessDecision : Type 0 where
  pub allowed : Bool
  pub access_type : FieldAccessType
  pub mask_pattern : Option String

abbrev pub denied : FieldAccessDecision
denied = record { allowed = false; access_type = deny; mask_pattern = none }

abbrev is_deny : FieldAccessType → Bool
is_deny deny = true
is_deny _ = false

abbrev is_write : FieldAccessType → Bool
is_write write = true
is_write _ = false

-- The policies that match the tenant, the resource type and the field.
unfoldable pub matching_fields :
    String → String → PolicyContext → List FieldPolicyRecord → List FieldPolicyRecord
matching_fields field_name resource_type context [] = []
matching_fields field_name resource_type context (p ∷ ps) =
    let rest = matching_fields field_name resource_type context ps in
    if (p.tenant_id == context.tenant_id)
      && (p.resource_type == resource_type)
      && (p.field_name == field_name)
    then p ∷ rest
    else rest

-- The first policy for an active role, or else the first for no role.
unfoldable pub first_for_role : List ℕ → List FieldPolicyRecord → Option FieldPolicyRecord
first_for_role ids [] = none
first_for_role ids (p ∷ ps) =
    let rest = first_for_role ids ps in
    elim p.role_id [ none ↦ rest | some id ↦ if contains ids id then some p else rest ]

unfoldable pub first_for_all : List FieldPolicyRecord → Option FieldPolicyRecord
first_for_all [] = none
first_for_all (p ∷ ps) = let rest = first_for_all ps in if is_none p.role_id then some p else rest

unfoldable pub role_policy : List ℕ → List FieldPolicyRecord → Option FieldPolicyRecord
unfolding first_for_role first_for_all
role_policy ids ps = elim (first_for_role ids ps) [ some p ↦ some p | none ↦ first_for_all ps ]

module _ (matches : Option String → Bool) where
  -- The decision under the chosen policy.
  unfoldable pub decide_field : FieldAccessType → Option FieldPolicyRecord → FieldAccessDecision
  decide_field requested none = denied
  decide_field requested (some p) =
      if not (matches p.condition_expression)
      then denied
      else if is_deny p.access_type
      then denied
      else if is_write requested && not (is_write p.access_type)
      then denied
      else record { allowed = true; access_type = p.access_type; mask_pattern = p.mask_pattern }

  unfoldable pub evaluate_field_access :
      String
      → String
      → PolicyContext
      → List FieldPolicyRecord
      → List ℕ
      → FieldAccessType
      → FieldAccessDecision
  unfolding matching_fields role_policy decide_field
  evaluate_field_access field_name resource_type context policies ids requested =
      elim (matching_fields field_name resource_type context policies) [
        | [] ↦ record { allowed = true; access_type = read; mask_pattern = none }
        | p ∷ ps ↦ decide_field requested (role_policy ids (p ∷ ps))
      ]

abbrev pub ℤ_leb : ℤ → ℤ → Bool
ℤ_leb (pos a) (pos b) = leb a b
ℤ_leb (pos a) (negsuc b) = false
ℤ_leb (negsuc a) (pos b) = true
ℤ_leb (negsuc a) (negsuc b) = leb b a

abbrev same_codes : List ℕ → List ℕ → Bool
same_codes [] [] = true
same_codes [] (d ∷ t) = false
same_codes (c ∷ s) [] = false
same_codes (c ∷ s) (d ∷ t) = (c == d) && same_codes s t

abbrev is_early : Option ℕ → ℕ → Bool
is_early none now = false
is_early (some start) now = ltb now start

abbrev is_over : Option ℕ → ℕ → Bool
is_over none now = false
is_over (some end) now = ltb end now

abbrev has_limit_role : List ℕ → Option ℕ → Bool
has_limit_role ids none = false
has_limit_role ids (some id) = contains ids id

-- The tests of one limit in `evaluate_approval_authority`. `upper` is `str.upper`, as the codes of the
-- characters of its result.
unfoldable pub applies :
    (String → List ℕ) → String → String → PolicyContext → List ℕ → ApprovalLimitRecord → Bool
applies upper action_type currency context ids limit =
    not (not (limit.tenant_id == context.tenant_id) || not (limit.action_type == action_type))
    && not (not (same_codes (upper limit.currency) (upper currency)))
    && not (is_early limit.valid_from context.timestamp)
    && not (is_over limit.valid_to context.timestamp)
    && ((limit.subject_id == some context.subject_id) || has_limit_role ids limit.role_id)

-- The loop: whether a limit was found, and the largest one from 0 on.
unfoldable pub max_limit :
    (ApprovalLimitRecord → Bool) → List ApprovalLimitRecord → Bool → ℤ → Bool × ℤ
max_limit p [] found limit = (found, limit)
max_limit p (l ∷ ls) found limit = elim (p l) [
  | false ↦ max_limit p ls found limit
  | true ↦ max_limit p ls true (if not (ℤ_leb l.amount_limit limit) then l.amount_limit else limit)
]

-- `has_authority`
unfoldable pub evaluate_approval_authority :
    (String → List ℕ)
    → String
    → ℤ
    → String
    → PolicyContext
    → List ApprovalLimitRecord
    → List ℕ
    → Bool
unfolding applies max_limit
evaluate_approval_authority upper action_type amount currency context limits ids =
    let (found, limit) =
      max_limit (applies upper action_type currency context ids) limits false (pos 0) in
    if not found then false else ℤ_leb amount limit

-- The codes of the rules in conflict.
unfoldable pub check_sod_conflict : List String → List SegregationOfDutiesRuleRecord → List String
check_sod_conflict candidates [] = []
check_sod_conflict candidates (rule ∷ rules) =
    let rest = check_sod_conflict candidates rules in
    if contains candidates rule.permission_a && contains candidates rule.permission_b
    then rule.code ∷ rest
    else rest

-- `matched_policy`, or none where the decision is to deny.
unfoldable pub authorize_support_access : PolicyContext → List SupportAccessGrantRecord → Option ℕ
authorize_support_access context [] = none
authorize_support_access context (grant ∷ grants) =
    let rest = authorize_support_access context grants in
    if (grant.tenant_id == context.tenant_id)
      && (grant.support_principal_id == context.subject_id)
      && is_none grant.revoked_at
      && (leb grant.valid_from context.timestamp && leb context.timestamp grant.valid_to)
    then some grant.id
    else rest

ℤ_leb_max : (a b c : ℤ) → ℤ_leb a (if not (ℤ_leb b c) then b else c) ≡ ℤ_leb a b || ℤ_leb a c
ℤ_leb_max a b c = ground arith

max_limit_lem :
    (p : ApprovalLimitRecord → Bool) (amount : ℤ) (limits : List ApprovalLimitRecord) (found : Bool)
    (limit : ℤ)
    → ((max_limit p limits found limit).0 ≡ found || any p limits)
      × (ℤ_leb amount (max_limit p limits found limit).1
          ≡ ℤ_leb amount limit || any (λ l. p l && ℤ_leb amount l.amount_limit) limits)
unfolding max_limit
max_limit_lem p amount [] found limit = (ground arith, ground arith)
max_limit_lem p amount (l ∷ ls) found limit =
    let higher = if not (ℤ_leb l.amount_limit limit) then l.amount_limit else limit in
    let skipped = max_limit_lem p amount ls found limit in
    let taken = max_limit_lem p amount ls true higher in
    (
      ground (arith, skipped, taken),
      ground (arith, skipped, taken, ℤ_leb_max amount l.amount_limit limit),
    )

-- There is authority exactly if a limit applies, and the amount is at most 0 or at most some limit
-- that applies.
pub evaluate_approval_authority_lem :
    (upper : String → List ℕ) (action_type : String) (amount : ℤ) (currency : String)
    (context : PolicyContext) (limits : List ApprovalLimitRecord) (ids : List ℕ)
    → evaluate_approval_authority upper action_type amount currency context limits ids
      ≡ any (applies upper action_type currency context ids) limits
        && (ℤ_leb amount (pos 0)
            || any
                (λ l.
                  applies upper action_type currency context ids l && ℤ_leb amount l.amount_limit)
                limits)
unfolding evaluate_approval_authority
evaluate_approval_authority_lem upper action_type amount currency context limits ids = ground (
  arith,
  max_limit_lem (applies upper action_type currency context ids) amount limits false (pos 0),
)
