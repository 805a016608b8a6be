-- ===== src/Policy/Delegation.antt =====
-- foundations/policy/src/businessos_policy/delegation_authority.py: `has_effective_role_source`.
pub mod Chains
pub mod Paths
use businessos.Prelude.{
  ℕ, zero, suc, String, Bool, true, false, not, ◌&&◌, ◌||◌, Option, none, some, List, [], ◌∷◌, ◌==◌,
  Eq, nat_eq, string_eq, option_eq, pair_eq, if◌then◌else◌, contains, any, length, ltb, leb,
}
use businessos.Policy.Models.{
  ScopeType, tenant, is_scope, SubjectRoleAssignmentRecord, DelegationGrantRecord,
}

unfoldable pub scope_covers : ScopeType → Option ℕ → ScopeType → Option ℕ → Bool
scope_covers source_type none target_type target_id = is_scope source_type tenant
scope_covers source_type (some source_id) target_type target_id =
    is_scope source_type target_type && (some source_id == target_id)

unfoldable pub covers : Option ℕ → Option ℕ → ℕ → ℕ → Bool
covers start end first last =
    elim start [ none ↦ true | some s ↦ leb s first ]
    && elim end [ none ↦ true | some e ↦ leb last e ]

unfoldable pub active_at : Option ℕ → Option ℕ → ℕ → Bool
active_at start end instant =
    elim start [ none ↦ true | some s ↦ leb s instant ]
    && elim end [ none ↦ true | some e ↦ ltb instant e ]

abbrev pub Principal : Type 0
Principal = Option String × ℕ

-- delegator_type in {"user", "service_account", "device"}
abbrev pub is_principal_type : Option String → Bool
is_principal_type none = false
is_principal_type (some t) = contains ("user" ∷ "service_account" ∷ "device" ∷ []) t

-- The arguments that stay the same in the recursive calls.
pub record Authority : Type 0 where
  pub tenant_id : ℕ
  pub role_id : ℕ
  pub evaluated_at : ℕ
  pub assignments : List SubjectRoleAssignmentRecord
  pub delegations : List DelegationGrantRecord

-- The arguments that change.
pub record Source : Type 0 where
  pub subject_id : ℕ
  pub subject_type : Option String
  pub scope_type : ScopeType
  pub scope_id : Option ℕ
  pub valid_from : ℕ
  pub valid_until : ℕ

abbrev pub principal : Source → Principal
principal q = (q.subject_type, q.subject_id)

-- The arguments of the recursive call for a grant.
abbrev pub delegator : DelegationGrantRecord → Source
delegator grant = record {
  subject_id = grant.delegator_id;
  subject_type = grant.delegator_type;
  scope_type = grant.scope_type;
  scope_id = grant.scope_id;
  valid_from = grant.valid_from;
  valid_until = grant.valid_to;
}

-- The test of one assignment.
unfoldable pub is_assigned : Authority → Source → SubjectRoleAssignmentRecord → Bool
unfolding scope_covers covers active_at
is_assigned w q assignment =
    (assignment.tenant_id == w.tenant_id)
    && (assignment.subject_id == q.subject_id)
    && (assignment.subject_type == q.subject_type)
    && (assignment.role_id == w.role_id)
    && scope_covers assignment.scope_type assignment.scope_id q.scope_type q.scope_id
    && active_at assignment.valid_from assignment.valid_to w.evaluated_at
    && covers assignment.valid_from assignment.valid_to q.valid_from q.valid_until

-- The test that skips a grant, negated.
unfoldable pub is_usable : Authority → Source → DelegationGrantRecord → Bool
unfolding scope_covers covers active_at
is_usable w q grant = not (
    not (grant.tenant_id == w.tenant_id)
    || not (grant.delegatee_id == q.subject_id)
    || not (grant.delegatee_type == q.subject_type)
    || not (is_principal_type grant.delegator_type)
    || not (grant.role_id == w.role_id)
    || grant.is_revoked
    || not (scope_covers grant.scope_type grant.scope_id q.scope_type q.scope_id)
    || not (active_at (some grant.valid_from) (some grant.valid_to) w.evaluated_at)
    || not (covers (some grant.valid_from) (some grant.valid_to) q.valid_from q.valid_until))

-- What a call does: it returns, with what is left of the budget, or it raises `authority_unbounded`,
-- or the fuel of the model ends.
pub data Outcome : Type 0 where
  answer : Bool → Option ℕ → Outcome
  unbounded : Outcome
  out_of_fuel : Outcome

-- The loop over the grants; `source` is the recursive call.
unfoldable pub try_grants :
    Authority
    → Source
    → (DelegationGrantRecord → Option ℕ → Outcome)
    → List DelegationGrantRecord
    → Option ℕ
    → Outcome
try_grants w q source [] budget = answer false budget
try_grants w q source (grant ∷ grants) budget = elim (is_usable w q grant) [
  | false ↦ try_grants w q source grants budget
  | true ↦ elim (source grant budget) [
    | answer true left ↦ answer true left
    | answer false left ↦ try_grants w q source grants left
    | unbounded ↦ unbounded
    | out_of_fuel ↦ out_of_fuel
  ]
]

-- principal in visited or len(visited) > 16
abbrev pub is_blocked : List Principal → Source → Bool
is_blocked visited q = contains visited (principal q) || ltb 16 (length visited)

-- The body of a call after the budget, where `source` is the recursive call.
unfoldable pub search_source :
    Authority
    → Source
    → List Principal
    → (DelegationGrantRecord → Option ℕ → Outcome)
    → Option ℕ
    → Outcome
unfolding try_grants
search_source w q visited source budget =
    if is_blocked visited q
    then answer false budget
    else if any (is_assigned w q) w.assignments
    then answer true budget
    else try_grants w q source w.delegations budget

unfoldable pub has_effective_role_source :
    ℕ → Authority → List Principal → Source → Option ℕ → Outcome
unfolding search_source
has_effective_role_source zero w visited q budget = out_of_fuel
has_effective_role_source (suc fuel) w visited q none =
    search_source w q visited
      (λ grant left.
        has_effective_role_source fuel w (principal q ∷ visited) (delegator grant) left)
      none
has_effective_role_source (suc fuel) w visited q (some zero) = unbounded
has_effective_role_source (suc fuel) w visited q (some (suc n)) =
    search_source w q visited
      (λ grant left.
        has_effective_role_source fuel w (principal q ∷ visited) (delegator grant) left)
      (some n)
