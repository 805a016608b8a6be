-- ===== src/Organization/Delegation.antt =====
-- `_validate_delegation_path` of module.py and its helpers. The tables are read twice: `before`, to
-- discover the path, and `held`, after the rows are locked. The answers of the other foundations are an
-- argument.
pub mod Chains
pub mod Sound
use businessos.Prelude.{
  ℕ, zero, suc, String, Bool, true, false, not, ◌&&◌, ◌||◌, Option, none, some, List, [], ◌∷◌, ◌++◌,
  ◌==◌, nat_eq, string_eq, option_eq, pair_eq, if◌then◌else◌, contains, all, is_some, is_none,
  length, ltb, leb, map,
}
use businessos.Prelude.Dict.{Dict, get, put}
use businessos.Prelude.Sorting.{sorted, str_leb}
use businessos.Errors.{Error, Result, ok, err, business_error, key_error, ◌>>=◌, ◌>>◌, require}
use businessos.Organization.Tables.{
  OrganizationScopeType, value, Principal, Assignment, DelegatedScope, Tables,
}
use businessos.Organization.Scopes.{Scope, Selected, scope_lineage, require_effective_scope_lineage}

abbrev pub forbidden : Error
forbidden = business_error "forbidden" 403

pub record Decision : Type 0 where
  pub allowed : Bool
  pub policy_reference : Option String

-- What the calls of the policy, tenant and identity foundations answer: the acquired authority, the
-- check of the tenant, the locked memberships, and the decision on the root for an action.
pub record Authorities : Type 0 where
  pub acquire : Result (Unit {0})
  pub require_active : Result (Unit {0})
  pub lock_many : List Principal → Result (Unit {0})
  pub evaluate : Principal → String → Decision

-- The arguments of a request.
pub record Request : Type 0 where
  pub tenant_id : ℕ
  pub consumer : Principal
  pub source_id : Option ℕ
  pub target_type : OrganizationScopeType
  pub target_id : ℕ
  pub actions : List String
  pub start : ℕ
  pub end : ℕ
  pub now : ℕ
  pub today : ℕ
  pub new_recipient : Option Principal

pub record DelegationProof : Type 0 where
  pub root : Principal
  pub assignment_id : ℕ
  pub path : List ℕ
  pub selected_scope : Option Scope
  pub policy_references : List String

abbrev pub from_ok : Option ℕ → ℕ → Bool
from_ok none t = true
from_ok (some from) t = leb from t

abbrev pub until_ok : Option ℕ → ℕ → Bool
until_ok none t = true
until_ok (some until) t = leb t until

abbrev pub not_over : Option ℕ → ℕ → Bool
not_over none t = true
not_over (some until) t = ltb t until

unfoldable pub period_covers : Option ℕ → Option ℕ → ℕ → ℕ → ℕ → Bool
period_covers valid_from valid_until start end now =
    from_ok valid_from start
    && until_ok valid_until end
    && from_ok valid_from now
    && not_over valid_until now

abbrev pub owned : Option DelegatedScope → ℕ → Result DelegatedScope
owned none tenant_id = err forbidden
owned (some row) tenant_id = if row.tenant_id == tenant_id then ok row else err forbidden

-- A row of the discovery, with its identifier.
abbrev pub Candidate : Type 0
Candidate = ℕ × DelegatedScope

-- The identifier that the discovery continues with.
unfoldable pub next_source : DelegatedScope → Result (Option ℕ)
next_source row =
    if row.authority_source_kind == some "direct"
    then (if is_some row.parent_delegation_id then err forbidden else ok none)
    else if row.authority_source_kind == some "delegation"
    then (if is_none row.parent_delegation_id then err forbidden else ok row.parent_delegation_id)
    else err forbidden

-- The `while` loop; `left` is 16 less the number of candidates so far.
unfoldable pub discover :
    ℕ → Dict ℕ DelegatedScope → ℕ → List ℕ → Option ℕ → Result (List Candidate)
unfolding next_source
discover left table tenant_id seen none = ok []
discover zero table tenant_id seen (some current_id) = err forbidden
discover (suc left) table tenant_id seen (some current_id) = do
  require (not (contains seen current_id)) forbidden
  row ← owned (get table current_id) tenant_id
  source ← next_source row
  rest ← discover left table tenant_id (current_id ∷ seen) source
  ok ((current_id, row) ∷ rest)

abbrev pub reversed {ℓ} : {A : Type ℓ} → List A → List A
reversed [] = []
reversed (x ∷ xs) = reversed xs ++ x ∷ []

unfoldable pub root_of : List Candidate → Principal → Principal
root_of [] consumer = consumer
root_of ((id, row) ∷ path) consumer = row.grantor

-- The test of one candidate in the loop over the path.
unfoldable pub is_linked : Principal → List Principal → Option ℕ → DelegatedScope → Bool
is_linked preceding principals previous_id row = not (
    not (row.grantor == preceding)
    || contains principals row.recipient
    || (is_none previous_id && not (row.authority_source_kind == some "direct"))
    || (is_some previous_id && not (row.authority_source_kind == some "delegation"))
    || not (row.parent_delegation_id == previous_id))

-- The loop over the path: the last principal and all principals.
unfoldable pub check_path :
    Principal → List Principal → Option ℕ → List Candidate → Result (Principal × List Principal)
unfolding is_linked
check_path preceding principals previous_id [] = ok (preceding, principals)
check_path preceding principals previous_id ((id, row) ∷ path) = do
  require (is_linked preceding principals previous_id row) forbidden
  check_path row.recipient (principals ++ row.recipient ∷ []) (some id) path

-- The locked rows by identifier, in the order of the identifiers.
unfoldable pub lock_rows : Dict ℕ DelegatedScope → ℕ → List ℕ → Result (Dict ℕ DelegatedScope)
lock_rows table tenant_id [] = ok []
lock_rows table tenant_id (identifier ∷ rest) = do
  row ← owned (get table identifier) tenant_id
  locked ← lock_rows table tenant_id rest
  ok (put locked identifier row)

abbrev pub locked_row : Option DelegatedScope → Result DelegatedScope
locked_row none = err key_error
locked_row (some row) = ok row

-- The locked row still is what the discovery read, and is not revoked.
unfoldable pub is_unchanged : DelegatedScope → DelegatedScope → Bool
is_unchanged current candidate = not (
    not (current.authority_source_kind == candidate.authority_source_kind)
    || not (current.parent_delegation_id == candidate.parent_delegation_id)
    || is_some current.revoked_at
    || not (current.grantor == candidate.grantor)
    || not (current.recipient == candidate.recipient))

unfoldable pub check_unchanged : Dict ℕ DelegatedScope → List Candidate → Result (Unit {0})
unfolding is_unchanged
check_unchanged locked [] = ok tt
check_unchanged locked ((id, candidate) ∷ path) = do
  current ← locked_row (get locked id)
  require (is_unchanged current candidate) forbidden
  check_unchanged locked path

-- An assignment of the root that covers the request.
unfoldable pub is_root : Request → Principal → List Scope → Assignment → Bool
unfolding period_covers
is_root q root lineage row =
    (row.tenant_id == q.tenant_id)
    && (row.principal == root)
    && contains lineage row.scope
    && period_covers row.valid_from row.valid_until q.start q.end q.now

abbrev pub least : ℕ → Option ℕ → ℕ
least id none = id
least id (some other) = if leb id other then id else other

-- min(roots), by identifier
unfoldable pub root_assignment : Request → Principal → List Scope → Dict ℕ Assignment → Option ℕ
unfolding is_root
root_assignment q root lineage [] = none
root_assignment q root lineage ((id, row) ∷ rows) =
    let rest = root_assignment q root lineage rows in
    if is_root q root lineage row then some (least id rest) else rest

unfoldable pub is_authorized : Request → List Scope → DelegatedScope → Bool
unfolding period_covers
is_authorized q lineage row = not (
    not (contains lineage row.scope)
    || not (all (contains row.allowed_actions) q.actions)
    || not (period_covers row.valid_from row.valid_until q.start q.end q.now))

unfoldable pub check_authorized :
    Request → List Scope → Dict ℕ DelegatedScope → List Candidate → Result (Unit {0})
unfolding is_authorized
check_authorized q lineage locked [] = ok tt
check_authorized q lineage locked ((id, candidate) ∷ path) = do
  row ← locked_row (get locked id)
  require (is_authorized q lineage row) forbidden
  check_authorized q lineage locked path

abbrev pub reference_of : Decision → Result String
reference_of decision = elim decision.policy_reference [
  | none ↦ err forbidden
  | some reference ↦ if decision.allowed then ok reference else err forbidden
]

unfoldable pub decide : (String → Decision) → List String → Result (List String)
decide evaluate [] = ok []
decide evaluate (action ∷ actions) = do
  reference ← reference_of (evaluate action)
  rest ← decide evaluate actions
  ok (reference ∷ rest)

unfoldable pub last_scope : Dict ℕ DelegatedScope → List Candidate → Option Scope
last_scope locked [] = none
last_scope locked ((id, row) ∷ rest) = elim (get locked id) [
  | none ↦ none
  | some last ↦ some last.scope
]

-- The two tests on a new recipient.
unfoldable pub is_deep : Option Principal → List Candidate → Bool
is_deep new_recipient path = is_some new_recipient && leb 16 (length path)

abbrev pub is_new : Option Principal → List Principal → Bool
is_new none principals = true
is_new (some p) principals = not (contains principals p)

abbrev pub with_recipient : Option Principal → List Principal → List Principal
with_recipient none principals = principals
with_recipient (some p) principals = principals ++ p ∷ []

abbrev pub some_id : Option ℕ → Result ℕ
some_id none = err forbidden
some_id (some id) = ok id

-- What follows the locks: the scopes, the root assignment, the grants and the decisions. `candidates`
-- has the source of the consumer first, and `path` the root's grant.
unfoldable pub check_authority :
    Authorities
    → Request
    → Tables
    → List Candidate
    → List Candidate
    → Principal
    → Dict ℕ DelegatedScope
    → Result DelegationProof
unfolding root_assignment check_authorized decide last_scope
check_authority authorities q held candidates path root locked = do
  target ← require_effective_scope_lineage held q.target_type q.target_id q.tenant_id q.today
  lineage ← scope_lineage held q.tenant_id q.today target
  assignment_id ← some_id (root_assignment q root lineage held.assignments)
  check_authorized q lineage locked path
  policy_references ← decide (authorities.evaluate root) (sorted str_leb q.actions)
  ok (record {
    root = root;
    assignment_id = assignment_id;
    path = map (λ c. c.0) path;
    selected_scope = last_scope locked candidates;
    policy_references = policy_references;
  })

-- The checks on the discovered path, up to its locks.
unfoldable pub check_candidates :
    Authorities → Request → Tables → List Candidate → Result (Dict ℕ DelegatedScope)
unfolding is_deep root_of check_path lock_rows check_unchanged
check_candidates authorities q held candidates = do
  let path = reversed candidates
  require (not (is_deep q.new_recipient path)) forbidden
  let root = root_of path q.consumer
  (preceding, principals) ← check_path root (root ∷ []) none path
  require ((preceding == q.consumer) && is_new q.new_recipient principals) forbidden
  authorities.lock_many (with_recipient q.new_recipient principals)
  locked ← lock_rows held.delegated_scopes q.tenant_id (sorted leb (map (λ c. c.0) candidates))
  check_unchanged locked path
  ok locked

unfoldable pub validate_delegation_path :
    Authorities → Request → Tables → Tables → Result DelegationProof
unfolding discover check_candidates check_authority root_of
validate_delegation_path authorities q before held = do
  authorities.acquire
  authorities.require_active
  require (ltb 0 (length q.actions) && ltb q.start q.end) forbidden
  candidates ← discover 16 before.delegated_scopes q.tenant_id [] q.source_id
  locked ← check_candidates authorities q held candidates
  check_authority authorities q held candidates (reversed candidates)
      (root_of (reversed candidates) q.consumer) locked
