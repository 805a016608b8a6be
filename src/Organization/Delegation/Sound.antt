-- ===== src/Organization/Delegation/Sound.antt =====
-- A proof of `_validate_delegation_path` stands for a live chain of grants.
use businessos.Prelude.{
  ℕ, String, true, not, ◌&&◌, Option, none, some, List, [], ◌∷◌, ◌==◌, nat_eq, string_eq, pair_eq,
  contains, any, length, ltb, leb, map, ◌≡◌, ◌≤◌, ◌<◌, sym, subst, ◌∙◌, arith,
}
use businessos.Prelude.Dict.{Dict}
use businessos.Prelude.Sorting.{sorted, sorted-contains, str_leb}
use businessos.Errors.{ok, >>=-ok, require_then}
use businessos.Organization.Tables.{Assignment, DelegatedScope, Tables}
use businessos.Organization.Scopes.{Scope, Selected, scope_lineage, require_effective_scope_lineage}
use businessos.Organization.Delegation.{
  Authorities, Request, DelegationProof, Candidate, forbidden, discover, reversed, root_of, is_deep,
  is_new, with_recipient, check_path, lock_rows, check_unchanged, is_root, root_assignment,
  check_authorized, decide, last_scope, some_id, check_authority, check_candidates,
  validate_delegation_path,
}
use businessos.Organization.Delegation.Chains.{
  Granted, lock_rows-held, check_path-Granted, last_id, ids_of, discover-bounds, length-reversed,
  root_assignment-any, decide-allowed,
}

-- What a proof stands for, in the locked tables.
pub record IsAuthorised (authorities : Authorities) (q : Request) (held : Tables)
    (proof : DelegationProof) : Type 0 where
  pub target : Selected
  pub lineage : List Scope
  -- The target is effective, with all its ancestors.
  pub effective :
      require_effective_scope_lineage held q.target_type q.target_id q.tenant_id q.today ≡ ok target
  pub lineage_is : scope_lineage held q.tenant_id q.today target ≡ ok lineage
  -- An assignment of the root covers the request.
  pub assigned :
      any
        (λ (p : ℕ × Assignment). (p.0 == proof.assignment_id) && is_root q proof.root lineage p.1)
        held.assignments
      ≡ true
  -- The grants lead from the root to the consumer.
  pub granted : Granted q held lineage proof.root none proof.path q.consumer q.source_id
  pub short : length proof.path ≤ 16
  -- The policy allows each action to the root.
  pub decided :
      (action : String)
      → contains q.actions action ≡ true
      → (authorities.evaluate proof.root action).allowed ≡ true
  -- The request names actions, and its period is not empty.
  pub named : 0 < length q.actions
  pub period : q.start < q.end

some_id-ok : (o : Option ℕ) (id : ℕ) → some_id o ≡ ok id → o ≡ some id
some_id-ok none id h = absurd (ground (arith, h))
some_id-ok (some i) id h = ground (arith, h)

-- The chain of the checked candidates.
abbrev IsChain : Request → Tables → List Candidate → Dict ℕ DelegatedScope → Type 0
IsChain q held candidates locked =
    (lineage : List Scope)
    → check_authorized q lineage locked (reversed candidates) ≡ ok tt
    → Granted q held lineage (root_of (reversed candidates) q.consumer) none
        (ids_of (reversed candidates)) q.consumer (last_id none (reversed candidates))

check_candidates-IsChain :
    (authorities : Authorities) (q : Request) (held : Tables) (candidates : List Candidate)
    (locked : Dict ℕ DelegatedScope)
    → check_candidates authorities q held candidates ≡ ok locked
    → IsChain q held candidates locked
unfolding check_candidates
check_candidates-IsChain authorities q held candidates locked h lineage authorized =
    let path = reversed candidates in
    let root = root_of path q.consumer in
    let (shallow, h1) = require_then (not (is_deep q.new_recipient path)) forbidden _ locked h in
    let ((preceding, principals), linked, h2) =
      >>=-ok (check_path root (root ∷ []) none path) _ locked h1 in
    let (ends, h3) =
      require_then ((preceding == q.consumer) && is_new q.new_recipient principals) forbidden _
        locked h2 in
    let (u, current, h4) =
      >>=-ok (authorities.lock_many (with_recipient q.new_recipient principals)) _ locked h3 in
    let (rows, at, h5) =
      >>=-ok (lock_rows held.delegated_scopes q.tenant_id (sorted leb (map (λ c. c.0) candidates)))
        _ locked h4 in
    let (v, unchanged, h6) = >>=-ok (check_unchanged rows path) _ locked h5 in
    let same : rows ≡ locked = ground (arith, h6) in
    let consumer = (pair_eq.eqb_iff preceding q.consumer).0 (ground (arith, ends)) in
    subst (λ x. Granted q held lineage root none (ids_of path) x (last_id none path)) consumer
      (check_path-Granted q held lineage rows
        (λ id row is.
          lock_rows-held held.delegated_scopes q.tenant_id (sorted leb (map (λ c. c.0) candidates))
            rows at id row is)
        path root preceding (root ∷ []) principals none linked unchanged
        (subst (λ x. check_authorized q lineage x path ≡ ok tt) (sym same) authorized))

check_authority-IsAuthorised :
    (authorities : Authorities) (q : Request) (held : Tables) (candidates : List Candidate)
    (locked : Dict ℕ DelegatedScope) (proof : DelegationProof)
    → check_authority authorities q held candidates
        (reversed candidates)
        (root_of (reversed candidates) q.consumer)
        locked
      ≡ ok proof
    → IsChain q held candidates locked
    → last_id none (reversed candidates) ≡ q.source_id
    → length candidates ≤ 16
    → 0 < length q.actions
    → q.start < q.end
    → IsAuthorised authorities q held proof
unfolding check_authority
check_authority-IsAuthorised authorities q held candidates locked proof h chain source short named
      period =
    let path = reversed candidates in
    let root = root_of path q.consumer in
    let (target, effective, h1) =
      >>=-ok (require_effective_scope_lineage held q.target_type q.target_id q.tenant_id q.today) _
        proof h in
    let (lineage, lineage_is, h2) =
      >>=-ok (scope_lineage held q.tenant_id q.today target) _ proof h1 in
    let (assignment_id, is_id, h3) =
      >>=-ok (some_id (root_assignment q root lineage held.assignments)) _ proof h2 in
    let (u, authorized, h4) = >>=-ok (check_authorized q lineage locked path) _ proof h3 in
    let (references, decided, h5) =
      >>=-ok (decide (authorities.evaluate root) (sorted str_leb q.actions)) _ proof h4 in
    let granted =
      subst (λ s. Granted q held lineage root none (ids_of path) q.consumer s) source
        (chain lineage authorized) in
    let whole : IsAuthorised authorities q held (record {
      root = root;
      assignment_id = assignment_id;
      path = ids_of path;
      selected_scope = last_scope locked candidates;
      policy_references = references;
    }) =
      record {
        target = target;
        lineage = lineage;
        effective = effective;
        lineage_is = lineage_is;
        assigned =
            root_assignment-any q root lineage held.assignments assignment_id
              (some_id-ok (root_assignment q root lineage held.assignments) assignment_id is_id);
        granted = granted;
        short = omega (arith, short, length-reversed candidates);
        decided = λ action at.
            decide-allowed (authorities.evaluate root) (sorted str_leb q.actions) references action
              decided (sorted-contains str_leb q.actions action ∙ at);
        named = named;
        period = period;
      } in
    let same : record {
      root = root;
      assignment_id = assignment_id;
      path = ids_of path;
      selected_scope = last_scope locked candidates;
      policy_references = references;
    }
        ≡ proof =
      ground (arith, h5) in
    subst (IsAuthorised authorities q held) same whole

-- If `_validate_delegation_path` returns a proof, then the target is effective with its ancestors; in
-- the locked rows a chain of at most 16 grants of the tenant leads from the root to the consumer and
-- ends in the named source, each grant live, covering the target, the actions and the period; an
-- assignment of the root covers them too; and the policy allows each action to the root, whatever the
-- rows were when the path was discovered.
pub validate_delegation_path-IsAuthorised :
    (authorities : Authorities) (q : Request) (before held : Tables) (proof : DelegationProof)
    → validate_delegation_path authorities q before held ≡ ok proof
    → IsAuthorised authorities q held proof
unfolding validate_delegation_path
validate_delegation_path-IsAuthorised authorities q before held proof h =
    let (a, acquired, h1) = >>=-ok authorities.acquire _ proof h in
    let (b, active, h2) = >>=-ok authorities.require_active _ proof h1 in
    let (valid, h3) =
      require_then (ltb 0 (length q.actions) && ltb q.start q.end) forbidden _ proof h2 in
    let (candidates, found, h4) =
      >>=-ok (discover 16 before.delegated_scopes q.tenant_id [] q.source_id) _ proof h3 in
    let (locked, checked, h5) =
      >>=-ok (check_candidates authorities q held candidates) _ proof h4 in
    let (short, source) =
      discover-bounds 16 before.delegated_scopes q.tenant_id [] q.source_id candidates found in
    check_authority-IsAuthorised authorities q held candidates locked proof h5
      (check_candidates-IsChain authorities q held candidates locked checked) source short
      (ground (arith, valid)) (ground (arith, valid))
