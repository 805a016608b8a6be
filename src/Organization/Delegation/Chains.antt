-- ===== src/Organization/Delegation/Chains.antt =====
-- What each check of `_validate_delegation_path` ensures.
use businessos.Prelude.{
  ℕ, zero, suc, String, true, false, not, ◌&&◌, Option, none, some, List, [], ◌∷◌, ◌++◌, ◌==◌,
  ==-eq, nat_eq, string_eq, option_eq, pair_eq, contains, any, Option-cases, length, map, ◌≡◌, ◌≤◌,
  ◌+◌, refl, sym, subst, ap, ◌∙◌, arith, Bool-cases, inl, inr,
}
use businessos.Prelude.Dict.{Dict, get, put, get-put}
use businessos.Errors.{Result, ok, >>=-ok, require_then}
use businessos.Organization.Tables.{Principal, Assignment, DelegatedScope, Tables}
use businessos.Organization.Scopes.{Scope}
use businessos.Organization.Delegation.{
  Request, Decision, Candidate, forbidden, owned, next_source, discover, reversed, is_linked,
  check_path, lock_rows, locked_row, is_unchanged, check_unchanged, is_root, root_assignment,
  is_authorized, check_authorized, reference_of, decide,
}

-- The grants from the first principal, after the grant `last`, to the other one: each is held by the
-- tenant, is not revoked, goes on from the grant before it, and covers the request.
module _ (q : Request) (held : Tables) (lineage : List Scope) where
  pub data Granted : Principal → Option ℕ → List ℕ → Principal → Option ℕ → Type 0 where
    end : {p : Principal} {last : Option ℕ} → Granted p last [] p last
    grant :
        {p r : Principal} {last last' : Option ℕ} {ids : List ℕ} (id : ℕ) (row : DelegatedScope)
        → get held.delegated_scopes id ≡ some row
        → row.tenant_id ≡ q.tenant_id
        → row.revoked_at ≡ none
        → row.grantor ≡ p
        → row.parent_delegation_id ≡ last
        → is_authorized q lineage row ≡ true
        → Granted row.recipient (some id) ids r last'
        → Granted p last (id ∷ ids) r last'

owned-ok :
    (o : Option DelegatedScope) (tenant_id : ℕ) (row : DelegatedScope)
    → owned o tenant_id ≡ ok row
    → (o ≡ some row) × (row.tenant_id ≡ tenant_id)
owned-ok none tenant_id row h = absurd (ground (arith, h))
owned-ok (some r) tenant_id row h = ground (arith, h)

put_row :
    (others locked : Dict ℕ DelegatedScope) (i id : ℕ) (first row : DelegatedScope)
    → (i == id) ≡ true
    → Result.ok (put others i first) ≡ ok locked
    → get locked id ≡ some row
    → first ≡ row
put_row others locked i id first row at eq is =
    ground (arith, at, eq, is, get-put others i id first)

pub lock_rows-held :
    (table : Dict ℕ DelegatedScope) (tenant_id : ℕ) (ids : List ℕ) (locked : Dict ℕ DelegatedScope)
    → lock_rows table tenant_id ids ≡ ok locked
    → (id : ℕ) (row : DelegatedScope) → get locked id ≡ some row
    → (get table id ≡ some row) × (row.tenant_id ≡ tenant_id)
unfolding lock_rows
lock_rows-held table tenant_id [] locked h id row is = absurd (unfold get in ground (arith, h, is))
lock_rows-held table tenant_id (i ∷ ids) locked h id row is =
    let (first, at, rest) = >>=-ok (owned (get table i) tenant_id) _ locked h in
    let (others, below, eq) = >>=-ok (lock_rows table tenant_id ids) _ locked rest in
    let own = owned-ok (get table i) tenant_id first at in
    elim (Bool-cases (i == id)) [
      | inl eq' ↦
          let same = ==-eq i id eq' in
          let row_is = put_row others locked i id first row eq' eq is in
          (
            subst (λ x. get table x ≡ some row) same (own.0 ∙ ap some row_is),
            ap (λ r. r.tenant_id) (sym row_is) ∙ own.1,
          )
      | inr ne ↦
          lock_rows-held table tenant_id ids others below id row
            (ground (arith, eq, is, ne, get-put others i id first))
    ]

unchanged_row :
    (current candidate : DelegatedScope)
    → is_unchanged current candidate ≡ true
    → (current.parent_delegation_id ≡ candidate.parent_delegation_id)
      × (current.revoked_at ≡ none)
      × (current.grantor ≡ candidate.grantor)
      × (current.recipient ≡ candidate.recipient)
unfolding is_unchanged
unchanged_row current candidate h = (
  (option_eq.eqb_iff current.parent_delegation_id candidate.parent_delegation_id).0
      (ground (arith, h)),
  ground (arith, h),
  (pair_eq.eqb_iff current.grantor candidate.grantor).0 (ground (arith, h)),
  (pair_eq.eqb_iff current.recipient candidate.recipient).0 (ground (arith, h)),
)

linked_row :
    (p : Principal) (principals : List Principal) (previous_id : Option ℕ) (row : DelegatedScope)
    → is_linked p principals previous_id row ≡ true
    → (row.grantor ≡ p)
      × (contains principals row.recipient ≡ false)
      × (row.parent_delegation_id ≡ previous_id)
unfolding is_linked
linked_row p principals previous_id row h = (
  (pair_eq.eqb_iff row.grantor p).0 (ground (arith, h)),
  ground (arith, h),
  (option_eq.eqb_iff row.parent_delegation_id previous_id).0 (ground (arith, h)),
)

reference_of-allowed :
    (decision : Decision) (reference : String)
    → reference_of decision ≡ ok reference
    → decision.allowed ≡ true
reference_of-allowed decision reference h = ground (arith, h)

locked_row-ok :
    (o : Option DelegatedScope) (row : DelegatedScope) → locked_row o ≡ ok row → o ≡ some row
locked_row-ok none row h = absurd (ground (arith, h))
locked_row-ok (some r) row h = ground (arith, h)

-- The identifier of the last candidate.
abbrev pub last_id : Option ℕ → List Candidate → Option ℕ
last_id previous_id [] = previous_id
last_id previous_id ((id, row) ∷ path) = last_id (some id) path

abbrev pub ids_of : List Candidate → List ℕ
ids_of = map (λ c. c.0)

module _ (q : Request) (held : Tables) (lineage : List Scope) (locked : Dict ℕ DelegatedScope) where
  -- A path that passes every check is a chain of grants.
  pub check_path-Granted :
      ((id : ℕ) (row : DelegatedScope)
        → get locked id ≡ some row
        → (get held.delegated_scopes id ≡ some row) × (row.tenant_id ≡ q.tenant_id))
      → (path : List Candidate) (p r : Principal) (principals principals' : List Principal)
        (previous_id : Option ℕ)
      → check_path p principals previous_id path ≡ ok (r, principals')
      → check_unchanged locked path ≡ ok tt
      → check_authorized q lineage locked path ≡ ok tt
      → Granted q held lineage p previous_id (ids_of path) r (last_id previous_id path)
  unfolding check_path check_unchanged check_authorized
  check_path-Granted of_held [] p r principals principals' previous_id linked unchanged authorized =
      subst (λ x. Granted q held lineage p previous_id [] x previous_id) (ground (arith, linked))
        end
  check_path-Granted of_held ((id, candidate) ∷ path) p r principals principals' previous_id linked
        unchanged authorized =
      let (is_l, linked') =
        require_then (is_linked p principals previous_id candidate) forbidden _ (r, principals')
          linked in
      let (current, at, unchanged') = >>=-ok (locked_row (get locked id)) _ tt unchanged in
      let (is_u, unchanged'') =
        require_then (is_unchanged current candidate) forbidden _ tt unchanged' in
      let (row, at', authorized') = >>=-ok (locked_row (get locked id)) _ tt authorized in
      let (is_a, authorized'') =
        require_then (is_authorized q lineage row) forbidden _ tt authorized' in
      let there = locked_row-ok (get locked id) current at in
      let same : row ≡ current = ground (arith, there, locked_row-ok (get locked id) row at') in
      let (parent, live, grantor, recipient) = unchanged_row current candidate is_u in
      let (grantor', fresh, parent') = linked_row p principals previous_id candidate is_l in
      let (stored, owner) = of_held id current there in
      grant id current stored owner live (grantor ∙ grantor') (parent ∙ parent')
        (subst (λ x. is_authorized q lineage x ≡ true) same is_a)
        (subst (λ x. Granted q held lineage x (some id) (ids_of path) r (last_id (some id) path))
          (sym recipient)
          (check_path-Granted of_held path candidate.recipient r
            (principals ++ candidate.recipient ∷ []) principals' (some id) linked' unchanged''
            authorized''))

last_id-append :
    (previous_id : Option ℕ) (path : List Candidate) (id : ℕ) (row : DelegatedScope)
    → last_id previous_id (path ++ (id, row) ∷ []) ≡ some id
last_id-append previous_id [] id row = refl
last_id-append previous_id ((i, r) ∷ path) id row = last_id-append (some i) path id row

-- The discovery finds at most so many candidates, and the source first.
pub discover-bounds :
    (left : ℕ) (table : Dict ℕ DelegatedScope) (tenant_id : ℕ) (seen : List ℕ) (source : Option ℕ)
    (candidates : List Candidate)
    → discover left table tenant_id seen source ≡ ok candidates
    → (length candidates ≤ left) × (last_id none (reversed candidates) ≡ source)
unfolding discover
discover-bounds left table tenant_id seen none candidates h =
    let same : [] ≡ candidates = ground (arith, h) in
    subst (λ c. (length c ≤ left) × (last_id none (reversed c) ≡ none)) same (omega arith, refl)
discover-bounds zero table tenant_id seen (some id) candidates h = absurd (ground (arith, h))
discover-bounds (suc left) table tenant_id seen (some id) candidates h =
    let (new, h1) = require_then (not (contains seen id)) forbidden _ candidates h in
    let (row, at, h2) = >>=-ok (owned (get table id) tenant_id) _ candidates h1 in
    let (source, is, h3) = >>=-ok (next_source row) _ candidates h2 in
    let (rest, below, eq) =
      >>=-ok (discover left table tenant_id (id ∷ seen) source) _ candidates h3 in
    let (bound, before) = discover-bounds left table tenant_id (id ∷ seen) source rest below in
    let same : (id, row) ∷ rest ≡ candidates = ground (arith, eq) in
    subst (λ c. (length c ≤ suc left) × (last_id none (reversed c) ≡ some id)) same
      (omega (arith, bound), last_id-append none (reversed rest) id row)

length-append :
    (xs ys : List Candidate) → length (ids_of (xs ++ ys)) ≡ length (ids_of xs) + length ys
length-append [] [] = refl
length-append [] (y ∷ ys) = ground (arith, length-append [] ys)
length-append (x ∷ xs) ys = ground (arith, length-append xs ys)

pub length-reversed : (path : List Candidate) → length (ids_of (reversed path)) ≡ length path
length-reversed [] = refl
length-reversed (c ∷ path) =
    ground (arith, length-reversed path, length-append (reversed path) (c ∷ []))

pub root_assignment-any :
    (q : Request) (root : Principal) (lineage : List Scope) (rows : Dict ℕ Assignment) (id : ℕ)
    → root_assignment q root lineage rows ≡ some id
    → any (λ (p : ℕ × Assignment). (p.0 == id) && is_root q root lineage p.1) rows ≡ true
unfolding root_assignment
root_assignment-any q root lineage [] id h = absurd (ground (arith, h))
root_assignment-any q root lineage ((i, row) ∷ rows) id h =
    elim (Option-cases (root_assignment q root lineage rows)) [
      | inl none_below ↦ ground (arith, h, none_below)
      | inr (j, below) ↦ ground (
        arith,
        h,
        below,
        root_assignment-any q root lineage rows j below,
        root_assignment-any q root lineage rows id,
      )
    ]

pub decide-allowed :
    (evaluate : String → Decision) (actions references : List String) (action : String)
    → decide evaluate actions ≡ ok references
    → contains actions action ≡ true
    → (evaluate action).allowed ≡ true
unfolding decide
decide-allowed evaluate [] references action h at = absurd (ground (arith, at))
decide-allowed evaluate (a ∷ actions) references action h at =
    let (reference, first, h1) = >>=-ok (reference_of (evaluate a)) _ references h in
    let (rest, below, eq) = >>=-ok (decide evaluate actions) _ references h1 in
    elim (Bool-cases (a == action)) [
      | inl same ↦
          subst (λ x. (evaluate x).allowed ≡ true) (==-eq a action same)
            (reference_of-allowed (evaluate a) reference first)
      | inr ne ↦ decide-allowed evaluate actions rest action below (ground (arith, at, ne))
    ]
