-- ===== src/Organization/Grants/Revoked.antt =====
-- A delegation that was revoked gives no authority again.
use businessos.Prelude.{
  ℕ, true, false, Option, none, some, List, ◌==◌, ==-eq, nat_eq, string_eq, contains, is_some,
  is_none, ltb, ◌≡◌, refl, ap, ◌∙◌, arith, Bool-cases, inl, inr,
}
use businessos.Prelude.Dict.{get, put, get-put}
use businessos.Errors.{Result, ok, business_error, >>=-ok, require_then}
use businessos.Registry.Jobs.{RequestContext}
use businessos.Tenants.Periods.{aware, validate_effective_period}
use businessos.Organization.Tables.{Principal, DelegatedScope, Tables}
use businessos.Organization.Scopes.{Scope, scope_lineage, require_effective_scope_lineage}
use businessos.Organization.Structure.{tenant_of, integrity_error}
use businessos.Organization.Delegation.{
  Authorities, Request, DelegationProof, forbidden, validate_delegation_path,
}
use businessos.Organization.Delegation.Chains.{Granted, end, grant}
use businessos.Organization.Delegation.Sound.{validate_delegation_path-IsAuthorised}
use businessos.Organization.Grants.{
  Selection, DelegateScope, request_of, new_grant, selected_scope_covers, delegate, revocable,
  revoke_delegation, revoke_assignment,
}

pub data Step : Tables → Tables → Type 0 where
  delegates :
      {t t' : Tables} (before : Tables) (context : RequestContext) (actor : Result Principal)
      (authorities : Authorities) (selection : Selection) (command : DelegateScope) (now today : ℕ)
      → delegate context actor authorities selection command now today before t ≡ ok t'
      → Step t t'
  revokes :
      {t t' : Tables} (context : RequestContext) (actor : Result Principal)
      (authorities : Authorities) (tenant_id delegation_id now : ℕ)
      → revoke_delegation context actor authorities tenant_id delegation_id now t ≡ ok t'
      → Step t t'
  unassigns :
      {t t' : Tables} (context : RequestContext) (actor : Result Principal)
      (authorities : Authorities) (tenant_id assignment_id : ℕ)
      → revoke_assignment context actor authorities tenant_id assignment_id t ≡ ok t'
      → Step t t'

pub data Reach : Tables → Tables → Type 0 where
  here : {t : Tables} → Reach t t
  next : {s t u : Tables} → Reach s t → Step t u → Reach s u

abbrev IsRevoked : ℕ → Tables → Type 0
IsRevoked id t =
    (row : DelegatedScope) × (get t.delegated_scopes id ≡ some row)
    × (is_some row.revoked_at ≡ true)

revocable-ok :
    (o : Option DelegatedScope) (tenant_id : ℕ) (row : DelegatedScope)
    → revocable o tenant_id ≡ ok row
    → (o ≡ some row) × (row.revoked_at ≡ none)
revocable-ok none tenant_id row h = absurd (ground (arith, h))
revocable-ok (some r) tenant_id row h = ground (arith, h)

revoke_delegation-put :
    (context : RequestContext) (actor : Result Principal) (authorities : Authorities)
    (tenant_id id now : ℕ) (t t' : Tables)
    → revoke_delegation context actor authorities tenant_id id now t ≡ ok t'
    → (row : DelegatedScope) × (get t.delegated_scopes id ≡ some row)
      × (row.revoked_at ≡ none)
      × (t'.delegated_scopes ≡ put t.delegated_scopes id (record row { revoked_at = some now }))
unfolding revoke_delegation
revoke_delegation-put context actor authorities tenant_id id now t t' h =
    let (tenant, is, h1) = >>=-ok (tenant_of context tenant_id) _ t' h in
    let (caller, who, h2) = >>=-ok actor _ t' h1 in
    let (u, acquired, h3) = >>=-ok authorities.acquire _ t' h2 in
    let (v, active, h4) = >>=-ok authorities.require_active _ t' h3 in
    let (row, found, h5) =
      >>=-ok (revocable (get t.delegated_scopes id) tenant.tenant_id) _ t' h4 in
    let (at, live) = revocable-ok (get t.delegated_scopes id) tenant.tenant_id row found in
    (row, at, live, ground (arith, h5))

delegate-put :
    (context : RequestContext) (actor : Result Principal) (authorities : Authorities)
    (selection : Selection) (command : DelegateScope) (now today : ℕ) (before t t' : Tables)
    → delegate context actor authorities selection command now today before t ≡ ok t'
    → (row : DelegatedScope) × (is_none (get t.delegated_scopes command.id) ≡ true)
      × (t'.delegated_scopes ≡ put t.delegated_scopes command.id row)
unfolding delegate
delegate-put context actor authorities selection command now today before t t' h =
    let (tenant, is, h1) = >>=-ok (tenant_of context command.tenant_id) _ t' h in
    let (caller, who, h2) = >>=-ok actor _ t' h1 in
    let (typed, h3) = require_then (caller.0 == command.grantor_principal_type) forbidden _ t' h2 in
    let (u, valid, h4) =
      >>=-ok
        (validate_effective_period (some (aware command.valid_from))
          (some (aware command.valid_until)))
        _ t' h3 in
    let (future, h5) =
      require_then (ltb now command.valid_until) (business_error "invalid_delegation" 422) _ t'
        h4 in
    let (proof, proved, h6) =
      >>=-ok
        (validate_delegation_path authorities
          (request_of command tenant.tenant_id caller selection now today) before t)
        _ t' h5 in
    let (target, effective, h7) =
      >>=-ok
        (require_effective_scope_lineage t command.scope_type command.scope_id tenant.tenant_id
          today)
        _ t' h6 in
    let (lineage, lineage_is, h8) =
      >>=-ok (scope_lineage t tenant.tenant_id today target) _ t' h7 in
    let (covers, h9) = require_then (selected_scope_covers selection lineage) forbidden _ t' h8 in
    let (fresh, h10) =
      require_then (is_none (get t.delegated_scopes command.id)) integrity_error _ t' h9 in
    (new_grant command tenant.tenant_id caller selection, fresh, ground (arith, h10))

put-IsRevoked :
    (id j : ℕ) (new : DelegatedScope) (t t' : Tables)
    → t'.delegated_scopes ≡ put t.delegated_scopes j new
    → ((j == id) ≡ true
        → (row : DelegatedScope) → get t.delegated_scopes id ≡ some row
        → is_some row.revoked_at ≡ true
        → ⊥)
    → IsRevoked id t
    → IsRevoked id t'
put-IsRevoked id j new t t' is other (row, at, revoked) = elim (Bool-cases (j == id)) [
  | inl same ↦ absurd (other same row at revoked)
  | inr ne ↦ (
    row,
    ap (λ d. get d id) is ∙ ground (arith, at, ne, get-put t.delegated_scopes j id new),
    revoked,
  )
]

Step-IsRevoked : (id : ℕ) (t t' : Tables) → Step t t' → IsRevoked id t → IsRevoked id t'
Step-IsRevoked id t t' (delegates before context actor authorities selection command now today h)
      r =
    let (new, fresh, is) =
      delegate-put context actor authorities selection command now today before t t' h in
    put-IsRevoked id command.id new t t' is
      (λ same row at revoked.
        ground (arith, fresh, at, ap (λ x. get t.delegated_scopes x) (==-eq command.id id same)))
      r
Step-IsRevoked id t t' (revokes context actor authorities tenant_id j now h) r =
    let (old, at_old, live, is) =
      revoke_delegation-put context actor authorities tenant_id j now t t' h in
    put-IsRevoked id j (record old { revoked_at = some now }) t t' is
      (λ same row at revoked.
        ground
          (arith, at_old, live, at, revoked, ap (λ x. get t.delegated_scopes x) (==-eq j id same)))
      r
Step-IsRevoked id t t' (unassigns context actor authorities tenant_id j h) (row, at, revoked) =
    (row, ap (λ d. get d id) (unassigned h) ∙ at, revoked)
  where
    unassigned :
        revoke_assignment context actor authorities tenant_id j t ≡ ok t'
        → t'.delegated_scopes ≡ t.delegated_scopes
    unassigned h = unfold revoke_assignment in ground (arith, h)

Reach-IsRevoked : (id : ℕ) {t t' : Tables} → Reach t t' → IsRevoked id t → IsRevoked id t'
Reach-IsRevoked id here r = r
Reach-IsRevoked id (next {s} {t} {u} path step) r =
    Step-IsRevoked id t u step (Reach-IsRevoked id path r)

-- No grant of a chain is revoked.
Granted-live :
    {q : Request} {held : Tables} {lineage : List Scope} {p r : Principal} {last last' : Option ℕ}
    {ids : List ℕ} (id : ℕ)
    → Granted q held lineage p last ids r last'
    → IsRevoked id held
    → contains ids id ≡ false
Granted-live id end r = refl
Granted-live {held = held} id (grant j row at tenant live from parent is_authorized rest)
      (old, stored, revoked) =
    elim (Bool-cases (j == id)) [
      | inl same ↦ absurd (
          ground (
            arith,
            at,
            live,
            stored,
            revoked,
            ap (λ x. get held.delegated_scopes x) (==-eq j id same),
          ))
      | inr ne ↦ ground (arith, ne, Granted-live id rest (old, stored, revoked))
    ]

-- Once `_revoke_delegation` has revoked a delegation, no proof of `_validate_delegation_path` leads
-- through it again, whatever is delegated or revoked later and whatever the validation read before its
-- locks.
pub revoke_delegation-forever :
    (context : RequestContext) (actor : Result Principal) (authorities : Authorities)
    (tenant_id id now : ℕ) (t t' : Tables) (others : Authorities) (q : Request) (before : Tables)
    {held : Tables} (proof : DelegationProof)
    → revoke_delegation context actor authorities tenant_id id now t ≡ ok t'
    → Reach t' held
    → validate_delegation_path others q before held ≡ ok proof
    → contains proof.path id ≡ false
revoke_delegation-forever context actor authorities tenant_id id now t t' others q before {held}
      proof h path proved =
    let (row, at, live, is) =
      revoke_delegation-put context actor authorities tenant_id id now t t' h in
    let new : DelegatedScope = record row { revoked_at = some now } in
    Granted-live id
      (validate_delegation_path-IsAuthorised others q before held proof proved).granted
      (Reach-IsRevoked id path (
        new,
        ap (λ d. get d id) is
            ∙ ground (arith, get-put t.delegated_scopes id id new, nat_eq.eqb_iff id id),
        refl,
      ))
