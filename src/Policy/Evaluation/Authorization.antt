-- ===== src/Policy/Evaluation/Authorization.antt =====
-- When `authorize` allows.
use businessos.Prelude.{
  ℕ, String, Bool, true, ◌&&◌, ◌||◌, Option, none, some, List, [], ◌∷◌, ◌==◌, nat_eq, string_eq,
  option_eq, contains, is_some, ◌≡◌, ◌↔◌, refl, arith, Bool-cases, inl, inr,
}
use businessos.Policy.Models.{
  RecordPolicyRecord, RolePermissionRecord, RoleRecord, PolicyContext, SubjectRoleAssignmentRecord,
  DelegationGrantRecord,
}
use businessos.Policy.Roles.{active_role_ids, role_map, expanded_role_ids}
use businessos.Policy.Roles.Inheritance.{Inherits}
use businessos.Policy.Roles.Expansion.{expanded_role_ids_lem}
use businessos.Policy.Evaluation.{
  all_actions, is_granted, record_access_allowed, match_permissions, authorize,
}

pub data Listed (rp : RolePermissionRecord) : List RolePermissionRecord → Type 0 where
  now : {rest : List RolePermissionRecord} → Listed rp (rp ∷ rest)
  later :
      {other : RolePermissionRecord} {rest : List RolePermissionRecord}
      → Listed rp rest
      → Listed rp (other ∷ rest)

-- A permission of the tenant for the action, or for all actions on the resource, on a role that an
-- active role of the subject is or inherits.
pub record IsGrant (action resource : String) (context : PolicyContext) (roles : List RoleRecord)
    (active : List ℕ) (rp : RolePermissionRecord) : Type 0 where
  pub same_tenant : rp.tenant_id ≡ context.tenant_id
  pub covers_action :
      (rp.permission_code == action) || (rp.permission_code == all_actions resource) ≡ true
  pub role : ℕ
  pub is_active : contains active role ≡ true
  pub inherits : Inherits (role_map context.tenant_id roles []) role rp.role_id

module _ (matches : Option String → Bool) (action resource : String) (context : PolicyContext)
    (roles : List RoleRecord) where
  match_sound :
      (policies : List RecordPolicyRecord) (ids : List ℕ) (rps : List RolePermissionRecord)
      (code : String)
      → match_permissions matches action resource context policies ids rps ≡ some code
      → (rp : RolePermissionRecord) × Listed rp rps
        × (is_granted action resource context ids rp ≡ true)
        × (rp.permission_code ≡ code)
        × (record_access_allowed matches resource context policies ids ≡ true)
  unfolding match_permissions
  match_sound policies ids [] code h = absurd (ground (arith, h))
  match_sound policies ids (rp ∷ rest) code h =
      elim (Bool-cases (
        is_granted action resource context ids rp
        && record_access_allowed matches resource context policies ids)) [
          | inl good ↦
              (rp, now, ground (arith, good), ground (arith, good, h), ground (arith, good))
          | inr bad ↦
              (let (r, m, g, c, a) = match_sound policies ids rest code (ground (arith, h, bad)) in
                (r, later m, g, c, a))
        ]

  match_complete :
      (policies : List RecordPolicyRecord) (ids : List ℕ) (rps : List RolePermissionRecord)
      (rp : RolePermissionRecord)
      → Listed rp rps
      → is_granted action resource context ids rp ≡ true
      → record_access_allowed matches resource context policies ids ≡ true
      → is_some (match_permissions matches action resource context policies ids rps) ≡ true
  unfolding match_permissions
  match_complete policies ids [] rp m g a = elim m [ ]
  match_complete policies ids (_ ∷ rest) rp now g a = ground (arith, g, a)
  match_complete policies ids (r ∷ rest) rp (later m) g a =
      ground (arith, a, match_complete policies ids rest rp m g a)

  module _ (assignments : List SubjectRoleAssignmentRecord)
      (delegations : List DelegationGrantRecord) (policies : List RecordPolicyRecord)
      (rps : List RolePermissionRecord) where
    abbrev active : List ℕ
    active = active_role_ids context assignments delegations

    abbrev Granted : RolePermissionRecord → Type 0
    Granted = IsGrant action resource context roles active

    abbrev Collected : List ℕ → Type 0
    Collected ids =
        (x : ℕ)
        → (contains ids x ≡ true) ↔ (
            (a : ℕ) × (contains active a ≡ true)
            × Inherits (role_map context.tenant_id roles []) a x)

    granted :
        (ids : List ℕ)
        → Collected ids
        → (rp : RolePermissionRecord) → Granted rp
        → is_granted action resource context ids rp ≡ true
    unfolding is_granted
    granted ids c rp g = ground (
      arith,
      nat_eq.eqb_iff rp.tenant_id context.tenant_id,
      g.same_tenant,
      g.covers_action,
      (c rp.role_id).1 (g.role, g.is_active, g.inherits),
    )

    Granted-by :
        (ids : List ℕ)
        → Collected ids
        → (rp : RolePermissionRecord) → is_granted action resource context ids rp ≡ true
        → Granted rp
    unfolding is_granted
    Granted-by ids c rp g =
        let (a, held, path) = (c rp.role_id).0 (ground (arith, g)) in
        record {
          same_tenant = ground (arith, g, nat_eq.eqb_iff rp.tenant_id context.tenant_id);
          covers_action = ground (arith, g);
          role = a;
          is_active = held;
          inherits = path;
        }

    authorize_at :
        (ids : List ℕ)
        → expanded_role_ids (role_map context.tenant_id roles []) active ≡ some ids
        → authorize matches action resource context roles rps assignments delegations policies
          ≡ some (match_permissions matches action resource context policies ids rps)
    unfolding authorize
    authorize_at ids e = ground (arith, e)

    -- `authorize` decides, and it allows exactly if the record policies of the resource allow, at the
    -- active roles and those that they inherit, and some listed permission of the tenant is for the
    -- action or for all actions on the resource, on a role that an active role is or inherits.
    pub authorize_lem :
        (ids : List ℕ) × (decision : Option String) × (authorize matches action resource context
            roles rps assignments delegations policies
          ≡ some decision)
        × Collected ids
        × ((is_some decision ≡ true) ↔ (
            (record_access_allowed matches resource context policies ids ≡ true)
            × ((rp : RolePermissionRecord) × Listed rp rps × Granted rp)))
    authorize_lem =
        let (ids, e, collected) =
          expanded_role_ids_lem (role_map context.tenant_id roles []) active in
        (
          ids,
          match_permissions matches action resource context policies ids rps,
          authorize_at ids e,
          collected,
          (
            (λ is.
                sound ids collected
                  (match_permissions matches action resource context policies ids rps) refl is),
            (λ (a, (rp, m, g)).
                match_complete policies ids rps rp m (granted ids collected rp g) a),
          ),
        )
      where
        sound :
            (ids : List ℕ)
            → Collected ids
            → (d : Option String)
            → match_permissions matches action resource context policies ids rps ≡ d
            → is_some d ≡ true
            → (record_access_allowed matches resource context policies ids ≡ true)
              × ((rp : RolePermissionRecord) × Listed rp rps × Granted rp)
        sound ids c none is held = absurd (ground (arith, held))
        sound ids c (some code) is held =
            let (rp, m, g, _, a) = match_sound policies ids rps code is in
            (a, (rp, m, Granted-by ids c rp g))
