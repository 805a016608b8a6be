-- ===== src/Organization/Climb.antt =====
-- `_append_parent_chain` on the tables that the handlers make.
use businessos.Prelude.{
  ℕ, zero, suc, String, true, false, Option, some, List, [], ◌∷◌, ◌==◌, ==-eq, nat_eq, contains,
  length, ◌≡◌, ◌⊎◌, ◌≤◌, ◌<◌, inl, inr, refl, subst, ap, ◌∙◌, arith, Bool-cases, Option-cases,
}
use businessos.Prelude.Dict.{Dict, get, keys, contains-keys, length-keys}
use businessos.Prelude.Visited.{unvisited, unvisited_bound, unvisited_less}
use businessos.Errors.{Error, Result, ok, err, ◌>>=◌, Result-cases}
use businessos.Tenants.Periods.{TemporalValue, date, effective_at, invalid_effective_period}
use businessos.Organization.Tables.{Row, Branch}
use businessos.Organization.Scopes.{
  Scope, inactive_scope, require_owned, require_effective_row, parent_chain, append_parent_chain,
}
use businessos.Organization.Lineage.{IsAncestry, top, up, round_top, after_parent, round_up}
use businessos.Organization.Hierarchy.{IsRanked}

-- An error of a row that is there: it is not effective, or its period is not valid.
abbrev pub IsIneffective : Error → Type 0
IsIneffective e = (e ≡ inactive_scope) ⊎ (e ≡ invalid_effective_period)

effective_at-IsIneffective :
    (start until : Option TemporalValue) (instant : TemporalValue) (e : Error)
    → effective_at start until instant ≡ err e
    → IsIneffective e
unfolding effective_at
effective_at-IsIneffective start until instant e h = inr (ground (arith, h))

effective_row :
    (table : Dict ℕ (Row Branch)) (p tenant_id today : ℕ) (parent : Row Branch)
    → get table p ≡ some parent
    → parent.tenant_id ≡ tenant_id
    → (require_effective_row table p tenant_id today ≡ ok parent)
      ⊎ ((e : Error) × (require_effective_row table p tenant_id today ≡ err e) × IsIneffective e)
unfolding require_effective_row require_owned
effective_row table p tenant_id today parent is tenant = elim (Bool-cases parent.active) [
  | inr idle ↦ inr (
    inactive_scope,
    ground (arith, is, tenant, idle, nat_eq.eqb_iff parent.tenant_id tenant_id),
    inl refl,
  )
  | inl active ↦
      elim (Result-cases (effective_at parent.effective_from parent.effective_until (date today))) [
        | inr (e, bad) ↦ inr (
          e,
          ground (arith, is, tenant, active, bad, nat_eq.eqb_iff parent.tenant_id tenant_id),
          effective_at-IsIneffective parent.effective_from parent.effective_until (date today) e
              bad,
        )
        | inl (effective, answer) ↦ elim (Bool-cases effective) [
          | inl applies ↦ inl (
              ground (
                arith,
                is,
                tenant,
                active,
                answer,
                applies,
                nat_eq.eqb_iff parent.tenant_id tenant_id,
              ))
          | inr lapsed ↦ inr (
            inactive_scope,
            ground (
              arith,
              is,
              tenant,
              active,
              answer,
              lapsed,
              nat_eq.eqb_iff parent.tenant_id tenant_id,
            ),
            inl refl,
          )
        ]
      ]
]

module _ (table : Dict ℕ (Row Branch)) (tenant_id today : ℕ) (scope_type : String)
    (company_id : ℕ) where
  -- A climb gives the ancestry, or meets a row that is not effective.
  abbrev Climbs : ℕ → Row Branch → Result (List Scope) → Type 0
  Climbs id row result =
      ((chain : List Scope) × (result ≡ ok chain)
        × IsAncestry table tenant_id today scope_type company_id id row chain)
      ⊎ ((e : Error) × (result ≡ err e) × IsIneffective e)

  climb :
      (ranked : IsRanked table) (fuel id : ℕ) (visited : List ℕ) (row : Row Branch)
      → suc (unvisited visited (keys table)) ≤ fuel
      → ((v : ℕ) → contains visited v ≡ true → ranked.rank id < ranked.rank v)
      → get table id ≡ some row
      → row.tenant_id ≡ tenant_id
      → row.columns.company_id ≡ company_id
      → Climbs id row (parent_chain fuel table tenant_id today scope_type company_id visited id row)
  climb ranked zero id visited row enough above is tenant of_company =
      absurd (ground (arith, enough))
  climb ranked (suc fuel) id visited row enough above is tenant of_company =
      let new : contains visited id ≡ false = elim (Bool-cases (contains visited id)) [
        | inl old ↦ absurd (ground (arith, above id old))
        | inr new ↦ new
      ] in
      elim (Option-cases row.columns.parent_id) [
        | inl root ↦ inl (
          (scope_type, id) ∷ [],
          round_top table tenant_id today scope_type company_id fuel id visited row new root,
          top root,
        )
        | inr (p, has) ↦
            let (parent, there, same_tenant, same_company, less) = ranked.parents id row p is has in
            let round =
              round_up table tenant_id today scope_type company_id fuel id p visited row new has in
            elim (effective_row table p tenant_id today parent there (same_tenant ∙ tenant)) [
              | inr (e, raised, ineffective) ↦ inr (
                e,
                round
                    ∙ ap
                        (λ r.
                          r
                          >>= after_parent table tenant_id today scope_type company_id fuel id
                              visited p)
                        raised,
                ineffective,
              )
              | inl effective ↦
                  let onward =
                    round
                    ∙ ap
                        (λ r.
                          r
                          >>= after_parent table tenant_id today scope_type company_id fuel id
                              visited p)
                        effective in
                  let shrinks =
                    unvisited_less id visited (keys table)
                      (ground (arith, contains-keys table id, is)) new in
                  elim (climb ranked fuel p (id ∷ visited) parent (ground (arith, enough, shrinks))
                    (λ v at. elim (Bool-cases (id == v)) [
                      | inl eq ↦ subst (λ x. ranked.rank p < ranked.rank x) (==-eq id v eq) less
                      | inr ne ↦ ground (arith, less, above v (ground (arith, at, ne)))
                    ])
                    there (same_tenant ∙ tenant) (same_company ∙ of_company)) [
                      | inl (rest, below, ancestry) ↦ inl (
                        (scope_type, id) ∷ rest,
                        onward
                            ∙ ground (
                              arith,
                              below,
                              same_company,
                              of_company,
                              nat_eq.eqb_iff parent.columns.company_id company_id,
                            ),
                        up p parent has effective (same_company ∙ of_company) ancestry,
                      )
                      | inr (e, raised, ineffective) ↦ inr (
                        e,
                        onward
                            ∙ ground (
                              arith,
                              raised,
                              same_company,
                              of_company,
                              nat_eq.eqb_iff parent.columns.company_id company_id,
                            ),
                        ineffective,
                      )
                    ]
            ]
      ]

-- In a ranked table, `_append_parent_chain` of a row of the tenant ends: it gives the scopes from the
-- row up to one without a parent, or it raises because an ancestor is not effective or has no valid
-- period; it never raises invalid_organization_hierarchy.
pub append_parent_chain-IsAncestry :
    (table : Dict ℕ (Row Branch)) (tenant_id today id : ℕ) (scope_type : String) (row : Row Branch)
    → IsRanked table
    → get table id ≡ some row
    → row.tenant_id ≡ tenant_id
    → ((chain : List Scope) × (append_parent_chain table tenant_id today scope_type id row
          ≡ ok chain)
        × IsAncestry table tenant_id today scope_type row.columns.company_id id row chain)
      ⊎ ((e : Error) × (append_parent_chain table tenant_id today scope_type id row ≡ err e)
          × ((e ≡ inactive_scope) ⊎ (e ≡ invalid_effective_period)))
unfolding append_parent_chain
append_parent_chain-IsAncestry table tenant_id today id scope_type row ranked is tenant =
    climb table tenant_id today scope_type row.columns.company_id ranked (suc (suc (length table)))
      id [] row (ground (arith, unvisited_bound [] (keys table), length-keys table))
      (λ v at. absurd (ground (arith, at))) is tenant refl
