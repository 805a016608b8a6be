-- ===== src/Organization/Lineage.antt =====
-- What the lineage of a scope holds.
use businessos.Prelude.{
  ℕ, zero, suc, String, true, false, none, some, List, [], ◌∷◌, ◌++◌, ◌==◌, ==-eq, ==-refl, nat_eq,
  string_eq, pair_eq, contains, contains-append, length, ◌≡◌, inl, inr, sym, subst, ◌∙◌, arith,
  Bool-cases, Option-cases,
}
use businessos.Prelude.Dict.{Dict}
use businessos.Errors.{Result, ok, err, ◌>>=◌, ◌>>◌, require, >>=-ok, require_then}
use businessos.Organization.Tables.{Row, Branch, Tables}
use businessos.Organization.Scopes.{
  Scope, hierarchy_error, require_effective_row, is_unit_kind, canonical_kind, parent_chain,
  append_parent_chain, of_unit, company_lineage, unit_chain, scope_lineage,
}

company_lineage-unit :
    (t : Tables) (tenant_id today company_id : ℕ) (above : List Scope) (id : ℕ)
    → company_lineage t tenant_id today company_id ≡ ok above
    → contains above ("org_unit", id) ≡ false
unfolding company_lineage
company_lineage-unit t tenant_id today company_id above id h =
    let (c, is_c, h1) =
      >>=-ok (require_effective_row t.companies company_id tenant_id today) _ above h in
    let (l, is_l, h2) =
      >>=-ok (require_effective_row t.legal_entities c.columns.legal_entity_id tenant_id today) _
        above h1 in
    let (g, is_g, h3) =
      >>=-ok
        (require_effective_row t.enterprise_groups l.columns.enterprise_group_id tenant_id today) _
        above h2 in
    ground (arith, h3)

module _ (table : Dict ℕ (Row Branch)) (tenant_id today : ℕ) (scope_type : String)
    (company_id : ℕ) where
  -- The scopes from a row up to a row without a parent: each parent is effective, and of the company.
  pub data IsAncestry : ℕ → Row Branch → List Scope → Type 0 where
    top :
        {id : ℕ} {row : Row Branch}
        → row.columns.parent_id ≡ none
        → IsAncestry id row ((scope_type, id) ∷ [])
    up :
        {id : ℕ} {row : Row Branch} {rest : List Scope} (p : ℕ) (parent : Row Branch)
        → row.columns.parent_id ≡ some p
        → require_effective_row table p tenant_id today ≡ ok parent
        → parent.columns.company_id ≡ company_id
        → IsAncestry p parent rest
        → IsAncestry id row ((scope_type, id) ∷ rest)

  -- The two branches of a round.
  pub round_top :
      (fuel id : ℕ) (visited : List ℕ) (row : Row Branch)
      → contains visited id ≡ false
      → row.columns.parent_id ≡ none
      → parent_chain (suc fuel) table tenant_id today scope_type company_id visited id row
        ≡ ok ((scope_type, id) ∷ [])
  unfolding parent_chain
  round_top fuel id visited row new is = ground (arith, new, is)

  abbrev pub after_parent : ℕ → ℕ → List ℕ → ℕ → Row Branch → Result (List Scope)
  after_parent fuel id visited p parent =
      require (parent.columns.company_id == company_id) hierarchy_error
      >> (parent_chain fuel table tenant_id today scope_type company_id (id ∷ visited) p parent
          >>= λ rest. ok ((scope_type, id) ∷ rest))

  pub round_up :
      (fuel id p : ℕ) (visited : List ℕ) (row : Row Branch)
      → contains visited id ≡ false
      → row.columns.parent_id ≡ some p
      → parent_chain (suc fuel) table tenant_id today scope_type company_id visited id row
        ≡ (require_effective_row table p tenant_id today >>= after_parent fuel id visited p)
  unfolding parent_chain
  round_up fuel id p visited row new is = ground (arith, new, is)

  round_old :
      (fuel id : ℕ) (visited : List ℕ) (row : Row Branch)
      → contains visited id ≡ true
      → parent_chain (suc fuel) table tenant_id today scope_type company_id visited id row
        ≡ err hierarchy_error
  unfolding parent_chain
  round_old fuel id visited row old = ground (arith, old)

  pub parent_chain-IsAncestry :
      (fuel id : ℕ) (visited : List ℕ) (row : Row Branch) (chain : List Scope)
      → parent_chain fuel table tenant_id today scope_type company_id visited id row ≡ ok chain
      → IsAncestry id row chain
  parent_chain-IsAncestry zero id visited row chain h =
      absurd (unfold parent_chain in ground (arith, h))
  parent_chain-IsAncestry (suc fuel) id visited row chain h =
      elim (Bool-cases (contains visited id)) [
        | inl old ↦ absurd (ground (arith, h, round_old fuel id visited row old))
        | inr new ↦ elim (Option-cases row.columns.parent_id) [
          | inl is ↦
              let same : (scope_type, id) ∷ [] ≡ chain =
                ground (arith, h, round_top fuel id visited row new is) in
              subst (IsAncestry id row) same (top is)
          | inr (p, is) ↦
              let (parent, effective, h1) =
                >>=-ok (require_effective_row table p tenant_id today)
                  (after_parent fuel id visited p) chain
                  (sym (round_up fuel id p visited row new is) ∙ h) in
              let (of_company, h2) =
                require_then (parent.columns.company_id == company_id) hierarchy_error _ chain h1 in
              let (rest, below, h3) =
                >>=-ok
                  (parent_chain fuel table tenant_id today scope_type company_id (id ∷ visited) p
                    parent)
                  _ chain h2 in
              let same : (scope_type, id) ∷ rest ≡ chain = ground (arith, h3) in
              subst (IsAncestry id row) same (
                up p parent is effective (==-eq parent.columns.company_id company_id of_company)
                  (parent_chain-IsAncestry fuel p (id ∷ visited) parent rest below))
        ]
      ]

  IsAncestry-head :
      {id : ℕ} {row : Row Branch} {chain : List Scope}
      → IsAncestry id row chain
      → contains chain (scope_type, id) ≡ true
  IsAncestry-head {id} (top is) = ground (arith, ==-refl id, ==-refl scope_type)
  IsAncestry-head {id} (up p parent is effective same above) =
      ground (arith, ==-refl id, ==-refl scope_type)

  pub IsAncestry-parent :
      {id : ℕ} {row : Row Branch} {chain : List Scope} (p : ℕ)
      → IsAncestry id row chain
      → row.columns.parent_id ≡ some p
      → contains chain (scope_type, p) ≡ true
  IsAncestry-parent p (top is) has = absurd (ground (arith, is, has))
  IsAncestry-parent {id} p (up {rest = rest} q parent is effective same above) has =
      let eq : q ≡ p = ground (arith, is, has) in
      ground (arith, subst (λ x. contains rest (scope_type, x) ≡ true) eq (IsAncestry-head above))

unit_chain-own :
    (t : Tables) (tenant_id today : ℕ) (kind : String) (id : ℕ) (row : Row Branch)
    → is_unit_kind kind ≡ true
    → unit_chain t tenant_id today kind id row
      ≡ parent_chain
          (suc (suc (length t.org_units)))
          t.org_units
          tenant_id
          today
          "org_unit"
          row.columns.company_id
          []
          id
          row
unfolding unit_chain append_parent_chain
unit_chain-own t tenant_id today kind id row unit = ground (arith, unit)

-- The lineage of a unit with a parent. With the kind of the unit, as `_require_effective_scope_lineage`
-- computes it, it holds the parent; with the value of the scope type, as `_validate_delegation_path` and
-- `_delegation` compute it, it does not.
pub scope_lineage-parent :
    (t : Tables) (tenant_id today id p : ℕ) (row : Row Branch) (kind : String)
    (own by_value : List Scope)
    → row.columns.parent_id ≡ some p
    → (p == id) ≡ false
    → is_unit_kind kind ≡ true
    → scope_lineage t tenant_id today (of_unit kind id row) ≡ ok own
    → scope_lineage t tenant_id today (of_unit "org_unit" id row) ≡ ok by_value
    → (contains own ("org_unit", p) ≡ true) × (contains by_value ("org_unit", p) ≡ false)
unfolding scope_lineage unit_chain append_parent_chain canonical_kind
scope_lineage-parent t tenant_id today id p row kind own by_value is other unit h k =
    let (above, is_above, h1) =
      >>=-ok (company_lineage t tenant_id today row.columns.company_id) _ own h in
    let (chain, is_chain, h2) = >>=-ok (unit_chain t tenant_id today kind id row) _ own h1 in
    let (above', is_above', k1) =
      >>=-ok (company_lineage t tenant_id today row.columns.company_id) _ by_value k in
    let ancestry =
      parent_chain-IsAncestry t.org_units tenant_id today "org_unit" row.columns.company_id
        (suc (suc (length t.org_units))) id [] row chain
        (sym (unit_chain-own t tenant_id today kind id row unit) ∙ is_chain) in
    let has =
      IsAncestry-parent t.org_units tenant_id today "org_unit" row.columns.company_id p ancestry
        is in
    let own_is : (canonical_kind kind, id) ∷ above ++ chain ≡ own = ground (arith, h2) in
    let by_value_is : ("org_unit", id) ∷ above' ++ [] ≡ by_value = ground (arith, k1) in
    (
      subst (λ l. contains l ("org_unit", p) ≡ true) own_is
          (ground (arith, has, contains-append above chain ("org_unit", p))),
      subst (λ l. contains l ("org_unit", p) ≡ false) by_value_is
          (ground (
            arith,
            other,
            nat_eq.eqb_iff id p,
            nat_eq.eqb_iff p id,
            contains-append above' [] ("org_unit", p),
            company_lineage-unit t tenant_id today row.columns.company_id above' p is_above',
          )),
    )
