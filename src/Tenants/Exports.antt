-- ===== src/Tenants/Exports.antt =====
-- What a transition finds and writes: the export before a deletion, and the history.
use businessos.Prelude.{
  ℕ, true, ◌&&◌, Option, none, some, List, [], ◌∷◌, ◌==◌, ==-eq, nat_eq, pair_eq, ◌+◌, ◌≡◌, inl,
  inr, refl, sym, ◌∙◌, subst, ap, arith, Bool-cases,
}
use businessos.Prelude.Dict.{Dict, get, put, put-get-some, put-get-none, IsDistinct}
use businessos.Errors.{Result, ok, err}
use businessos.Tenants.Tables.{
  TenantStatus, requested, Operation, export, delete, OperationState, pending, completed, TenantRow,
  StatusHistoryRow, OperationRow, Tables,
}
use businessos.Tenants.Lifecycle.{
  is_transition, export_at, is_completed, completed_id, is_export as is_export_row, prerequisite,
  set_status,
}
use businessos.Tenants.Consistency.{
  AllBounded, HasExport, IsNew, Walk, AllWalked, bounded_tenant, began, went, skip,
}

pub export_at-get :
    (tenant_id version id : ℕ) (row : OperationRow) (d : Dict (ℕ × ℕ) OperationRow)
    → IsDistinct d
    → export_at tenant_id version d ≡ some (id, row)
    → (get d (tenant_id, id) ≡ some row) × (row.operation ≡ export)
unfolding export_at get
export_at-get tenant_id version id row [] u h = absurd (ground (arith, h))
export_at-get tenant_id version id row (((t, i), r) ∷ d) u h =
    elim (Bool-cases
      ((t == tenant_id) && (r.lifecycle_version == version) && is_export_row r.operation)) [
        | inl hit ↦ (ground (arith, h, hit), ground (arith, h, hit))
        | inr miss ↦
            (let (at, is) =
                export_at-get tenant_id version id row d u.1 (ground (arith, h, miss)) in
              (
                elim (Bool-cases (pair_eq.eqb (t, i) (tenant_id, id))) [
                  | inl same ↦ absurd (
                      ground (
                        u.0,
                        at,
                        subst (λ k. get d k ≡ none) (==-eq (t, i) (tenant_id, id) same) u.0,
                        arith,
                      ))
                  | inr other ↦ ground (arith, other, at)
                ],
                is,
              ))
      ]

abbrev pub IsDoneExport : Result (Option ℕ) → Dict (ℕ × ℕ) OperationRow → ℕ → Type 0
IsDoneExport (err e) operations tenant_id = Unit
IsDoneExport (ok none) operations tenant_id = ⊥
IsDoneExport (ok (some id)) operations tenant_id =
    (row : OperationRow) × (get operations (tenant_id, id) ≡ some row)
    × (row.operation ≡ export)
    × (row.state ≡ completed)

pub prerequisite_done :
    (tenant_id : ℕ) (row : TenantRow) (t : Tables)
    → IsDistinct t.operations
    → IsDoneExport (prerequisite (some delete) tenant_id row t) t.operations tenant_id
unfolding prerequisite
prerequisite_done tenant_id row t u =
    go (export_at tenant_id row.lifecycle_version t.operations) refl
  where
    go :
        (f : Option (ℕ × OperationRow))
        → export_at tenant_id row.lifecycle_version t.operations ≡ f
        → IsDoneExport (completed_id f) t.operations tenant_id
    go none is = tt
    go (some (id, r)) is = elim (Bool-cases (is_completed r.state)) [
      | inl done ↦ rw done (
          let (at, exports) =
            export_at-get tenant_id row.lifecycle_version id r t.operations u is in
          (r, at, exports, ground (arith, done)))
      | inr open_work ↦ rw open_work tt
    ]

pub worked-HasExport :
    (tenant_id : ℕ) (row : TenantRow) (t : Tables) (operation : Operation) (dependency : Option ℕ)
    (version : ℕ)
    → IsDistinct t.operations
    → prerequisite (some operation) tenant_id row t ≡ ok dependency
    → operation ≡ delete
    → HasExport t.operations tenant_id (record {
      lifecycle_version = version;
      operation = operation;
      state = pending;
      depends_on = dependency;
    })
worked-HasExport tenant_id row t operation dependency version u h dels = go dependency (
    subst (λ f. IsDoneExport f t.operations tenant_id)
      (ap (λ o. prerequisite (some o) tenant_id row t) (sym dels) ∙ h)
      (prerequisite_done tenant_id row t u))
  where
    go :
        (d : Option ℕ)
        → IsDoneExport (ok d) t.operations tenant_id
        → HasExport t.operations tenant_id (record {
          lifecycle_version = version;
          operation = operation;
          state = pending;
          depends_on = d;
        })
    go none h = absurd h
    go (some id) (r, at, exports, done) = record {
      id = id;
      row = r;
      depends = refl;
      at = at;
      is_export = exports;
      is_done = done;
    }

-- A transition makes the walk of its tenant longer, and leaves the others.
pub walked_on :
    (tenants : Dict ℕ TenantRow) (history : List StatusHistoryRow) (tenant_id : ℕ) (row : TenantRow)
    (target : TenantStatus) (version : ℕ)
    → get tenants tenant_id ≡ some row
    → is_transition row.status target ≡ true
    → AllWalked tenants history
    → AllWalked
        (put tenants tenant_id (record row { status = target; lifecycle_version = version }))
        (record { tenant_id = tenant_id; from_status = some row.status; to_status = target }
          ∷ history)
walked_on tenants history tenant_id row target version at allowed (walks, news) = (on, fresh)
  where
    now : TenantRow
    now = record row { status = target; lifecycle_version = version }

    entry : StatusHistoryRow
    entry = record { tenant_id = tenant_id; from_status = some row.status; to_status = target }

    on :
        (j : ℕ) (r : TenantRow)
        → get (put tenants tenant_id now) j ≡ some r
        → Walk j r.status (entry ∷ history)
    on j r is = elim (put-get-some tenants tenant_id j now is) [
      | inl (key, same) ↦
          subst (λ x. Walk x r.status (entry ∷ history)) key
            (subst (λ x. Walk tenant_id x.status (entry ∷ history)) same
              (went row.status target allowed (walks tenant_id row at)))
      | inr (ne, old) ↦ skip entry ne (walks j r old)
    ]

    fresh : (j : ℕ) → get (put tenants tenant_id now) j ≡ none → IsNew j (entry ∷ history)
    fresh j is = let (ne, old) = put-get-none tenants tenant_id j now is in (ne, news j old)

pub walked_in :
    (tenants : Dict ℕ TenantRow) (history : List StatusHistoryRow) (tenant_id : ℕ) (row : TenantRow)
    → get tenants tenant_id ≡ none
    → row.status ≡ requested
    → AllWalked tenants history
    → AllWalked
        (put tenants tenant_id row)
        (record { tenant_id = tenant_id; from_status = none; to_status = requested } ∷ history)
walked_in tenants history tenant_id row at starts (walks, news) = (on, fresh)
  where
    entry : StatusHistoryRow
    entry = record { tenant_id = tenant_id; from_status = none; to_status = requested }

    on :
        (j : ℕ) (r : TenantRow)
        → get (put tenants tenant_id row) j ≡ some r
        → Walk j r.status (entry ∷ history)
    on j r is = elim (put-get-some tenants tenant_id j row is) [
      | inl (key, same) ↦
          subst (λ x. Walk x r.status (entry ∷ history)) key
            (subst (λ x. Walk tenant_id x (entry ∷ history)) (sym starts ∙ ap (λ x. x.status) same)
              (began (news tenant_id at)))
      | inr (ne, old) ↦ skip entry ne (walks j r old)
    ]

    fresh : (j : ℕ) → get (put tenants tenant_id row) j ≡ none → IsNew j (entry ∷ history)
    fresh j is = let (ne, old) = put-get-none tenants tenant_id j row is in (ne, news j old)

pub put_bounded :
    (t : Tables) (tenant_id : ℕ) (row : TenantRow) (target : TenantStatus)
    → get t.tenants tenant_id ≡ some row
    → AllBounded t.tenants t.operations
    → AllBounded (set_status tenant_id row target t).tenants t.operations
put_bounded t tenant_id row target at =
    bounded_tenant t.tenants t.operations tenant_id
      (record row { status = target; lifecycle_version = row.lifecycle_version + 1 })
      (λ r is. ground (arith, at, is))

pub ended_export :
    (operations : Dict (ℕ × ℕ) OperationRow) (tenant_id : ℕ) (work : OperationRow)
    (state : OperationState)
    → HasExport operations tenant_id work
    → HasExport operations tenant_id (record work { state = state })
ended_export operations tenant_id work state h = record {
  id = h.id;
  row = h.row;
  depends = h.depends;
  at = h.at;
  is_export = h.is_export;
  is_done = h.is_done;
}
