-- ===== src/Tenants/Consistency.antt =====
-- What holds in the tables after any sequence of handlers, and how writes keep it.
use businessos.Prelude.{
  ℕ, true, false, none, some, List, [], ◌∷◌, ◌==◌, ==-eq, nat_eq, pair_eq, ◌≤◌, ◌≡◌, inl, inr, sym,
  ◌∙◌, subst, ap, arith, Bool-cases,
}
use businessos.Prelude.Dict.{Dict, get, put, put-get-some, get-put, IsDistinct}
use businessos.Tenants.Tables.{
  TenantStatus, requested, export, delete, completed, TenantRow, StatusHistoryRow, OperationRow,
  Tables,
}
use businessos.Tenants.Lifecycle.{is_transition}

-- The work of a tenant is no newer than the tenant.
abbrev pub AllBounded : Dict ℕ TenantRow → Dict (ℕ × ℕ) OperationRow → Type 0
AllBounded tenants operations =
    (tenant_id id : ℕ) (work : OperationRow)
    → get operations (tenant_id, id) ≡ some work
    → (row : TenantRow) × (get tenants tenant_id ≡ some row)
      × (work.lifecycle_version ≤ row.lifecycle_version)

-- A deletion depends on an export of the tenant that is completed.
pub record HasExport (operations : Dict (ℕ × ℕ) OperationRow) (tenant_id : ℕ) (work : OperationRow)
    : Type 0 where
  pub id : ℕ
  pub row : OperationRow
  pub depends : work.depends_on ≡ some id
  pub at : get operations (tenant_id, id) ≡ some row
  pub is_export : row.operation ≡ export
  pub is_done : row.state ≡ completed

abbrev pub AllExported : Dict (ℕ × ℕ) OperationRow → Type 0
AllExported operations =
    (tenant_id id : ℕ) (work : OperationRow)
    → get operations (tenant_id, id) ≡ some work
    → work.operation ≡ delete
    → HasExport operations tenant_id work

-- No row of the history is of the tenant.
abbrev pub IsNew : ℕ → List StatusHistoryRow → Type 0
IsNew tenant_id [] = Unit
IsNew tenant_id (row ∷ rest) = ((row.tenant_id == tenant_id) ≡ false) × IsNew tenant_id rest

-- The rows of the tenant are a path of allowed transitions from its provisioning to the status.
pub data Walk (tenant_id : ℕ) : TenantStatus → List StatusHistoryRow → Type 0 where
  began :
      {rest : List StatusHistoryRow}
      → IsNew tenant_id rest
      → Walk tenant_id requested
          (record { tenant_id = tenant_id; from_status = none; to_status = requested } ∷ rest)
  went :
      {rest : List StatusHistoryRow} (start target : TenantStatus)
      → is_transition start target ≡ true
      → Walk tenant_id start rest
      → Walk tenant_id target
          (record { tenant_id = tenant_id; from_status = some start; to_status = target } ∷ rest)
  skip :
      {rest : List StatusHistoryRow} {status : TenantStatus} (row : StatusHistoryRow)
      → (row.tenant_id == tenant_id) ≡ false
      → Walk tenant_id status rest
      → Walk tenant_id status (row ∷ rest)

abbrev pub AllWalked : Dict ℕ TenantRow → List StatusHistoryRow → Type 0
AllWalked tenants history =
    ((tenant_id : ℕ) (row : TenantRow)
      → get tenants tenant_id ≡ some row
      → Walk tenant_id row.status history)
    × ((tenant_id : ℕ) → get tenants tenant_id ≡ none → IsNew tenant_id history)

pub record IsConsistent (t : Tables) : Type 0 where
  pub distinct : IsDistinct t.operations
  pub bounded : AllBounded t.tenants t.operations
  pub exported : AllExported t.operations
  pub walked : AllWalked t.tenants t.status_history

-- Writing a tenant with a version that is not lower.
pub bounded_tenant :
    (tenants : Dict ℕ TenantRow) (operations : Dict (ℕ × ℕ) OperationRow) (tenant_id : ℕ)
    (row' : TenantRow)
    → ((row : TenantRow)
        → get tenants tenant_id ≡ some row
        → row.lifecycle_version ≤ row'.lifecycle_version)
    → AllBounded tenants operations
    → AllBounded (put tenants tenant_id row') operations
bounded_tenant tenants operations tenant_id row' up b j id work at =
    let (row, is, le) = b j id work at in
    elim (Bool-cases (tenant_id == j)) [
      | inl same ↦ (
        row',
        ground (arith, get-put tenants tenant_id j row', same),
        omega (
          arith,
          le,
          up row (subst (λ k. get tenants k ≡ some row) (sym (==-eq tenant_id j same)) is),
        ),
      )
      | inr other ↦ (row, ground (arith, get-put tenants tenant_id j row', other, is), le)
    ]

pub bounded_work :
    (tenants : Dict ℕ TenantRow) (operations : Dict (ℕ × ℕ) OperationRow) (tenant_id id : ℕ)
    (work : OperationRow) (row : TenantRow)
    → get tenants tenant_id ≡ some row
    → work.lifecycle_version ≤ row.lifecycle_version
    → AllBounded tenants operations
    → AllBounded tenants (put operations (tenant_id, id) work)
bounded_work tenants operations tenant_id id work row at le b j k w is =
    elim (put-get-some operations (tenant_id, id) (j, k) work is) [
      | inl (key, same) ↦ (
        row,
        subst (λ p. get tenants p.0 ≡ some row) key at,
        subst (λ x. x.lifecycle_version ≤ row.lifecycle_version) same le,
      )
      | inr (ne, old) ↦ b j k w old
    ]

pub HasExport-mono :
    (c d : Dict (ℕ × ℕ) OperationRow) (tenant_id : ℕ) (work : OperationRow)
    → ((k : ℕ) (row : OperationRow)
        → get c (tenant_id, k) ≡ some row
        → row.state ≡ completed
        → get d (tenant_id, k) ≡ some row)
    → HasExport c tenant_id work
    → HasExport d tenant_id work
HasExport-mono c d tenant_id work keep h = record {
  id = h.id;
  row = h.row;
  depends = h.depends;
  at = keep h.id h.row h.at h.is_done;
  is_export = h.is_export;
  is_done = h.is_done;
}

-- A completed row is kept by a write to a key without a completed row.
pub put_done :
    (operations : Dict (ℕ × ℕ) OperationRow) (key : ℕ × ℕ) (work : OperationRow)
    → ((old : OperationRow) → get operations key ≡ some old → old.state ≡ completed → ⊥)
    → (j : ℕ × ℕ) (row : OperationRow) → get operations j ≡ some row
    → row.state ≡ completed
    → get (put operations key work) j ≡ some row
put_done operations key work open_key j row at is_done = elim (Bool-cases (key == j)) [
  | inl same ↦
      absurd (
        open_key row (subst (λ k. get operations k ≡ some row) (sym (==-eq key j same)) at) is_done)
  | inr other ↦ ground (arith, get-put operations key j work, other, at)
]

pub exported_work :
    (operations : Dict (ℕ × ℕ) OperationRow) (tenant_id id : ℕ) (work : OperationRow)
    → ((old : OperationRow) → get operations (tenant_id, id) ≡ some old → old.state ≡ completed → ⊥)
    → (work.operation ≡ delete → HasExport operations tenant_id work)
    → AllExported operations
    → AllExported (put operations (tenant_id, id) work)
exported_work operations tenant_id id work open_key new e j k w is dels =
    HasExport-mono operations (put operations (tenant_id, id) work) j w
      (λ l. put_done operations (tenant_id, id) work open_key (j, l))
      (elim (put-get-some operations (tenant_id, id) (j, k) work is) [
        | inl (key, same) ↦
            subst (λ x. HasExport operations x w) (ap (λ p. p.0) key)
              (subst (HasExport operations tenant_id) same
                (new (ap (λ x. x.operation) same ∙ dels)))
        | inr (ne, old) ↦ e j k w old dels
      ])
