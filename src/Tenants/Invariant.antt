-- ===== src/Tenants/Invariant.antt =====
-- Every handler keeps the tables consistent.
use businessos.Prelude.{ℕ, String, Option, some, nat_eq, pair_eq, ◌+◌, ◌≡◌, refl, sym, subst, arith}
use businessos.Prelude.Dict.{get, put, get-put, IsDistinct, put-IsDistinct}
use businessos.Tenants.Tables.{
  TenantStatus, requested, Operation, pending, TenantRow, OperationRow, Tables,
}
use businessos.Tenants.Lifecycle.{set_status}
use businessos.Tenants.Steps.{
  Change, kept, added, moved, worked, ended, Reach, here, next, Step-Change,
}
use businessos.Tenants.Consistency.{
  AllBounded, AllExported, AllWalked, IsConsistent, bounded_tenant, bounded_work, exported_work,
}
use businessos.Tenants.Exports.{worked-HasExport, walked_on, walked_in, put_bounded, ended_export}

abbrev first_row : String → TenantRow
first_row slug = record { slug = slug; status = requested; lifecycle_version = 0 }

abbrev moved_row : TenantRow → TenantStatus → TenantRow
moved_row row target = record row { status = target; lifecycle_version = row.lifecycle_version + 1 }

put_at :
    (t : Tables) (tenant_id : ℕ) (row : TenantRow) (target : TenantStatus)
    → get (set_status tenant_id row target t).tenants tenant_id ≡ some (moved_row row target)
put_at t tenant_id row target =
    ground (arith, get-put t.tenants tenant_id tenant_id (moved_row row target))

abbrev pending_work : TenantRow → Operation → Option ℕ → OperationRow
pending_work row operation dependency = record {
  lifecycle_version = row.lifecycle_version + 1;
  operation = operation;
  state = pending;
  depends_on = dependency;
}

Change-IsConsistent : (t t' : Tables) → Change t t' → IsConsistent t → IsConsistent t'
Change-IsConsistent t t' (kept same_tenants same_history same_operations) c = record {
  distinct = subst IsDistinct (sym same_operations) c.distinct;
  bounded =
      subst (λ x. AllBounded x t'.operations) (sym same_tenants)
        (subst (AllBounded t.tenants) (sym same_operations) c.bounded);
  exported = subst AllExported (sym same_operations) c.exported;
  walked =
      subst (λ x. AllWalked x t'.status_history) (sym same_tenants)
        (subst (AllWalked t.tenants) (sym same_history) c.walked);
}
Change-IsConsistent t t' (added tenant_id slug new same_tenants same_history same_operations) c =
    record {
      distinct = subst IsDistinct (sym same_operations) c.distinct;
      bounded =
          subst (λ x. AllBounded x t'.operations) (sym same_tenants)
            (subst (AllBounded (put t.tenants tenant_id (first_row slug))) (sym same_operations) (
              bounded_tenant t.tenants t.operations tenant_id (first_row slug)
                (λ r is. absurd (ground (arith, is, new))) c.bounded));
      exported = subst AllExported (sym same_operations) c.exported;
      walked =
          subst (λ x. AllWalked x t'.status_history) (sym same_tenants)
            (subst (AllWalked (put t.tenants tenant_id (first_row slug))) (sym same_history)
              (walked_in t.tenants t.status_history tenant_id (first_row slug) new refl c.walked));
    }
Change-IsConsistent t t' (moved tenant_id row target at allowed same) c =
    subst IsConsistent (sym same) (record {
      distinct = c.distinct;
      bounded = put_bounded t tenant_id row target at c.bounded;
      exported = c.exported;
      walked =
          walked_on t.tenants t.status_history tenant_id row target (row.lifecycle_version + 1) at
            allowed c.walked;
    })
Change-IsConsistent t t'
      (worked tenant_id id row target operation dependency at allowed new required same) c =
    subst IsConsistent (sym same) (record {
      distinct =
          put-IsDistinct t.operations (tenant_id, id) (pending_work row operation dependency)
            c.distinct;
      bounded =
          bounded_work (set_status tenant_id row target t).tenants t.operations tenant_id id
            (pending_work row operation dependency) (moved_row row target)
            (put_at t tenant_id row target) (omega arith)
            (put_bounded t tenant_id row target at c.bounded);
      exported =
          exported_work t.operations tenant_id id (pending_work row operation dependency)
            (λ old is done. ground (arith, new, is))
            (worked-HasExport tenant_id row t operation dependency (row.lifecycle_version + 1)
              c.distinct required)
            c.exported;
      walked =
          walked_on t.tenants t.status_history tenant_id row target (row.lifecycle_version + 1) at
            allowed c.walked;
    })
Change-IsConsistent t t' (ended tenant_id id work state at is_open same) c =
    subst IsConsistent (sym same) (record {
      distinct =
          put-IsDistinct t.operations (tenant_id, id) (record work { state = state }) c.distinct;
      bounded =
          (let (row, is, le) = c.bounded tenant_id id work at in
            bounded_work t.tenants t.operations tenant_id id (record work { state = state }) row is
              le c.bounded);
      exported =
          exported_work t.operations tenant_id id (record work { state = state })
            (λ old is done. ground (arith, at, is, is_open, done))
            (λ dels.
              ended_export t.operations tenant_id work state (c.exported tenant_id id work at dels))
            c.exported;
      walked = c.walked;
    })

-- From tables that are consistent, in particular from empty ones, every sequence of handlers leads to
-- consistent tables: the operations of a tenant are no newer than the tenant; each deletion depends
-- on a completed export of its tenant; and the status history of each tenant is a path of allowed
-- transitions from its provisioning to its status.
pub Reach-IsConsistent : {t t' : Tables} → Reach t t' → IsConsistent t → IsConsistent t'
Reach-IsConsistent here c = c
Reach-IsConsistent (next {s} {u} h step) c =
    Change-IsConsistent s u (Step-Change s u step) (Reach-IsConsistent h c)
