-- ===== src/Modules/Upgrade/Planning.antt =====
-- What a plan of the upgrade coordinator guarantees.
use businessos.Prelude.{
  String, true, false, Option, none, some, List, [], ◌∷◌, string_eq, nat_eq, pair_eq, All, count,
  ◌≡◌, refl, ap, sym, ◌∙◌, subst, arith,
}
use businessos.Prelude.Dict.{Dict, get, keys, values}
use businessos.Prelude.Sorting.{sorted, str_leb}
use businessos.Errors.{Error, Result, ok, err}
use businessos.Modules.Packaging.{Packaging}
use businessos.Modules.Manifest.{ModuleManifest, supports, is_unique}
use businessos.Modules.Ordering.{ordered_manifests}
use businessos.Modules.Ordering.Order.{IsOrdered, ordered_manifests_order}
use businessos.Modules.Upgrade.{
  Runtime, UpgradePlan, by_module_id, entries_of, propose, check_targets, or_current,
  validate_manifest_upgrade, validate_resource_claims, is_subset, migrations_of, plan_of,
  admit_targets, plan,
}
use businessos.Modules.Upgrade.Claims.{all_claims, outcome, resource_claims_unique}

module _ (p : Packaging) (runtime : Runtime) (targets : Dict String ModuleManifest) where
  -- The manifest that a module has after the upgrade.
  abbrev pub target_of : ModuleManifest → ModuleManifest
  target_of current = or_current (get targets current.module_id) current

  pub record IsAdmitted (current : ModuleManifest) : Type 0 where
    pub not_downgraded : p.lt (target_of current).version current.version ≡ false
    pub supported :
        supports p runtime.platform_version runtime.sdk_version runtime.python_version
          (target_of current)
        ≡ true
    pub compatible : validate_manifest_upgrade p current (target_of current) ≡ ok tt

  pub check_targets-All :
      (entries : List ModuleManifest)
      → check_targets p runtime targets entries ≡ ok tt
      → All IsAdmitted entries
  unfolding check_targets
  check_targets-All [] h = tt
  check_targets-All (current ∷ rest) h =
      (ground (arith, h), check_targets-All rest (ground (arith, h)))

-- The registered manifests in the order of their identifiers, and what was proposed of them.
pub record IsPlanned (p : Packaging) (runtime : Runtime) (registered : Dict String ModuleManifest)
    (targets : List ModuleManifest) (result : UpgradePlan) : Type 0 where
  pub entries : List ModuleManifest
  pub registered_entries : entries_of registered (sorted str_leb (keys registered)) ≡ ok entries
  pub known : is_subset (keys (by_module_id targets [])) (keys registered) ≡ true
  pub admitted : All (IsAdmitted p runtime (by_module_id targets [])) entries
  pub claims : is_unique (all_claims (values (propose (by_module_id targets []) entries))) ≡ true
  pub ordered : IsOrdered (propose (by_module_id targets []) entries) [] result.ordered_module_ids
  pub complete :
      (id : String)
      → count id result.ordered_module_ids
        ≡ count id (keys (propose (by_module_id targets []) entries))
  pub migrations :
      result.migration_locations
      ≡ migrations_of (propose (by_module_id targets []) entries) result.ordered_module_ids

module _ (p : Packaging) (runtime : Runtime) (registered : Dict String ModuleManifest)
    (targets : List ModuleManifest) where
  abbrev target_map : Dict String ModuleManifest
  target_map = by_module_id targets []

  -- The steps of `admit_targets` that succeeded.
  record Admission (proposed : Dict String ModuleManifest) : Type 0 where
    entries : List ModuleManifest
    registered_entries : entries_of registered (sorted str_leb (keys registered)) ≡ ok entries
    known : is_subset (keys target_map) (keys registered) ≡ true
    checked : check_targets p runtime target_map entries ≡ ok tt
    claimed : validate_resource_claims (values (propose target_map entries)) ≡ ok tt
    is : proposed ≡ propose target_map entries

  admission :
      (proposed : Dict String ModuleManifest)
      → admit_targets p runtime registered targets ≡ ok proposed
      → Admission proposed
  unfolding admit_targets
  admission proposed h = go (entries_of registered (sorted str_leb (keys registered))) refl
    where
      go :
          (listed : Result (List ModuleManifest))
          → entries_of registered (sorted str_leb (keys registered)) ≡ listed
          → Admission proposed
      go (err e) l = absurd (ground (arith, h, l))
      go (ok entries) l = record {
        entries = entries;
        registered_entries = l;
        known = ground (arith, h, l);
        checked = ground (arith, h, l);
        claimed = ground (arith, h, l);
        is = ground (arith, h, l);
      }

  plan_cases :
      (result : UpgradePlan)
      → plan p runtime registered targets ≡ some (ok result)
      → (proposed : Dict String ModuleManifest) × (admit_targets p runtime registered targets
          ≡ ok proposed)
        × (plan_of proposed (ordered_manifests p proposed) ≡ some (ok result))
  unfolding plan
  plan_cases result h = go (admit_targets p runtime registered targets) refl
    where
      go :
          (r : Result (Dict String ModuleManifest))
          → admit_targets p runtime registered targets ≡ r
          → (proposed : Dict String ModuleManifest) × (admit_targets p runtime registered targets
              ≡ ok proposed)
            × (plan_of proposed (ordered_manifests p proposed) ≡ some (ok result))
      go (err e) is = absurd (ground (arith, h, is))
      go (ok proposed) is = (proposed, is, ground (arith, h, is))

  plan_of_cases :
      (proposed : Dict String ModuleManifest) (o : Option (Result (List String)))
      (result : UpgradePlan)
      → plan_of proposed o ≡ some (ok result)
      → (o ≡ some (ok result.ordered_module_ids))
        × (result.migration_locations ≡ migrations_of proposed result.ordered_module_ids)
  unfolding plan_of
  plan_of_cases proposed none result h = absurd (ground (arith, h))
  plan_of_cases proposed (some (err e)) result h = absurd (ground (arith, h))
  plan_of_cases proposed (some (ok ids)) result h = (ground (arith, h), ground (arith, h))

  -- A plan is made only for known modules; after it, every registered module has a version that is not
  -- lower, is supported by the runtime and passes the manifest checks; no two modules claim the same
  -- resource; the plan lists every module once, behind its dependencies, with its migrations.
  pub plan_sound :
      (result : UpgradePlan)
      → plan p runtime registered targets ≡ some (ok result)
      → IsPlanned p runtime registered targets result
  plan_sound result h =
      let (proposed, admitted, planned) = plan_cases result h in
      let a = admission proposed admitted in
      let (order, moves) = plan_of_cases proposed (ordered_manifests p proposed) result planned in
      let placed = ordered_manifests_order p proposed result.ordered_module_ids order in
      record {
        entries = a.entries;
        registered_entries = a.registered_entries;
        known = a.known;
        admitted = check_targets-All p runtime target_map a.entries a.checked;
        claims =
            unique_of_ok (all_claims (values (propose target_map a.entries)))
              (sym (resource_claims_unique (values (propose target_map a.entries))) ∙ a.claimed);
        ordered = subst (λ d. IsOrdered d [] result.ordered_module_ids) a.is placed.0;
        complete =
            λ id. placed.1 id ∙ ap (λ (d : Dict String ModuleManifest). count id (keys d)) a.is;
        migrations =
            moves
            ∙ ap (λ (d : Dict String ModuleManifest). migrations_of d result.ordered_module_ids)
                a.is;
      }
    where
      unique_of_ok :
          (claims : List (String × String))
          → outcome (is_unique claims) ≡ ok tt
          → is_unique claims ≡ true
      unique_of_ok claims e = ground (arith, e)

  plan_admitted :
      (proposed : Dict String ModuleManifest)
      → admit_targets p runtime registered targets ≡ ok proposed
      → plan p runtime registered targets ≡ plan_of proposed (ordered_manifests p proposed)
  unfolding plan
  plan_admitted proposed h = rw (h, plan)

  plan_refused :
      (e : Error)
      → admit_targets p runtime registered targets ≡ err e
      → plan p runtime registered targets ≡ some (err e)
  unfolding plan
  plan_refused e h = rw (h, plan)
