-- ===== src/Modules/Lifecycle/Final.antt =====
-- The states that no operation leaves.
use businessos.Prelude.{
  String, Bool, true, false, none, some, ◌==◌, string_eq, ◌≡◌, refl, subst, sym, ◌||◌, ◌∙◌, ap,
  arith, Option-cases, Bool-cases, inl, inr,
}
use businessos.Prelude.Dict.{get, put, get-put}
use businessos.Errors.{Error, ok, err, configuration_error}
use businessos.Modules.Lifecycle.{
  ModuleState, uninstalling, retired, RegisteredModule, Registry, Calls, can_retire, enable,
  disable, retire, finish_retire, retire_registration, has_enabled_dependents, is_state_enabled,
  deactivate, settle,
}
use businessos.Modules.Lifecycle.Soundness.{
  IsSound, IsClean, disable_kept, Change, same, wrote, enable-Change, disable-Change, refused,
  stopped, finished, both, retire_cases,
}
use businessos.Modules.Lifecycle.Histories.{
  Step, enables, disables, retires, Reach, here, next, IsWell, Step-IsWell, Reach-IsWell,
}

abbrev pub is_final : ModuleState → Bool
is_final uninstalling = true
is_final retired = true
is_final _ = false

-- The entries other than `id` are as they were.
abbrev pub Only : Registry → String → Registry → Type 0
Only r id r' = (j : String) → (id == j) ≡ false → get r' j ≡ get r j

pub Change-Only : (r r' : Registry) (id : String) → Change r id r' → Only r id r'
Change-Only r r' id (same e) j ne = ap (λ x. get x j) e
Change-Only r r' id (wrote m s v e) j ne =
    ap (λ x. get x j) e ∙ ground (arith, ne, get-put r id j m)

module _ (r : Registry) (id : String) (calls : Calls) where
  finish-Only : Only r id (finish_retire id calls r).1
  unfolding finish_retire
  finish-Only j ne = elim (Option-cases (get r id)) [
    | inl absent ↦ ground (arith, absent)
    | inr (m, is) ↦ ground (
      arith,
      ne,
      is,
      get-put r id j (record m { state = uninstalling; registration = false }),
      get-put r id j (record m { state = retired; registration = false; error = false }),
    )
  ]

module _ (r : Registry) (id : String) (calls : Calls) where
  absent_retire : get r id ≡ none → (retire id calls r).1 ≡ r
  unfolding retire
  absent_retire absent = ground (arith, absent)

  retire-Only : Only r id (retire id calls r).1
  retire-Only j ne = elim (Option-cases (get r id)) [
    | inl absent ↦ ap (λ x. get x j) (absent_retire absent)
    | inr (m, is) ↦ elim (retire_cases r id calls m is) [
      | refused e ↦ ap (λ x. get x j) e
      | stopped e ↦ ap (λ x. get x j) e ∙ disable-Only j ne
      | finished clean e ↦ ap (λ x. get x j) e ∙ finish-Only r id calls j ne
      | both good e ↦
          ap (λ x. get x j) e
          ∙ finish-Only (disable false id calls r).1 id calls j ne
          ∙ disable-Only j ne
    ]
  ]
    where
      disable-Only : Only r id (disable false id calls r).1
      disable-Only = Change-Only r (disable false id calls r).1 id (disable-Change r id calls false)

  -- What the operations do to an entry in a final state.
  module _ (m : RegisteredModule) (is : get r id ≡ some m) (final : is_final m.state ≡ true) where
    final-enable : (enable id calls r).1 ≡ r
    unfolding enable
    final-enable = ground (arith, is, final)

    final-disable : (check : Bool) → disable check id calls r ≡ (ok tt, r)
    unfolding disable
    final-disable check = ground (arith, is, final)

    final-finish : (finish_retire id calls r).1 ≡ r
    unfolding finish_retire
    final-finish = ground (arith, is, final)

    final-retire : (retire id calls r).1 ≡ r
    unfolding retire
    final-retire = ground (arith, is, final-finish, final-disable false)

    uninstalling-retire : m.state ≡ uninstalling → (retire id calls r).0 ≡ err configuration_error
    unfolding retire finish_retire
    uninstalling-retire at = ground (arith, is, at, final-disable false)

at_key :
    (i id : String) (m : RegisteredModule) (f : String → Registry)
    → (i == id) ≡ true
    → get (f id) id ≡ some m
    → get (f i) id ≡ some m
at_key i id m f at h = subst (λ k. get (f k) id ≡ some m) same_key h
  where
    same_key : id ≡ i
    same_key = ground (arith, at, string_eq.eqb_iff i id)

Step-final :
    {r s : Registry} (id : String) (m : RegisteredModule)
    → Step r s
    → IsWell r
    → get r id ≡ some m
    → is_final m.state ≡ true
    → get s id ≡ some m
Step-final {r} id m (enables i calls) w is final = elim (Bool-cases (i == id)) [
  | inl at ↦
      at_key i id m (λ k. (enable k calls r).1) at
        (ap (λ x. get x id) (final-enable r id calls m is final) ∙ is)
  | inr ne ↦ Change-Only r (enable i calls r).1 i (enable-Change r i calls w.sound) id ne ∙ is
]
Step-final {r} id m (disables i calls) w is final = elim (Bool-cases (i == id)) [
  | inl at ↦
      at_key i id m (λ k. (disable true k calls r).1) at
        (ap (λ x. get x id) (ap (λ x. x.1) (final-disable r id calls m is final true)) ∙ is)
  | inr ne ↦ Change-Only r (disable true i calls r).1 i (disable-Change r i calls true) id ne ∙ is
]
Step-final {r} id m (retires i calls) w is final = elim (Bool-cases (i == id)) [
  | inl at ↦
      at_key i id m (λ k. (retire k calls r).1) at
        (ap (λ x. get x id) (final-retire r id calls m is final) ∙ is)
  | inr ne ↦ retire-Only r i calls id ne ∙ is
]

-- A retired or uninstalling module keeps its state and its fields through every sequence of
-- enable, disable and retire of any modules, from a registry in which the fields agree with the
-- states.
pub final_forever :
    {r s : Registry} (id : String) (m : RegisteredModule)
    → Reach r s
    → IsWell r
    → get r id ≡ some m
    → is_final m.state ≡ true
    → get s id ≡ some m
final_forever id m here w is final = is
final_forever id m (next h step) w is final =
    Step-final id m step (Reach-IsWell h w) (final_forever id m h w is final) final

abbrev pub unfinished : RegisteredModule → RegisteredModule
unfinished m = record m { state = uninstalling; registration = false }

module _ (r : Registry) (id : String) (calls : Calls) (m : RegisteredModule) where
  finish_failed :
      (e : Error)
      → get r id ≡ some m
      → can_retire m.state ≡ true
      → IsClean m
      → retire_registration calls ≡ err e
      → finish_retire id calls r ≡ (err e, put r id (unfinished m))
  unfolding finish_retire
  finish_failed e is can clean bad = ground (arith, is, can, clean.1, bad)

  uninstalling-enable : get r id ≡ some m → m.state ≡ uninstalling → enable id calls r ≡ (ok tt, r)
  unfolding enable
  uninstalling-enable is at = ground (arith, is, at)

  idle_disable :
      get r id ≡ some m
      → IsSound m
      → is_state_enabled m.state || m.started || m.registration ≡ false
      → (disable false id calls r).1 ≡ r
  unfolding disable
  idle_disable is s idle = ground (arith, is, idle)

  retire_runs :
      get r id ≡ some m
      → IsSound m
      → has_enabled_dependents id r ≡ false
      → (disable false id calls r).0 ≡ ok tt
      → retire id calls r ≡ finish_retire id calls (disable false id calls r).1
  unfolding retire
  retire_runs is s free good =
      elim (Bool-cases (is_state_enabled m.state || m.started || m.registration)) [
        | inl busy ↦ ground (arith, is, free, busy, good)
        | inr idle ↦
            ground (arith, is, free, idle)
            ∙ ap (λ x. finish_retire id calls x) (sym (idle_disable is s idle))
      ]

  -- What disabling leaves of a module that can be enabled or retired.
  abbrev Ready : Registry → Type 0
  Ready r' =
      (m' : RegisteredModule) × (get r' id ≡ some m') × IsClean m' × (can_retire m'.state ≡ true)

  deactivate-Ready : (deactivate id r m calls).0 ≡ ok tt → Ready (deactivate id r m calls).1
  unfolding deactivate settle
  deactivate-Ready good = (
    (settle m calls).1,
    ground (arith, good, get-put r id id (settle m calls).1, string_eq.eqb_iff id id),
    (ground (arith, good), ground (arith, good)),
    ground (arith, good),
  )

  disable-Ready :
      get r id ≡ some m
      → IsSound m
      → is_state_enabled m.state || can_retire m.state ≡ true
      → (disable false id calls r).0 ≡ ok tt
      → Ready (disable false id calls r).1
  disable-Ready is s can good = elim (disable_kept r id calls m s is good) [
    | inl (kept, clean) ↦
        (m, ap (λ x. get x id) kept ∙ is, clean, ground (arith, can, clean.1, s.running))
    | inr ran ↦ rw ran (deactivate-Ready (subst (λ x. x.0 ≡ ok tt) ran good))
  ]

put_same : (r : Registry) (id : String) (x : RegisteredModule) → get (put r id x) id ≡ some x
put_same r id x = ground (arith, get-put r id id x, string_eq.eqb_iff id id)

-- A retire of an enabled module, or of one in a state that can be retired, without enabled
-- dependents, whose disabling succeeds and whose owner cannot be retired, raises that error and
-- leaves the module uninstalling; from then on, through every sequence of enable, disable and retire
-- of any modules, it stays uninstalling, each further retire of it raises ConfigurationError, and
-- enabling it does nothing.
pub failed_retire_stuck :
    {r s : Registry} (id : String) (calls : Calls) (e : Error) (m : RegisteredModule)
    → IsWell r
    → get r id ≡ some m
    → is_state_enabled m.state || can_retire m.state ≡ true
    → has_enabled_dependents id r ≡ false
    → (disable false id calls r).0 ≡ ok tt
    → retire_registration calls ≡ err e
    → Reach (retire id calls r).1 s
    → (m' : RegisteredModule) × ((retire id calls r).0 ≡ err e)
      × (get s id ≡ some m')
      × (m'.state ≡ uninstalling)
      × ((again : Calls) → (retire id again s).0 ≡ err configuration_error)
      × ((again : Calls) → enable id again s ≡ (ok tt, s))
failed_retire_stuck {r} {s} id calls e m w is can free good bad h =
    let (m', at, clean, able) = disable-Ready r id calls m is (w.sound id m is) can good in
    let failed =
      retire_runs r id calls m is (w.sound id m is) free good
      ∙ finish_failed (disable false id calls r).1 id calls m' e at able clean bad in
    let kept =
      final_forever id (unfinished m') h (Step-IsWell (retires id calls) w)
        (ap (λ x. get x.1 id) failed ∙ put_same (disable false id calls r).1 id (unfinished m'))
        refl in
    (
      unfinished m',
      ap (λ x. x.0) failed,
      kept,
      refl,
      (λ again. uninstalling-retire s id again (unfinished m') kept refl refl),
      (λ again. uninstalling-enable s id again (unfinished m') kept refl),
    )
