-- ===== src/Modules/Lifecycle/Soundness.antt =====
-- The fields of a registered module agree with its state.
use businessos.Prelude.{
  String, Bool, true, false, ◌||◌, Option, none, some, string_eq, ◌≡◌, refl, subst, sym, ◌∙◌, arith,
  Option-cases, Bool-cases, inl, inr, ◌⊎◌,
}
use businessos.Prelude.Dict.{get, put, put-get-some, get-put}
use businessos.Errors.{Error, Result, ok, err}
use businessos.Modules.Lifecycle.{
  enabled, failed, uninstalling, retired, RegisteredModule, Registry, Calls, is_state_enabled,
  can_activate, can_deactivate, can_retire, activate, fail_activation, enable, deactivate,
  accept_error, settle, disable, finish_retire, retire_registration, retire, prepare, launch,
  validate_active_dependencies, has_enabled_dependents,
}

-- An enabled module is started and registered; only an enabled or a failed one is started or
-- registered.
pub record IsSound (m : RegisteredModule) : Type 0 where
  pub running : is_state_enabled m.state ≡ true → (m.registration ≡ true) × (m.started ≡ true)
  pub registered : m.registration ≡ true → can_deactivate m.state ≡ true
  pub launched : m.started ≡ true → can_deactivate m.state ≡ true

abbrev pub AllSound : Registry → Type 0
AllSound r = (id : String) (m : RegisteredModule) → get r id ≡ some m → IsSound m

pub put-AllSound :
    (r : Registry) (id : String) (m : RegisteredModule)
    → AllSound r
    → IsSound m
    → AllSound (put r id m)
put-AllSound r id m h s j x is = elim (put-get-some r id j m is) [
  | inl (at, same) ↦ subst IsSound same s
  | inr (ne, old) ↦ h j x old
]

-- The registry is as it was, or one entry was written.
pub data Change (r : Registry) (id : String) (r' : Registry) : Type 0 where
  same : r' ≡ r → Change r id r'
  wrote :
      (m : RegisteredModule)
      → IsSound m
      → (is_state_enabled m.state ≡ true
          → validate_active_dependencies r m.manifest.dependencies ≡ ok tt)
      → r' ≡ put r id m
      → Change r id r'

pub Change-AllSound : (r r' : Registry) (id : String) → Change r id r' → AllSound r → AllSound r'
Change-AllSound r r' id (same e) h = subst AllSound (sym e) h
Change-AllSound r r' id (wrote m s v e) h = subst AllSound (sym e) (put-AllSound r id m h s)

abbrev pub IsClean : RegisteredModule → Type 0
IsClean m = (m.started ≡ false) × (m.registration ≡ false)

module _ (r : Registry) (id : String) (calls : Calls) where
  prepared :
      (m : RegisteredModule)
      → prepare r m calls ≡ ok tt
      → validate_active_dependencies r m.manifest.dependencies ≡ ok tt
  unfolding prepare
  prepared m h = ground (arith, h)

  pub activate-Change :
      (m : RegisteredModule)
      → can_activate m.state ≡ true
      → IsSound m
      → Change r id (activate id r m calls).1
  unfolding activate fail_activation
  activate-Change m c s = go calls.factory refl (prepare r m calls) refl (launch calls) refl
    where
      go :
          (f : Option Error)
          → calls.factory ≡ f
          → (p : Result (Unit {0})) → prepare r m calls ≡ p
          → (l : Result (Unit {0})) → launch calls ≡ l
          → Change r id (activate id r m calls).1
      go (some e) f p pe l le = same (ground (arith, f))
      go none f (err e) pe l le =
          wrote (fail_activation false m calls) (ground (arith, s, c)) (ground arith)
            (ground (arith, f, pe))
      go none f (ok _) pe (err e) le =
          wrote (fail_activation true m calls) (ground (arith, s, c)) (ground arith)
            (ground (arith, f, pe, le))
      go none f (ok _) pe (ok _) le =
          wrote (record m { state = enabled; error = false; registration = true; started = true })
            (ground arith) (λ _. prepared m pe) (ground (arith, f, pe, le))

  enable_active :
      (m : RegisteredModule)
      → get r id ≡ some m
      → can_activate m.state ≡ true
      → enable id calls r ≡ activate id r m calls
  unfolding enable
  enable_active m is can = ground (arith, is, can)

  pub enable_other :
      (m : RegisteredModule)
      → get r id ≡ some m
      → can_activate m.state ≡ false
      → (enable id calls r).1 ≡ r
  unfolding enable
  enable_other m is cannot = ground (arith, is, cannot)

  pub enable-Change : AllSound r → Change r id (enable id calls r).1
  enable-Change h = elim (Option-cases (get r id)) [
    | inl absent ↦ same (unfold enable in ground (arith, absent))
    | inr (m, is) ↦ elim (Bool-cases (can_activate m.state)) [
      | inl can ↦ rw (enable_active m is can) (activate-Change m can (h id m is))
      | inr cannot ↦ same (enable_other m is cannot)
    ]
  ]

  settle-IsSound : (m : RegisteredModule) → IsSound (settle m calls).1
  unfolding settle
  settle-IsSound m = ground arith

  settle_lowered :
      (m : RegisteredModule)
      → is_state_enabled (settle m calls).1.state ≡ true
      → validate_active_dependencies r (settle m calls).1.manifest.dependencies ≡ ok tt
  unfolding settle
  settle_lowered m h = ground (arith, h)

  pub deactivate-Change : (m : RegisteredModule) → Change r id (deactivate id r m calls).1
  unfolding deactivate
  deactivate-Change m = go (accept_error m calls) refl
    where
      go : (e : Option Error) → accept_error m calls ≡ e → Change r id (deactivate id r m calls).1
      go (some e) is =
          wrote (record m { state = failed; error = true }) (ground arith) (ground arith)
            (ground (arith, is))
      go none is =
          wrote (settle m calls).1 (settle-IsSound m) (settle_lowered m) (ground (arith, is))

  pub disable_cases :
      (check : Bool) (m : RegisteredModule)
      → get r id ≡ some m
      → ((disable check id calls r).1 ≡ r) ⊎ (disable check id calls r ≡ deactivate id r m calls)
  unfolding disable
  disable_cases check m is = ground (arith, is)

  pub disable-Change : (check : Bool) → Change r id (disable check id calls r).1
  disable-Change check = elim (Option-cases (get r id)) [
    | inl absent ↦ same (unfold disable in ground (arith, absent))
    | inr (m, is) ↦ elim (disable_cases check m is) [
      | inl kept ↦ same kept
      | inr ran ↦ rw ran (deactivate-Change m)
    ]
  ]

  Result-cases : (x : Result (Unit {0})) → (x ≡ ok tt) ⊎ ((b : Error) × (x ≡ err b))
  Result-cases (ok tt) = inl refl
  Result-cases (err b) = inr (b, refl)

  -- Only a module that is neither started nor registered comes to the end of `_retire`.
  pub finish_retire-Change :
      (m : RegisteredModule)
      → get r id ≡ some m
      → m.started ≡ false
      → m.registration ≡ false
      → Change r id (finish_retire id calls r).1
  unfolding finish_retire
  finish_retire-Change m is stopped unregistered = go (retire_registration calls) refl
    where
      go :
          (x : Result (Unit {0}))
          → retire_registration calls ≡ x
          → Change r id (finish_retire id calls r).1
      go x e = elim (Bool-cases (can_retire m.state)) [
        | inl can ↦ elim (Result-cases x) [
          | inl good ↦
              wrote (record m { state = retired; registration = false; error = false })
                (ground (arith, stopped)) (ground arith)
                (ground (arith, is, can, unregistered, e, good))
          | inr (b, bad) ↦
              wrote (record m { state = uninstalling; registration = false })
                (ground (arith, stopped)) (ground arith)
                (ground (arith, is, can, unregistered, e, bad))
        ]
        | inr cannot ↦ same (ground (arith, is, cannot))
      ]

  some-inj : {x y : RegisteredModule} → some x ≡ some y → x ≡ y
  some-inj e = ground (arith, e)

  pub disable_kept :
      (m : RegisteredModule)
      → IsSound m
      → get r id ≡ some m
      → (disable false id calls r).0 ≡ ok tt
      → ((disable false id calls r).1 ≡ r × IsClean m)
        ⊎ (disable false id calls r ≡ deactivate id r m calls)
  unfolding disable
  disable_kept m s is good = elim (Bool-cases (can_deactivate m.state)) [
    | inl can ↦ ground (arith, is, can, good)
    | inr cannot ↦ inl (
        (
          ground (arith, is, cannot),
          (ground (arith, s.launched, cannot), ground (arith, s.registered, cannot)),
        ))
  ]

  deactivate-IsClean :
      (m m' : RegisteredModule)
      → (deactivate id r m calls).0 ≡ ok tt
      → get (deactivate id r m calls).1 id ≡ some m'
      → IsClean m'
  unfolding deactivate settle
  deactivate-IsClean m m' good is =
      ground (arith, good, is, get-put r id id (settle m calls).1, string_eq.eqb_iff id id)

  pub disable-IsClean :
      (m m' : RegisteredModule)
      → AllSound r
      → get r id ≡ some m
      → (disable false id calls r).0 ≡ ok tt
      → get (disable false id calls r).1 id ≡ some m'
      → IsClean m'
  disable-IsClean m m' h is good at = elim (disable_kept m (h id m is) is good) [
    | inl (kept, clean) ↦
        subst IsClean (some-inj (sym is ∙ subst (λ x. get x id ≡ some m') kept at)) clean
    | inr ran ↦
        deactivate-IsClean m m' (subst (λ x. x.0 ≡ ok tt) ran good)
          (subst (λ x. get x.1 id ≡ some m') ran at)
  ]

  -- What `retire` runs.
  pub data Retires (m : RegisteredModule) : Type 0 where
    refused : (retire id calls r).1 ≡ r → Retires m
    stopped : (retire id calls r).1 ≡ (disable false id calls r).1 → Retires m
    finished : IsClean m → (retire id calls r).1 ≡ (finish_retire id calls r).1 → Retires m
    both :
        (disable false id calls r).0 ≡ ok tt
        → (retire id calls r).1 ≡ (finish_retire id calls (disable false id calls r).1).1
        → Retires m

  pub retire_cases : (m : RegisteredModule) → get r id ≡ some m → Retires m
  unfolding retire
  retire_cases m is = elim (Bool-cases (has_enabled_dependents id r)) [
    | inl used ↦ refused (ground (arith, is, used))
    | inr free ↦ elim (Bool-cases (is_state_enabled m.state || m.started || m.registration)) [
      | inr idle ↦ finished (ground (arith, idle)) (ground (arith, is, free, idle))
      | inl busy ↦ elim (Result-cases (disable false id calls r).0) [
        | inl good ↦ both good (ground (arith, is, free, busy, good))
        | inr (b, bad) ↦ stopped (ground (arith, is, free, busy, bad))
      ]
    ]
  ]

  pub disable-AllSound : (check : Bool) → AllSound r → AllSound (disable check id calls r).1
  disable-AllSound check h =
      Change-AllSound r (disable check id calls r).1 id (disable-Change check) h

module _ (r : Registry) (id : String) (calls : Calls) where
  finish-AllSound :
      AllSound r
      → ((m : RegisteredModule) → get r id ≡ some m → IsClean m)
      → AllSound (finish_retire id calls r).1
  finish-AllSound h clean = elim (Option-cases (get r id)) [
    | inl absent ↦ subst AllSound {x = r} (unfold finish_retire in ground (arith, absent)) h
    | inr (m, is) ↦
        Change-AllSound r (finish_retire id calls r).1 id
          (finish_retire-Change r id calls m is (clean m is).0 (clean m is).1) h
  ]

module _ (r : Registry) (id : String) (calls : Calls) where
  pub retire-AllSound : AllSound r → AllSound (retire id calls r).1
  retire-AllSound h = elim (Option-cases (get r id)) [
    | inl absent ↦ subst AllSound {x = r} (unfold retire in ground (arith, absent)) h
    | inr (m, is) ↦ elim (retire_cases r id calls m is) [
      | refused e ↦ subst AllSound (sym e) h
      | stopped e ↦ subst AllSound (sym e) (disable-AllSound r id calls false h)
      | finished clean e ↦ subst AllSound (sym e) (
          finish-AllSound r id calls h
            (λ m' is'. subst IsClean (some-inj r id calls (sym is ∙ is')) clean))
      | both good e ↦ subst AllSound (sym e) (
          finish-AllSound (disable false id calls r).1 id calls
            (disable-AllSound r id calls false h)
            (λ m' is'. disable-IsClean r id calls m m' h is good is'))
    ]
  ]
