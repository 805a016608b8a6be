-- ===== src/Modules/Lifecycle/Dependencies.antt =====
-- The dependencies of the enabled modules.
use businessos.Prelude.{
  String, true, false, some, List, [], ◌∷◌, ◌==◌, string_eq, any, all, ◌≡◌, refl, subst, sym, ◌∙◌,
  arith, Option-cases, Bool-cases, inl, inr,
}
use businessos.Prelude.Dict.{get, put, put-get-some, get-put}
use businessos.Errors.{ok}
use businessos.Modules.Manifest.{ModuleDependency}
use businessos.Modules.Lifecycle.{
  RegisteredModule, Registry, Calls, is_state_enabled, can_activate, is_enabled_in,
  validate_active_dependencies, has_enabled_dependents, enable, disable, retire, finish_retire,
}
use businessos.Modules.Lifecycle.Soundness.{
  AllSound, IsClean, Change, same, wrote, enable-Change, enable_other, disable-Change,
  disable-AllSound, disable-IsClean, retire_cases, finish_retire-Change, refused, stopped, finished,
  both,
}

-- Every dependency of an enabled module is an enabled module.
abbrev pub AllFed : Registry → Type 0
AllFed r =
    (id : String) (m : RegisteredModule)
    → get r id ≡ some m
    → is_state_enabled m.state ≡ true
    → all (λ d. is_enabled_in r d.module_id) m.manifest.dependencies ≡ true

-- No enabled module depends on it.
abbrev pub IsFree : Registry → String → Type 0
IsFree r id =
    (j : String) (m : RegisteredModule)
    → get r j ≡ some m
    → is_state_enabled m.state ≡ true
    → any (λ d. d.module_id == id) m.manifest.dependencies ≡ false

validate_lem :
    (r : Registry) (ds : List ModuleDependency)
    → validate_active_dependencies r ds ≡ ok tt
    → all (λ d. is_enabled_in r d.module_id) ds ≡ true
unfolding validate_active_dependencies
validate_lem r [] h = refl
validate_lem r (d ∷ ds) h = elim (Option-cases (get r d.module_id)) [
  | inl absent ↦ ground (arith, h, absent)
  | inr (m, is) ↦ ground (arith, h, is, validate_lem r ds)
]

has_enabled_dependents_lem :
    (id : String) (r : Registry) → has_enabled_dependents id r ≡ false → IsFree r id
unfolding has_enabled_dependents get
has_enabled_dependents_lem id [] h j m is on = ground (arith, is)
has_enabled_dependents_lem id ((i, n) ∷ r) h j m is on = elim (Bool-cases (i == j)) [
  | inl at ↦ ground (arith, h, is, on, at)
  | inr off ↦ has_enabled_dependents_lem id r (ground (arith, h)) j m (ground (arith, is, off)) on
]

-- A written entry keeps the dependencies fed, if none of them is the entry, or it is enabled.
put_enabled_other :
    (r : Registry) (id : String) (x : RegisteredModule) (ds : List ModuleDependency)
    → all (λ d. is_enabled_in r d.module_id) ds ≡ true
    → any (λ d. d.module_id == id) ds ≡ false
    → all (λ d. is_enabled_in (put r id x) d.module_id) ds ≡ true
put_enabled_other r id x [] h o = refl
put_enabled_other r id x (d ∷ ds) h o = ground (
  arith,
  h,
  o,
  get-put r id d.module_id x,
  string_eq.eqb_iff id d.module_id,
  string_eq.eqb_iff d.module_id id,
  put_enabled_other r id x ds,
)

put_enabled_self :
    (r : Registry) (id : String) (x : RegisteredModule) (ds : List ModuleDependency)
    → all (λ d. is_enabled_in r d.module_id) ds ≡ true
    → is_state_enabled x.state ≡ true
    → all (λ d. is_enabled_in (put r id x) d.module_id) ds ≡ true
put_enabled_self r id x [] h on = refl
put_enabled_self r id x (d ∷ ds) h on =
    ground (arith, h, on, get-put r id d.module_id x, put_enabled_self r id x ds)

put-AllFed :
    (r : Registry) (id : String) (x : RegisteredModule)
    → AllFed r
    → IsFree r id
    → (is_state_enabled x.state ≡ true
        → validate_active_dependencies r x.manifest.dependencies ≡ ok tt)
    → AllFed (put r id x)
put-AllFed r id x fed free valid j m is on = elim (put-get-some r id j x is) [
  | inl (at, e) ↦ put_enabled_self_m e
  | inr (ne, old) ↦
      put_enabled_other r id x m.manifest.dependencies (fed j m old on) (free j m old on)
]
  where
    put_enabled_self_m :
        x ≡ m → all (λ d. is_enabled_in (put r id x) d.module_id) m.manifest.dependencies ≡ true
    put_enabled_self_m e =
        put_enabled_self r id x m.manifest.dependencies
          (subst (λ y. all (λ d. is_enabled_in r d.module_id) y.manifest.dependencies ≡ true) e
            (validate_lem r x.manifest.dependencies
              (valid (subst (λ y. is_state_enabled y.state ≡ true) (sym e) on))))
          (subst (λ y. is_state_enabled y.state ≡ true) (sym e) on)

pub Change-AllFed :
    (r r' : Registry) (id : String) → Change r id r' → AllFed r → IsFree r id → AllFed r'
Change-AllFed r r' id (same e) fed free = subst AllFed (sym e) fed
Change-AllFed r r' id (wrote m s v e) fed free = subst AllFed (sym e) (put-AllFed r id m fed free v)

some-inj : {x y : RegisteredModule} → some x ≡ some y → x ≡ y
some-inj e = ground (arith, e)

-- Only a module that is not enabled is activated, and so no enabled module depends on it.
idle-IsFree :
    (r : Registry) (id : String) (m : RegisteredModule)
    → AllFed r
    → get r id ≡ some m
    → is_state_enabled m.state ≡ false
    → IsFree r id
idle-IsFree r id m fed is off j n at on = go n.manifest.dependencies (fed j n at on)
  where
    absurd_eq :
        (ds : List ModuleDependency) (d : ModuleDependency)
        → (d.module_id == id) ≡ true
        → all (λ d. is_enabled_in r d.module_id) (d ∷ ds) ≡ true
        → any (λ d. d.module_id == id) (d ∷ ds) ≡ false
    absurd_eq ds d eq h = ground (arith, h, off, is, eq, string_eq.eqb_iff d.module_id id)

    go :
        (ds : List ModuleDependency)
        → all (λ d. is_enabled_in r d.module_id) ds ≡ true
        → any (λ d. d.module_id == id) ds ≡ false
    go [] h = refl
    go (d ∷ ds) h = elim (Bool-cases (d.module_id == id)) [
      | inl eq ↦ absurd_eq ds d eq h
      | inr ne ↦ ground (arith, ne, h, go ds)
    ]

module _ (r : Registry) (id : String) (calls : Calls) where
  pub enable-AllFed : AllSound r → AllFed r → AllFed (enable id calls r).1
  enable-AllFed h fed = elim (Option-cases (get r id)) [
    | inl absent ↦ subst AllFed {x = r} (unfold enable in ground (arith, absent)) fed
    | inr (m, is) ↦ elim (Bool-cases (can_activate m.state)) [
      | inl can ↦
          Change-AllFed r (enable id calls r).1 id (enable-Change r id calls h) fed
            (idle-IsFree r id m fed is (ground (arith, can)))
      | inr cannot ↦ subst AllFed (sym (enable_other r id calls m is cannot)) fed
    ]
  ]

  used_disable : has_enabled_dependents id r ≡ true → (disable true id calls r).1 ≡ r
  unfolding disable
  used_disable used = ground (arith, used)

  pub disable-AllFed : AllFed r → AllFed (disable true id calls r).1
  disable-AllFed fed = elim (Bool-cases (has_enabled_dependents id r)) [
    | inl used ↦ subst AllFed (sym (used_disable used)) fed
    | inr free ↦
        Change-AllFed r (disable true id calls r).1 id (disable-Change r id calls true) fed
          (has_enabled_dependents_lem id r free)
  ]

  used_retire : has_enabled_dependents id r ≡ true → (retire id calls r).1 ≡ r
  unfolding retire
  used_retire used = ground (arith, used)

  -- After a disable that succeeded, the module still has no enabled dependents.
  disable-IsFree :
      (m : RegisteredModule)
      → get r id ≡ some m
      → AllSound r
      → IsFree r id
      → (disable false id calls r).0 ≡ ok tt
      → IsFree (disable false id calls r).1 id
  disable-IsFree m is h free good j n at on = elim (disable-Change r id calls false) [
    | same e ↦ free j n (subst (λ x. get x j ≡ some n) e at) on
    | wrote x s v e ↦ elim (put-get-some r id j x (subst (λ x. get x j ≡ some n) e at)) [
      | inl (eq, _) ↦
          clean_off (subst (λ k. get (disable false id calls r).1 k ≡ some n) (sym eq) at)
      | inr (ne, old) ↦ free j n old on
    ]
  ]
    where
      clean_off :
          get (disable false id calls r).1 id ≡ some n
          → any (λ d. d.module_id == id) n.manifest.dependencies ≡ false
      clean_off at' = ground (
        arith,
        disable-IsClean r id calls m n h is good at',
        (disable-AllSound r id calls false h id n at').running on,
      )

  finish-AllFed :
      ((m : RegisteredModule) → get r id ≡ some m → IsClean m)
      → IsFree r id
      → AllFed r
      → AllFed (finish_retire id calls r).1
  finish-AllFed clean free fed = elim (Option-cases (get r id)) [
    | inl absent ↦ subst AllFed {x = r} (unfold finish_retire in ground (arith, absent)) fed
    | inr (m, is) ↦
        Change-AllFed r (finish_retire id calls r).1 id
          (finish_retire-Change r id calls m is (clean m is).0 (clean m is).1) fed free
  ]

module _ (r : Registry) (id : String) (calls : Calls) where
  abbrev after : Registry
  after = (disable false id calls r).1

  free-retire : AllSound r → AllFed r → IsFree r id → AllFed (retire id calls r).1
  free-retire h fed free = elim (Option-cases (get r id)) [
    | inl absent ↦ subst AllFed {x = r} (unfold retire in ground (arith, absent)) fed
    | inr (m, is) ↦ elim (retire_cases r id calls m is) [
      | refused e ↦ subst AllFed (sym e) fed
      | stopped e ↦
          subst AllFed (sym e) (Change-AllFed r after id (disable-Change r id calls false) fed free)
      | finished clean e ↦ subst AllFed (sym e) (
          finish-AllFed r id calls (λ m' is'. subst IsClean (some-inj (sym is ∙ is')) clean) free
            fed)
      | both good e ↦ subst AllFed (sym e) (
          finish-AllFed after id calls (λ m' is'. disable-IsClean r id calls m m' h is good is')
            (disable-IsFree r id calls m is h free good)
            (Change-AllFed r after id (disable-Change r id calls false) fed free))
    ]
  ]

  pub retire-AllFed : AllSound r → AllFed r → AllFed (retire id calls r).1
  retire-AllFed h fed = elim (Bool-cases (has_enabled_dependents id r)) [
    | inl used ↦ subst AllFed (sym (used_retire r id calls used)) fed
    | inr free ↦ free-retire h fed (has_enabled_dependents_lem id r free)
  ]
