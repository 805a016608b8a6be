-- ===== src/Modules/Lifecycle/Sequences.antt =====
-- `enable_all` and `disable_all` of `LifecycleManager`, over the identifiers that `ordered` returns.
-- `calls` gives the outcomes of the calls for each module, and `undo` those of the rollback.
use businessos.Prelude.{
  String, Bool, true, false, not, ◌&&◌, some, List, [], ◌∷◌, ◌++◌, ==-eq, string_eq, if◌then◌else◌,
  contains, contains-append, ◌≡◌, refl, sym, subst, ◌∙◌, arith, Option-cases, Bool-cases, inl, inr,
}
use businessos.Prelude.Dict.{get}
use businessos.Errors.{Error, Result, ok, err, base_exception}
use businessos.Modules.Lifecycle.{RegisteredModule, Registry, Calls, enable, disable, is_enabled_in}
use businessos.Modules.Lifecycle.Soundness.{
  AllSound, IsClean, disable-IsClean, disable-AllSound, disable-Change,
}
use businessos.Modules.Lifecycle.Final.{Change-Only}

abbrev is_err : Result (Unit {0}) → Bool
is_err (ok _) = false
is_err (err e) = true

abbrev reverse_of : List String → List String
reverse_of [] = []
reverse_of (id ∷ ids) = reverse_of ids ++ id ∷ []

-- The loops that disable: whether any of them raised.
unfoldable pub disable_each : (String → Calls) → List String → Registry → Bool × Registry
disable_each calls [] r = (false, r)
disable_each calls (id ∷ ids) r =
    let (result, r') = disable false id (calls id) r in
    let (failed, last) = disable_each calls ids r' in (if is_err result then true else failed, last)

unfoldable pub disable_all :
    (String → Calls) → List String → Registry → Result (Unit {0}) × Registry
unfolding disable_each
disable_all calls ordered r =
    let (failed, last) = disable_each calls (reverse_of ordered) r in
    (if failed then err (base_exception "BaseExceptionGroup") else ok tt, last)

-- The `except` block of `_enable_all`.
unfoldable pub undo_enabled :
    (String → Calls) → List String → Error → Registry → Result (Unit {0}) × Registry
unfolding disable_each
undo_enabled undo enabled e r =
    let (failed, last) = disable_each undo (reverse_of enabled) r in
    (if failed then err (base_exception "BaseExceptionGroup") else err e, last)

-- `_enable_all` after `enabled` were enabled.
unfoldable pub enable_each :
    (String → Calls)
    → (String → Calls)
    → List String
    → List String
    → Registry
    → Result (Unit {0}) × Registry
unfolding undo_enabled
enable_each calls undo enabled [] r = (ok tt, r)
enable_each calls undo enabled (id ∷ ids) r =
    let (result, r') = enable id (calls id) r in
    let added =
      if not (is_enabled_in r id) && is_enabled_in r' id then enabled ++ id ∷ [] else enabled in
    elim result [
      | err e ↦ undo_enabled undo enabled e r'
      | ok _ ↦ enable_each calls undo added ids r'
    ]

unfoldable pub enable_all :
    (String → Calls) → (String → Calls) → List String → Registry → Result (Unit {0}) × Registry
unfolding enable_each
enable_all calls undo ordered r = enable_each calls undo [] ordered r

module _ (calls : String → Calls) where
  each-Only :
      (ids : List String) (r : Registry) (j : String)
      → contains ids j ≡ false
      → get (disable_each calls ids r).1 j ≡ get r j
  unfolding disable_each
  each-Only [] r j out = refl
  each-Only (id ∷ ids) r j out =
      each-Only ids (disable false id (calls id) r).1 j (ground (arith, out))
      ∙ Change-Only r (disable false id (calls id) r).1 id (disable-Change r id (calls id) false) j
          (ground (arith, out))

  known :
      (r : Registry) (id : String)
      → (disable false id (calls id) r).0 ≡ ok tt
      → (m : RegisteredModule) × (get r id ≡ some m)
  known r id good = elim (Option-cases (get r id)) [
    | inl absent ↦ absurd (unfold disable in ground (arith, absent, good))
    | inr found ↦ found
  ]

  each_good :
      (id : String) (ids : List String) (r : Registry)
      → (disable_each calls (id ∷ ids) r).0 ≡ false
      → ((disable false id (calls id) r).0 ≡ ok tt)
        × ((disable_each calls ids (disable false id (calls id) r).1).0 ≡ false)
  unfolding disable_each
  each_good id ids r h = ground (arith, h)

  each_last :
      (id : String) (ids : List String) (r : Registry)
      → (disable_each calls (id ∷ ids) r).1
        ≡ (disable_each calls ids (disable false id (calls id) r).1).1
  unfolding disable_each
  each_last id ids r = refl

  each-IsClean :
      (ids : List String) (r : Registry)
      → AllSound r
      → (disable_each calls ids r).0 ≡ false
      → (j : String) (m : RegisteredModule) → contains ids j ≡ true
      → get (disable_each calls ids r).1 j ≡ some m
      → IsClean m
  each-IsClean [] r h good j m in_j at = absurd (ground (arith, in_j))
  each-IsClean (id ∷ ids) r h good j m in_j at =
      let r' = (disable false id (calls id) r).1 in
      let (now, later) = each_good id ids r good in
      let at' = subst (λ x. get x j ≡ some m) (each_last id ids r) at in
      elim (Bool-cases (contains ids j)) [
        | inl again ↦
            each-IsClean ids r' (disable-AllSound r id (calls id) false h) later j m again at'
        | inr once ↦
            (let (n, is) = known r id now in
              let same = ==-eq id j (ground (arith, in_j, once)) in
              disable-IsClean r id (calls id) n m h is now
                (subst (λ k. get r' k ≡ some m) (sym same) (sym (each-Only ids r' j once) ∙ at')))
      ]

  contains-reverse_of :
      (ids : List String) (j : String) → contains (reverse_of ids) j ≡ contains ids j
  contains-reverse_of [] j = refl
  contains-reverse_of (id ∷ ids) j =
      ground (arith, contains-reverse_of ids j, contains-append (reverse_of ids) (id ∷ []) j)

  -- If `disable_all` raises nothing, in a registry where the fields agree with the states, then no
  -- module of the order is started or registered afterwards.
  pub disable_all-IsClean :
      (ordered : List String) (r : Registry)
      → AllSound r
      → (disable_all calls ordered r).0 ≡ ok tt
      → (j : String) (m : RegisteredModule) → contains ordered j ≡ true
      → get (disable_all calls ordered r).1 j ≡ some m
      → IsClean m
  unfolding disable_all
  disable_all-IsClean ordered r h good j m in_j at =
      each-IsClean (reverse_of ordered) r h (ground (arith, good)) j m
        (contains-reverse_of ordered j ∙ in_j) at
