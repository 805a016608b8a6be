-- ===== src/Errors.antt =====
-- platform/src/businessos/errors.py, and the exceptions of the language that the code raises.
-- Messages are not modelled.
use businessos.Prelude.{
  ℕ, Bool, true, false, Option, none, some, String, List, ltb, ◌≡◌, refl, ◌⊎◌, inl, inr, arith,
}

pub data Error : Type 0 where
  business_error : (code : String) (status_code : ℕ) → Error
  client_disconnected_error : Error
  configuration_error : Error
  protected_database_capacity_error : Error
  not_found_error : Error
  method_not_allowed_error : (allowed_methods : List String) → Error
  conflict_error : Error
  delivery_unavailable_error : Error
  value_error : Error
  runtime_error : Error
  permission_error : Error
  timeout_error : Error
  key_error : Error
  -- An exception of other code, by the name of its type.
  base_exception : (type_name : String) → Error

-- A function that may raise.
pub data Result {ℓ} (A : Type ℓ) : Type ℓ where
  ok : A → Result A
  err : Error → Result A

infixl 10 ◌>>=◌ ◌>>◌
abbrev pub ◌>>=◌ {ℓ κ} : {A : Type ℓ} {B : Type κ} → Result A → (A → Result B) → Result B
ok x >>= next = next x
err e >>= next = err e

abbrev pub ◌>>◌ {ℓ} : {B : Type ℓ} → Result (Unit {0}) → Result B → Result B
first >> second = first >>= λ _. second

-- if not test: raise e
abbrev pub require : Bool → Error → Result (Unit {0})
require true e = ok tt
require test e = err e

-- The HTTP status of an error that the framework serializes; the others are no BusinessOSError.
unfoldable pub status_code : Error → Option ℕ
status_code (business_error code status) = some status
status_code client_disconnected_error = some 499
status_code configuration_error = some 500
status_code protected_database_capacity_error = some 503
status_code not_found_error = some 404
status_code (method_not_allowed_error allowed) = some 405
status_code conflict_error = some 409
status_code _ = none

-- `public`: by default, of a status below 500.
unfoldable pub is_public : Error → Option Bool
unfolding status_code
is_public protected_database_capacity_error = some true
is_public e = elim (status_code e) [ none ↦ none | some status ↦ some (ltb status 500) ]

-- A chain that succeeds has a first step that succeeds.
pub >>=-ok {ℓ κ} :
    {A : Type ℓ} {B : Type κ} (m : Result A) (next : A → Result B) (b : B)
    → m >>= next ≡ ok b
    → (a : A) × (m ≡ ok a) × (next a ≡ ok b)
>>=-ok (ok a) next b h = (a, refl, h)
>>=-ok (err e) next b h = absurd (ground (arith, h))

pub require-ok : (test : Bool) (e : Error) → require test e ≡ ok tt → test ≡ true
require-ok true e h = refl
require-ok false e h = absurd (ground (arith, h))

pub Result-cases {ℓ} :
    {A : Type ℓ} (r : Result A) → ((a : A) × (r ≡ ok a)) ⊎ ((e : Error) × (r ≡ err e))
Result-cases (ok a) = inl (a, refl)
Result-cases (err e) = inr (e, refl)

-- A chain that succeeds passes its test.
pub require_then {ℓ} :
    {B : Type ℓ} (test : Bool) (e : Error) (next : Result B) (b : B)
    → require test e >> next ≡ ok b
    → (test ≡ true) × (next ≡ ok b)
require_then true e next b h = (refl, h)
require_then false e next b h = absurd (ground (arith, h))
