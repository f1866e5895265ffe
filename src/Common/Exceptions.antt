-- ===== src/Common/Exceptions.antt =====
-- Python's exceptions as values. The text is the message of the `raise` statement.
use Prim.Native.String.{String}
use mathlib.Core.Path.{◌≡◌, refl}
use mathlib.Core.Logic.{◌⊎◌, inl, inr}
use mathlib.Core.Bool.{Bool, false}
use aistock.Common.Tests.{if◌then◌else◌}
use native.Mathlib.Omega.{arith}

pub data Exception : Type 0 where
  value_error type_error key_error permission_error currency_mismatch : String → Exception
  budget_exceeded tool_policy_denied version_conflict lookup_error : String → Exception
  -- The exceptions of SQLAlchemy.
  no_result_found multiple_results_found integrity_error : Exception
  division_by_zero : Exception

pub data Result {ℓ} (A : Type ℓ) : Type ℓ where
  ok : A → Result A
  raise : Exception → Result A

-- A statement that may raise, and the statements after it.
infixl 5 ◌>>=◌ ◌>>◌
abbrev pub ◌>>=◌ {ℓ κ} : {A : Type ℓ} {B : Type κ} → Result A → (A → Result B) → Result B
raise error >>= rest = raise error
ok value >>= rest = rest value

abbrev pub ◌>>◌ {κ} : {B : Type κ} → Result (Unit {0}) → Result B → Result B
raise error >> rest = raise error
ok value >> rest = rest

-- `if test: raise e`
abbrev pub raise_if : Bool → Exception → Result (Unit {0})
raise_if test error = if test then raise error else ok tt

pub raise_if-eq-ok : (test : Bool) (error : Exception) → raise_if test error ≡ ok tt → test ≡ false
raise_if-eq-ok test error h = ground arith

-- When statements return, the first returned a value and the others returned from there.
pub >>=-eq-ok {κ ℓ} :
    {B : Type κ} {A : Type ℓ} (first : Result A) (rest : A → Result B) {value : B}
    → (first >>= rest) ≡ ok value
    → (a : A) × (first ≡ ok a) × (rest a ≡ ok value)
>>=-eq-ok (raise error) rest returned = cc
>>=-eq-ok (ok a) rest returned = (a, refl, returned)

pub >>-eq-ok {κ} :
    {B : Type κ} (first : Result (Unit {0})) (rest : Result B) {value : B}
    → (first >> rest) ≡ ok value
    → (first ≡ ok tt) × (rest ≡ ok value)
>>-eq-ok (raise error) rest returned = cc
>>-eq-ok (ok tt) rest returned = (refl, returned)

pub ok-injective {ℓ} : {A : Type ℓ} {a b : A} → ok a ≡ ok b → a ≡ b
ok-injective h = cc

pub Result-cases {ℓ} :
    {A : Type ℓ} (r : Result A) → ((a : A) × (r ≡ ok a)) ⊎ ((e : Exception) × (r ≡ raise e))
Result-cases (ok a) = inl (a, refl)
Result-cases (raise e) = inr (e, refl)

-- The value that a call returns, or another one.
abbrev pub or_else {ℓ} : {A : Type ℓ} → A → Result A → A
or_else d (ok a) = a
or_else d (raise e) = d
