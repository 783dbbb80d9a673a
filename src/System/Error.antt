-- ===== src/System/Error.antt =====
-- `ErrorCode`, `SystemError` and `Result` of `common/mnc/system/system.hpp`.
use Prim.Native.String.{String}
use mathlib.Core.Bool.{Bool, true, false}
use mathlib.Core.Path.{◌≡◌, refl, ap}
use mathlib.Core.Logic.{◌⊎◌, inl, inr}

pub data ErrorCode : Type 0 where
  none invalid_argument permission_denied unavailable unsupported : ErrorCode
  busy apply_failed timeout internal_error : ErrorCode

pub record SystemError : Type 0 where
  pub code : ErrorCode
  pub message : String

-- `std::expected<T, SystemError>`, and also a call that may throw an `Error`
pub data Result {ℓ} (A : Type ℓ) : Type ℓ where
  ok : A → Result A
  err : SystemError → Result A

module _ {ℓ κ} {A : Type ℓ} {B : Type κ} where
  infixl 5 ◌>>=◌
  abbrev pub ◌>>=◌ : Result A → (A → Result B) → Result B
  ok a >>= f = f a
  err e >>= f = err e

  infixl 5 ◌>>◌
  abbrev pub ◌>>◌ : Result A → Result B → Result B
  m >> k = m >>= λ _. k

-- `check` of validation.cpp: `throw Error({ErrorCode::invalid_argument, message})` unless the test holds
abbrev pub check : Bool → String → Result (Unit {0})
check true message = ok tt
check false message = err (record { code = ErrorCode.invalid_argument; message = message })

abbrev pub succeeds {ℓ} : {A : Type ℓ} → Result A → Bool
succeeds (ok a) = true
succeeds (err e) = false

-- `if (b) statement;`
abbrev pub when : Bool → Result (Unit {0}) → Result (Unit {0})
when true m = m
when false m = ok tt

abbrev value_or {ℓ} : {A : Type ℓ} → A → Result A → A
value_or a (ok b) = b
value_or a (err e) = a

pub ok-injective {ℓ} : {A : Type ℓ} {a b : A} → ok a ≡ ok b → a ≡ b
ok-injective {a = a} h = ap (value_or a) h

pub Result-cases {ℓ} :
    {A : Type ℓ} (r : Result A) → ((a : A) × (r ≡ ok a)) ⊎ ((e : SystemError) × (r ≡ err e))
Result-cases (ok a) = inl (a, refl)
Result-cases (err e) = inr (e, refl)
