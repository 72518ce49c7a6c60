-- ===== src/Hata.antt =====
-- Typed errors: core/turkish_code/hata. `detail` and `context` of an AppError are text for logs
-- that no code branches on; they are not modelled.
use turkish_code.Base.{String, Bool, false, List, [], ◌∷◌, Option, none, some}

-- `ErrorKind` of core/turkish_code/hata/kinds.py
pub data ErrorKind : Type 0 where
  validation permission not_found conflict provider egress resource budget : ErrorKind
  timeout cancelled corruption internal security : ErrorKind

-- `AppError` of core/turkish_code/hata/app_error.py. `Cause` is its optional field `cause`.
mutual
  pub data AppError : Type 0 where
    app_error : (kind : ErrorKind) (code : String) (retryable : Bool) (cause : Cause) → AppError

  pub data Cause : Type 0 where
    no_cause : Cause
    caused_by : AppError → Cause

abbrev pub code_of : AppError → String
code_of (app_error kind code retryable cause) = code

abbrev pub kind_of : AppError → ErrorKind
kind_of (app_error kind code retryable cause) = kind

abbrev pub retryable_of : AppError → Bool
retryable_of (app_error kind code retryable cause) = retryable

abbrev pub cause_of : Option AppError → Cause
cause_of none = no_cause
cause_of (some e) = caused_by e

-- `causes`: the loop walks the chain of causes.
unfoldable mutual
  causes : AppError → List AppError
  causes (app_error kind code retryable cause) = chain cause

  chain : Cause → List AppError
  chain no_cause = []
  chain (caused_by e) = e ∷ causes e

-- What the modelled code raises: an AppError, a ValueError of a value object, a KeyError,
-- an AttributeError, a TypeError or an OverflowError.
pub data Raised : Type 0 where
  app : AppError → Raised
  value_error key_error attribute_error type_error overflow_error : Raised

-- What a call comes back with.
pub data Result {ℓ} (A : Type ℓ) : Type ℓ where
  ok : A → Result A
  err : Raised → Result A

infixl 5 ◌>>=◌
abbrev pub ◌>>=◌ {ℓ κ} : {A : Type ℓ} {B : Type κ} → Result A → (A → Result B) → Result B
ok a >>= f = f a
err e >>= f = err e

-- The `_err` builders of the modules: no retry, no cause.
abbrev pub raise_app {ℓ} : {A : Type ℓ} → ErrorKind → String → Result A
raise_app kind code = err (app (app_error kind code false no_cause))

abbrev pub Done : Type 0
Done = Result (Unit {0})
