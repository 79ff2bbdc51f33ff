-- ===== src/Core/Exceptions.antt =====
-- core/exceptions.py: the typed exceptions, each with its message, and their HTTP statuses.
use bank_fastapi.Prelude.{ℕ, String, ◌≡◌, refl, ◌⊎◌, inl, inr}

-- `value_error` and `system_error` are Python's own exceptions: a ValueError, and any other.
pub data Error : Type 0 where
  not_found unauthorized forbidden conflict validation_failed : String → Error
  insufficient_balance account_not_active flagged_transaction : String → Error
  value_error system_error bank_api_error : String → Error

-- The status that the registered handlers answer with; an error that is no BankAPIError is an
-- opaque 500, and `bank_api_error` is raised with the status 500 in its argument.
abbrev pub status_code : Error → ℕ
status_code (Error.not_found m) = 404
status_code (Error.unauthorized m) = 401
status_code (Error.forbidden m) = 403
status_code (Error.conflict m) = 409
status_code (Error.validation_failed m) = 400
status_code (Error.insufficient_balance m) = 400
status_code (Error.account_not_active m) = 400
status_code (Error.flagged_transaction m) = 400
status_code (Error.value_error m) = 500
status_code (Error.system_error m) = 500
status_code (Error.bank_api_error m) = 500

pub data Result {ℓ} (A : Type ℓ) : Type ℓ where
  ok : A → Result A
  err : Error → Result A

pub Result-cases {ℓ} :
    {A : Type ℓ} (r : Result A) → ((e : Error) × (r ≡ err e)) ⊎ ((a : A) × (r ≡ ok a))
Result-cases (ok a) = inr (a, refl)
Result-cases (err e) = inl (e, refl)
