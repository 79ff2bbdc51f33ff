-- ===== src/Auth/Access.antt =====
-- auth/dependencies.py: who a request is from, and the guards by role; and the refresh of
-- auth/routes/refresh.py.
use bank_fastapi.Prelude.{ℕ, not, ◌&&◌, Option, String, str_eq, ◌==◌}
use bank_fastapi.Prelude.Rows.{first}
use bank_fastapi.Models.{User, Role}
use bank_fastapi.Core.{Db, Error, Result, ok, err}
use bank_fastapi.Core.Results.{◌>>=◌, ◌>>◌, refuse_if, or_refuse}
use bank_fastapi.Auth.Service.{is_locked, is_inactive}
use bank_fastapi.Auth.Tokens.{
  Jwt, Key, Payload, Decoded, TokenSettings, cookie_access_name, cookie_refresh_name,
  create_access_token,
}

-- `get_user_by_id` of active users
abbrev pub get_active_user : ℕ → Db → Option User
get_active_user id db = first (λ u. u.id == id && u.is_active) db.users

-- `validate_user_status` as a check that writes nothing.
abbrev pub check_status : User → Result (Unit {0})
check_status u = do
  refuse_if (not u.is_active) (Error.validation_failed "Your account is not activated")
  refuse_if (is_locked u.account_status) (Error.validation_failed "Your account is locked")
  refuse_if (is_inactive u.account_status) (Error.validation_failed "Your account is inactive")

-- The two `except` clauses of `jwt.decode`.
abbrev pub decoded : Error → Error → Decoded → Result Payload
decoded late wrong (Decoded.valid p) = ok p
decoded late wrong Decoded.expired = err late
decoded late wrong Decoded.invalid = err wrong

unfoldable pub get_current_user : {Token : Type 0} → Jwt Token → ℕ → Option Token → Db → Result User
get_current_user jwt now access_token db = do
  token ← or_refuse (Error.unauthorized "Not Authenticated") access_token
  payload ←
      decoded (Error.unauthorized "Token has expired") (Error.unauthorized "Invalid token")
        (jwt.decode Key.signing_key now token)
  refuse_if (not (str_eq payload.token_type cookie_access_name))
      (Error.unauthorized "Invalid token type")
  id ← or_refuse (Error.system_error "KeyError") payload.id
  user ← or_refuse (Error.not_found "User not found") (get_active_user id db)
  check_status user
  ok user

abbrev pub role_index : Role → ℕ
role_index Role.customer = 0
role_index Role.account_executive = 1
role_index Role.branch_manager = 2
role_index Role.admin = 3
role_index Role.super_admin = 4
role_index Role.teller = 5

-- `Depends(require_role(role, message))`
unfoldable pub require_role :
    {Token : Type 0} → Jwt Token → ℕ → Option Token → Role → String → Db → Result User
require_role jwt now access_token role message db = do
  user ← get_current_user jwt now access_token db
  refuse_if (not (role_index user.role == role_index role)) (Error.forbidden message)
  ok user

-- Returns the new access token.
unfoldable pub refresh_access_token :
    {Token : Type 0} → Jwt Token → TokenSettings → ℕ → Option Token → Db → Result Token
refresh_access_token jwt s now refresh_token db = do
  token ← or_refuse (Error.unauthorized "No refresh token provided") refresh_token
  payload ←
      decoded (Error.unauthorized "Refresh token has expired")
        (Error.unauthorized "Invalid refresh token") (jwt.decode Key.signing_key now token)
  refuse_if (not (str_eq payload.token_type cookie_refresh_name))
      (Error.unauthorized "Invalid token type")
  id ← or_refuse (Error.system_error "KeyError") payload.id
  user ← or_refuse (Error.unauthorized "User not found") (get_active_user id db)
  check_status user
  ok (create_access_token jwt s now user.id)
