-- ===== src/Auth/Service.antt =====
-- auth/service.py: failed attempts, the lockout and the OTP of a login, with the two steps of
-- auth/routes/login.py. E-mail addresses are unique; the cookies that the
-- second step sets are left out.
use bank_fastapi.Prelude.{
  ℕ, ◌+◌, Bool, true, false, not, ◌&&◌, ◌||◌, Option, none, some, String, str_eq, leb, ltb,
  if◌then◌else◌,
}
use bank_fastapi.Prelude.Rows.{first}
use bank_fastapi.Models.{User, UserStatus}
use bank_fastapi.Core.{
  Db, Context, Action, Error, ok, err, ◌>>◌, pure, raise, raise_if, change, update_user,
}
use bank_fastapi.Transaction.Transfer.Plan.{is_empty, issue_otp}
use bank_fastapi.Transaction.Transfer.Complete.{clear_otp}

-- `LOGIN_ATTEMPTS`, and `LOCKOUT_DURATION_MINUTES` in seconds.
pub record AuthSettings : Type 0 where
  pub login_attempts : ℕ
  pub lockout_duration : ℕ

abbrev pub is_locked : UserStatus → Bool
is_locked UserStatus.locked = true
is_locked _ = false

abbrev pub is_inactive : UserStatus → Bool
is_inactive UserStatus.inactive = true
is_inactive _ = false

-- `get_user_by_email` of active users
abbrev pub get_user_by_email : String → Db → Option User
get_user_by_email email db = first (λ u. str_eq u.email email && u.is_active) db.users

abbrev pub unlocked_status : UserStatus → UserStatus
unlocked_status UserStatus.locked = UserStatus.active
unlocked_status s = s

abbrev pub reset_row : Bool → User → User
reset_row clear u = record (if clear then clear_otp u else u) {
  failed_login_attempts = 0;
  last_failed_login = none;
  account_status = unlocked_status u.account_status;
}

-- `reset_user_state`
unfoldable pub reset_user_state : ℕ → Bool → Action (Unit {0})
reset_user_state id clear = change (update_user id (reset_row clear))

unfoldable pub validate_user_status : User → Action (Unit {0})
validate_user_status u = do
  raise_if (not u.is_active) (Error.validation_failed "Your account is not activated")
  raise_if (is_locked u.account_status) (Error.validation_failed "Your account is locked")
  raise_if (is_inactive u.account_status) (Error.validation_failed "Your account is inactive")

-- The end of the lockout, if there is one.
abbrev pub lockout_time : AuthSettings → User → Option ℕ
lockout_time s u =
    if is_locked u.account_status
    then elim u.last_failed_login [ none ↦ none | some t ↦ some (t + s.lockout_duration) ]
    else none

unfoldable pub check_user_lockout : Context → AuthSettings → User → Action (Unit {0})
check_user_lockout ctx s u db = elim (lockout_time s u) [
  | none ↦ (ok tt, db)
  | some end ↦
      if leb end ctx.now
      then reset_user_state u.id false db
      else (err (Error.validation_failed "Your account is temporarily locked"), db)
]

-- One more failed attempt; from the limit on the user is locked and has no OTP.
abbrev pub failed_attempt : Context → AuthSettings → User → User
failed_attempt ctx s u =
    let counted = record u {
      failed_login_attempts = u.failed_login_attempts + 1;
      last_failed_login = some ctx.now;
    } in
    if leb s.login_attempts (u.failed_login_attempts + 1)
    then record (clear_otp counted) { account_status = UserStatus.locked }
    else counted

unfoldable pub increment_failed_login_attempts : Context → AuthSettings → ℕ → Action (Unit {0})
increment_failed_login_attempts ctx s id = change (update_user id (failed_attempt ctx s))

-- The two branches on a wrong password or OTP: `await increment(...); raise e`.
abbrev pub refuse_attempt : Context → AuthSettings → ℕ → Bool → Error → Action (Unit {0})
refuse_attempt ctx s id wrong e db = elim wrong [
  | true ↦ (increment_failed_login_attempts ctx s id >> raise e) db
  | false ↦ (ok tt, db)
]

-- `deliver n` tells whether the n-th attempt to send the e-mail succeeds; there are three.
abbrev pub is_delivered : (ℕ → Bool) → Bool
is_delivered deliver = deliver 0 || (deliver 1 || deliver 2)

-- The OTP is committed first, and cleared if no attempt delivers it.
unfoldable pub generate_and_save_otp : Context → (ℕ → Bool) → ℕ → Action (Unit {0})
generate_and_save_otp ctx deliver id = do
  change (update_user id (issue_otp ctx))
  change (if is_delivered deliver then (λ db. db) else update_user id clear_otp)

-- `routes/login.py`, from a user with this address on.
unfoldable pub request_user_otp :
    Context → AuthSettings → (ℕ → Bool) → String → User → Action (Unit {0})
request_user_otp ctx s deliver password u = do
  check_user_lockout ctx s u
  refuse_attempt ctx s u.id (not (ctx.verify password u.hashed_password))
      (Error.unauthorized "Invalid credentials")
  raise_if (not u.is_active) (Error.validation_failed "Your account is not activated")
  reset_user_state u.id true
  generate_and_save_otp ctx deliver u.id

-- The first step of a login; an unknown address is answered like a known one.
unfoldable pub request_login_otp :
    Context → AuthSettings → (ℕ → Bool) → String → String → Action (Unit {0})
request_login_otp ctx s deliver email password db = elim (get_user_by_email email db) [
  | none ↦ (ok tt, db)
  | some u ↦ request_user_otp ctx s deliver password u db
]

abbrev pub is_past : ℕ → Option ℕ → Bool
is_past now none = true
is_past now (some time) = ltb time now

-- `verify_login_otp` of the service at a user.
unfoldable pub verify_user_otp : Context → AuthSettings → String → User → Action ℕ
verify_user_otp ctx s otp u = do
  validate_user_status u
  check_user_lockout ctx s u
  refuse_attempt ctx s u.id (is_empty u.otp || not (str_eq u.otp otp))
      (Error.validation_failed "Invalid OTP")
  raise_if (is_past ctx.now u.otp_expiry_time) (Error.validation_failed "OTP has expired")
  reset_user_state u.id false
  pure u.id

-- The second step: the service, then the route's own reset.
unfoldable pub verify_login_otp : Context → AuthSettings → String → String → Action ℕ
verify_login_otp ctx s email otp db = elim (get_user_by_email email db) [
  | none ↦ (err (Error.unauthorized "Invalid credentials"), db)
  | some u ↦ (verify_user_otp ctx s otp u >> (reset_user_state u.id true >> pure u.id)) db
]
