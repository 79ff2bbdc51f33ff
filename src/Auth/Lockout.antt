-- ===== src/Auth/Lockout.antt =====
-- What failed attempts lead to, and what a login proves.
use bank_fastapi.Prelude.{
  ◌⊎◌, if◌then◌else◌, ℕ, ◌+◌, ◌<◌, ◌≡◌, refl, inl, inr, Bool, true, false, not, ◌||◌, ◌&&◌, some,
  String, arith, Option-cases, str_eq, leb,
}
use bank_fastapi.Prelude.Rows.{All, All-modify-All, find-modify_self, first-holds}
use bank_fastapi.Models.{User}
use bank_fastapi.Core.{
  pure, ◌>>◌, Action, Db, Context, Result, ok, err, Error, get_user, user_key, update_user,
}
use bank_fastapi.Core.Ends.{Ends, keep_then}
use bank_fastapi.Transaction.Transfer.Plan.{is_empty, issue_otp}
use bank_fastapi.Transaction.Transfer.Complete.{clear_otp}
use bank_fastapi.Auth.Service.{
  refuse_attempt, AuthSettings, is_locked, get_user_by_email, reset_row, reset_user_state,
  validate_user_status, check_user_lockout, failed_attempt, increment_failed_login_attempts,
  is_delivered, generate_and_save_otp, request_user_otp, request_login_otp, is_past,
  verify_user_otp, verify_login_otp,
}

-- A user with as many failed attempts as the limit is locked.
abbrev pub IsGuarded : AuthSettings → User → Type 0
IsGuarded s u =
    (leb s.login_attempts u.failed_login_attempts && not (is_locked u.account_status)) ≡ false

abbrev pub AllGuarded : AuthSettings → Db → Type 0
AllGuarded s db = All (IsGuarded s) db.users

-- Within the lockout of a user found by the address, every first step of a login is refused,
-- whatever the password, and changes nothing.
pub request_login_otp-locked :
    (ctx : Context) (s : AuthSettings) (deliver : ℕ → Bool) (email password : String) (db : Db)
    (u : User) (t : ℕ)
    → get_user_by_email email db ≡ some u
    → is_locked u.account_status ≡ true
    → u.last_failed_login ≡ some t
    → ctx.now < t + s.lockout_duration
    → request_login_otp ctx s deliver email password db
      ≡ (err (Error.validation_failed "Your account is temporarily locked"), db)
unfolding request_login_otp request_user_otp check_user_lockout
request_login_otp-locked ctx s deliver email password db u t e locked failed early = ground arith

-- A locked user is refused at the second step with nothing changed, also after the lockout has
-- ended.
pub verify_login_otp-locked :
    (ctx : Context) (s : AuthSettings) (email otp : String) (db : Db) (u : User)
    → get_user_by_email email db ≡ some u
    → is_locked u.account_status ≡ true
    → verify_login_otp ctx s email otp db
      ≡ (err (Error.validation_failed "Your account is locked"), db)
unfolding verify_login_otp verify_user_otp validate_user_status
verify_login_otp-locked ctx s email otp db u e locked =
    ground (arith, first-holds (λ (r : User). str_eq r.email email && r.is_active) db.users u e)

-- How the second step of a login ends at a user that is not locked: a user and an OTP that was
-- issued, right and in time, with the attempts and the OTP cleared; or an exception.
abbrev pub Verifies : Context → AuthSettings → String → User → Db → Result ℕ × Db → Type 0
Verifies ctx s otp u db (ok id, db') =
    (id ≡ u.id)
    × (is_locked u.account_status ≡ false)
    × ((is_empty u.otp || not (str_eq u.otp otp)) ≡ false)
    × (is_past ctx.now u.otp_expiry_time ≡ false)
    × (get_user u.id db' ≡ some (reset_row true (reset_row false u)))
Verifies ctx s otp u db (err e, db') =
    if is_empty u.otp || not (str_eq u.otp otp)
    then ((db' ≡ db) ⊎ (db' ≡ update_user u.id (failed_attempt ctx s) db))
    else (db' ≡ db)

-- For a user found by the address and by the id, the second step of a login returns only if the
-- user is not locked, the OTP is the user's own and it is in time, and then the attempts and the
-- OTP are cleared. If it raises, nothing has changed, except that a wrong OTP may have been counted
-- as a failed attempt.
pub verify_login_otp-Verifies :
    (ctx : Context) (s : AuthSettings) (email otp : String) (db : Db) (u : User)
    → get_user_by_email email db ≡ some u
    → get_user u.id db ≡ some u
    → Verifies ctx s otp u db (verify_login_otp ctx s email otp db)
unfolding verify_login_otp verify_user_otp validate_user_status check_user_lockout reset_user_state
    increment_failed_login_attempts
verify_login_otp-Verifies ctx s email otp db u e row =
    let once = find-modify_self user_key u.id (reset_row false) db.users u row refl in
    ground (
      arith,
      once,
      find-modify_self user_key u.id (reset_row true) (update_user u.id (reset_row false) db).users
          (reset_row false u) once refl,
    )

pub update-AllGuarded :
    (s : AuthSettings) (id : ℕ) (f : User → User) (db : Db)
    → ((u : User) → IsGuarded s u → IsGuarded s (f u))
    → AllGuarded s db
    → AllGuarded s (update_user id f db)
update-AllGuarded s id f db keep v = All-modify-All user_key (IsGuarded s) id f db.users v keep

failed_attempt-IsGuarded :
    (ctx : Context) (s : AuthSettings) (u : User)
    → IsGuarded s u
    → IsGuarded s (failed_attempt ctx s u)
failed_attempt-IsGuarded ctx s u g = ground arith

pub reset_row-IsGuarded :
    (s : AuthSettings) (clear : Bool) (u : User)
    → 0 < s.login_attempts
    → IsGuarded s (reset_row clear u)
reset_row-IsGuarded s clear u h = ground arith

-- The actions that both steps are made of keep it.
module _ (ctx : Context) (s : AuthSettings) (h : 0 < s.login_attempts) where
  abbrev Keeps {ℓ} : {A : Type ℓ} → Action A → Type 0
  Keeps m = Ends (AllGuarded s) (AllGuarded s) m

  reset-Keeps : (id : ℕ) (clear : Bool) → Keeps (reset_user_state id clear)
  unfolding reset_user_state
  reset-Keeps id clear db v =
      update-AllGuarded s id (reset_row clear) db (λ u g. reset_row-IsGuarded s clear u h) v

  ends_reset : (id : ℕ) → Keeps (reset_user_state id true >> pure id)
  unfolding reset_user_state
  ends_reset id db v = reset-Keeps id true db v

  refuse-Keeps : (id : ℕ) (wrong : Bool) (e : Error) → Keeps (refuse_attempt ctx s id wrong e)
  unfolding increment_failed_login_attempts
  refuse-Keeps id true e db v =
      update-AllGuarded s id (failed_attempt ctx s) db (failed_attempt-IsGuarded ctx s) v
  refuse-Keeps id false e db v = v

  otp-Keeps : (deliver : ℕ → Bool) (id : ℕ) → Keeps (generate_and_save_otp ctx deliver id)
  unfolding generate_and_save_otp
  otp-Keeps deliver id db v =
      let issued = update-AllGuarded s id (issue_otp ctx) db (λ u g. g) v in
      let cleared =
        update-AllGuarded s id clear_otp (update_user id (issue_otp ctx) db) (λ u g. g) issued in
      ground (arith, issued, cleared)

  request-Keeps :
      (deliver : ℕ → Bool) (password : String) (u : User)
      → Keeps (request_user_otp ctx s deliver password u)
  unfolding request_user_otp check_user_lockout reset_user_state increment_failed_login_attempts
  request-Keeps deliver password u db v =
      let unlocked = update_user u.id (reset_row false) db in
      let w = reset-Keeps u.id false db v in
      ground (
        arith,
        v,
        w,
        refuse-Keeps u.id true (Error.unauthorized "Invalid credentials") db v,
        refuse-Keeps u.id true (Error.unauthorized "Invalid credentials") unlocked w,
        otp-Keeps deliver u.id (update_user u.id (reset_row true) db) (reset-Keeps u.id true db v),
        otp-Keeps deliver u.id (update_user u.id (reset_row true) unlocked)
            (reset-Keeps u.id true unlocked w),
      )

  verify-Keeps : (otp : String) (u : User) → Keeps (verify_user_otp ctx s otp u)
  unfolding verify_user_otp validate_user_status check_user_lockout reset_user_state
      increment_failed_login_attempts
  verify-Keeps otp u db v =
      let unlocked = update_user u.id (reset_row false) db in
      let w = reset-Keeps u.id false db v in
      ground (
        arith,
        v,
        w,
        refuse-Keeps u.id true (Error.validation_failed "Invalid OTP") db v,
        refuse-Keeps u.id true (Error.validation_failed "Invalid OTP") unlocked w,
        reset-Keeps u.id false unlocked w,
      )

-- With a limit above zero, both steps of a login keep this of all users, however they end: a user
-- with as many failed attempts as the limit is locked.
pub login-AllGuarded :
    (ctx : Context) (s : AuthSettings) (deliver : ℕ → Bool) (email password otp : String) (db : Db)
    → 0 < s.login_attempts
    → AllGuarded s db
    → AllGuarded s (request_login_otp ctx s deliver email password db).1
      × AllGuarded s (verify_login_otp ctx s email otp db).1
unfolding request_login_otp verify_login_otp
login-AllGuarded ctx s deliver email password otp db h v =
    elim (Option-cases (get_user_by_email email db)) [
      | inl gone ↦ ground (arith, v)
      | inr (u, e) ↦
          let both : Keeps ctx s h
              (verify_user_otp ctx s otp u >> (reset_user_state u.id true >> pure u.id)) =
            keep_then (AllGuarded s) (verify_user_otp ctx s otp u)
              (λ _. reset_user_state u.id true >> pure u.id) (verify-Keeps ctx s h otp u)
              (λ _. ends_reset ctx s h u.id) in
          (
            rw (e, request_login_otp) (request-Keeps ctx s h deliver password u db v),
            rw (e, verify_login_otp) (both db v),
          )
    ]

-- The first step with the right password, for a user found by the address and by the id who is not
-- locked, where an e-mail is delivered: it returns, the user has a new OTP, and the count of failed
-- attempts, which wrong OTPs have raised, starts again from zero.
pub request_login_otp-resets :
    (ctx : Context) (s : AuthSettings) (deliver : ℕ → Bool) (email password : String) (db : Db)
    (u : User)
    → get_user_by_email email db ≡ some u
    → get_user u.id db ≡ some u
    → is_locked u.account_status ≡ false
    → ctx.verify password u.hashed_password ≡ true
    → is_delivered deliver ≡ true
    → ((request_login_otp ctx s deliver email password db).0 ≡ ok tt)
      × (get_user u.id (request_login_otp ctx s deliver email password db).1
          ≡ some (issue_otp ctx (reset_row true u)))
unfolding request_login_otp request_user_otp check_user_lockout reset_user_state
    generate_and_save_otp
request_login_otp-resets ctx s deliver email password db u e row free right sent =
    let once = find-modify_self user_key u.id (reset_row true) db.users u row refl in
    ground (
      arith,
      first-holds (λ (r : User). str_eq r.email email && r.is_active) db.users u e,
      once,
      find-modify_self user_key u.id (issue_otp ctx) (update_user u.id (reset_row true) db).users
          (reset_row true u) once refl,
    )
