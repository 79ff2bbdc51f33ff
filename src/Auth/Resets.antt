-- ===== src/Auth/Resets.antt =====
-- Password resets, and registrations with an address that is taken.
use bank_fastapi.Prelude.{
  ◌+◌, List, eq_iff, ◌==◌, ℕ, ◌≡◌, refl, Bool, true, false, ◌||◌, some, [], ◌∷◌, String, arith, leb,
  str_eq,
}
use bank_fastapi.Prelude.Rows.{any_row, first, find-modify_self}
use bank_fastapi.Models.{User}
use bank_fastapi.Core.{Db, Context, Error, ok, err, get_user, user_key, update_user}
use bank_fastapi.Auth.Service.{is_locked, reset_row, reset_user_state}
use bank_fastapi.Auth.Tokens.{
  Jwt, IsJwt, Key, TokenSettings, token_payload, create_password_reset_token,
}
use bank_fastapi.Auth.Registration.{
  UserCreate, new_user, create_user, register_user, get_any_user_by_email, check_user_email_exists,
  check_user_id_no_exists, reset_password, with_password,
}
use bank_fastapi.Auth.Onboarding.{token-decodes}

-- The row after a password reset.
abbrev pub reset_user : (String → String) → String → User → User
reset_user hash password u = reset_row true (with_password (hash password) u)

-- What a reset does to the tables.
abbrev pub reset_in : (String → String) → String → ℕ → Db → Db
reset_in hash password id db =
    update_user id (reset_row true) (update_user id (with_password (hash password)) db)

reset-token :
    {Token : Type 0} (ctx : Context) (jwt : Jwt Token) (s : TokenSettings) (hash : String → String)
    (t : ℕ) (password : String) (db : Db) (u : User)
    → IsJwt jwt
    → leb (t + s.password_reset_expiration) ctx.now ≡ false
    → get_user u.id db ≡ some u
    → reset_password ctx jwt hash (create_password_reset_token jwt s t u.id) password db
      ≡ (ok tt, reset_in hash password u.id db)
unfolding reset_password reset_user_state
reset-token ctx jwt s hash t password db u h e g =
    let decodes =
      token-decodes jwt Key.jwt_secret_key ctx.now
        (token_payload u.id "password_reset" t s.password_reset_expiration) h e in
    ground (arith, decodes)

reset-row :
    (hash : String → String) (password : String) (db : Db) (u : User)
    → get_user u.id db ≡ some u
    → get_user u.id (reset_in hash password u.id db) ≡ some (reset_user hash password u)
reset-row hash password db u g =
    let once = find-modify_self user_key u.id (with_password (hash password)) db.users u g refl in
    find-modify_self user_key u.id (reset_row true)
      (update_user u.id (with_password (hash password)) db).users (with_password (hash password) u)
      once refl

-- Where PyJWT keeps its promise: the link of a password reset works until it expires. The user has
-- the new password's hash, no failed attempts and no OTP, and is not locked any more. The same link
-- then sets any other password too, as often as it is used before it expires.
pub reset_password-reusable :
    {Token : Type 0} (ctx later : Context) (jwt : Jwt Token) (s : TokenSettings)
    (hash : String → String) (t : ℕ) (password other : String) (db : Db) (u : User)
    → IsJwt jwt
    → leb (t + s.password_reset_expiration) ctx.now ≡ false
    → leb (t + s.password_reset_expiration) later.now ≡ false
    → get_user u.id db ≡ some u
    → let link = create_password_reset_token jwt s t u.id in
      let first_db = reset_in hash password u.id db in
      (reset_password ctx jwt hash link password db ≡ (ok tt, first_db))
      × (get_user u.id first_db ≡ some (reset_user hash password u))
      × (is_locked (reset_user hash password u).account_status ≡ false)
      × (reset_password later jwt hash link other first_db
          ≡ (ok tt, reset_in hash other u.id first_db))
      × (get_user u.id (reset_in hash other u.id first_db)
          ≡ some (reset_user hash other (reset_user hash password u)))
reset_password-reusable ctx later jwt s hash t password other db u h e e' g =
    let row = reset-row hash password db u g in
    (
      reset-token ctx jwt s hash t password db u h e g,
      row,
      ground arith,
      reset-token later jwt s hash t other (reset_in hash password u.id db)
          (reset_user hash password u) h e' row,
      reset-row hash other (reset_in hash password u.id db) (reset_user hash password u) row,
    )

any-clash :
    (rows : List User) (email : String) (v u : User)
    → str_eq v.email email ≡ true
    → first (λ r. str_eq r.email email) rows ≡ some u
    → any_row
        (λ r. str_eq r.username v.username || (str_eq r.email v.email || r.id_no == v.id_no))
        rows
      ≡ true
any-clash [] email v u same e = ground arith
any-clash (r ∷ rows) email v u same e =
    ground (arith, eq_iff v.email email, any-clash rows email v u same)

-- A second registration with the address of a user who is not yet active, where no active user has
-- the address or the number: both checks of the route pass, and the UNIQUE column makes the commit
-- raise.
pub register_user-again :
    (ctx : Context) (hash : String → String) (username : String) (delivered : Bool) (d : UserCreate)
    (db : Db) (u : User)
    → get_any_user_by_email d.email db ≡ some u
    → check_user_email_exists d.email db ≡ false
    → check_user_id_no_exists d.id_no db ≡ false
    → register_user ctx hash username delivered d db
      ≡ (err (Error.system_error "IntegrityError"), db)
unfolding register_user create_user
register_user-again ctx hash username delivered d db u e no_email no_id =
    let same : str_eq d.email d.email ≡ true = ground (arith, eq_iff d.email d.email) in
    let clash = any-clash db.users d.email (new_user ctx hash username d) u same e in
    ground (arith, clash)
