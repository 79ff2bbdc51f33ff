-- ===== src/Auth/Sessions.antt =====
-- Every sequence of logins, registrations, activations and password resets.
use bank_fastapi.Prelude.{
  sym, subst, ◌==◌, ℕ, ◌<◌, ◌≡◌, refl, Bool, true, inl, inr, Option-cases, some, [], ◌∷◌, String,
  arith,
}
use bank_fastapi.Prelude.Rows.{All-modify, All-append, first-holds, find-modify_self}
use bank_fastapi.Models.{User}
use bank_fastapi.Core.{Db, Context, get_user, user_key, update_user}
use bank_fastapi.Auth.Service.{
  AuthSettings, request_login_otp, verify_login_otp, reset_row, reset_user_state,
}
use bank_fastapi.Auth.Lockout.{
  IsGuarded, AllGuarded, update-AllGuarded, reset_row-IsGuarded, login-AllGuarded,
}
use bank_fastapi.Auth.Tokens.{Decoded-cases, Jwt, Key}
use bank_fastapi.Auth.Registration.{
  UserCreate, new_user, create_user, register_user, activate_user_account, activated, get_any_user,
  reset_password, with_password,
}
use bank_fastapi.Auth.Onboarding.{activate_in}

-- One call of the service, however it ends.
pub data AuthStep {Token : Type 0} (s : AuthSettings) (jwt : Jwt Token) (hash : String → String)
    : Db → Db → Type 0 where
  request :
      (ctx : Context) (deliver : ℕ → Bool) (email password : String) (db : Db)
      → AuthStep s jwt hash db (request_login_otp ctx s deliver email password db).1
  verify :
      (ctx : Context) (email otp : String) (db : Db)
      → AuthStep s jwt hash db (verify_login_otp ctx s email otp db).1
  register :
      (ctx : Context) (username : String) (delivered : Bool) (d : UserCreate) (db : Db)
      → AuthStep s jwt hash db (register_user ctx hash username delivered d db).1
  activate :
      (ctx : Context) (token : Token) (db : Db)
      → AuthStep s jwt hash db (activate_user_account ctx jwt token db).1
  reset :
      (ctx : Context) (token : Token) (password : String) (db : Db)
      → AuthStep s jwt hash db (reset_password ctx jwt hash token password db).1

pub data AuthReach {Token : Type 0} (s : AuthSettings) (jwt : Jwt Token) (hash : String → String)
    : Db → Db → Type 0 where
  stay : (db : Db) → AuthReach s jwt hash db db
  then :
      (db mid last : Db)
      → AuthStep s jwt hash db mid
      → AuthReach s jwt hash mid last
      → AuthReach s jwt hash db last

register-AllGuarded :
    (s : AuthSettings) (ctx : Context) (hash : String → String) (username : String)
    (delivered : Bool) (d : UserCreate) (db : Db)
    → 0 < s.login_attempts
    → AllGuarded s db
    → AllGuarded s (register_user ctx hash username delivered d db).1
unfolding register_user create_user
register-AllGuarded s ctx hash username delivered d db h v =
    let fresh : IsGuarded s (new_user ctx hash username d) = ground arith in
    ground (
      arith,
      v,
      All-append (IsGuarded s) db.users (new_user ctx hash username d ∷ []) v (fresh, tt),
    )

reset-AllGuarded :
    (s : AuthSettings) (id : ℕ) (db : Db)
    → 0 < s.login_attempts
    → AllGuarded s db
    → AllGuarded s (update_user id (reset_row true) db)
reset-AllGuarded s id db h v =
    update-AllGuarded s id (reset_row true) db (λ u g. reset_row-IsGuarded s true u h) v

activate_in-AllGuarded :
    (s : AuthSettings) (db : Db) (u : User)
    → 0 < s.login_attempts
    → get_user u.id db ≡ some u
    → AllGuarded s db
    → AllGuarded s (activate_in u.id db)
activate_in-AllGuarded s db u h e v =
    let row : get_user u.id (update_user u.id (reset_row true) db) ≡ some (reset_row true u) =
      find-modify_self user_key u.id (reset_row true) db.users u e refl in
    let good : IsGuarded s (activated (reset_row true u)) = ground arith in
    All-modify user_key (IsGuarded s) u.id activated (update_user u.id (reset_row true) db).users
      (reset_row true u) (reset-AllGuarded s u.id db h v) row good

found_self : (id : ℕ) (db : Db) (u : User) → get_any_user id db ≡ some u → get_user u.id db ≡ some u
found_self id db u e =
    let same : u.id ≡ id = ground (arith, first-holds (λ (r : User). r.id == id) db.users u e) in
    subst (λ k. get_user k db ≡ some u) (sym same) e

activate-AllGuarded :
    {Token : Type 0} (s : AuthSettings) (ctx : Context) (jwt : Jwt Token) (token : Token) (db : Db)
    → 0 < s.login_attempts
    → AllGuarded s db
    → AllGuarded s (activate_user_account ctx jwt token db).1
unfolding activate_user_account reset_user_state
activate-AllGuarded s ctx jwt token db h v =
    elim (Decoded-cases (jwt.decode Key.jwt_secret_key ctx.now token)) [
      | inl (p, d) ↦ elim (Option-cases p.id) [
        | inl i ↦ ground (arith, v)
        | inr (id, i) ↦ elim (Option-cases (get_any_user id db)) [
          | inl g ↦ ground (arith, v)
          | inr (u, g) ↦ ground (arith, v, activate_in-AllGuarded s db u h (found_self id db u g) v)
        ]
      ]
      | inr bad ↦ ground (arith, v, bad)
    ]

reset_password-AllGuarded :
    {Token : Type 0} (s : AuthSettings) (ctx : Context) (jwt : Jwt Token) (hash : String → String)
    (token : Token) (password : String) (db : Db)
    → 0 < s.login_attempts
    → AllGuarded s db
    → AllGuarded s (reset_password ctx jwt hash token password db).1
unfolding reset_password reset_user_state
reset_password-AllGuarded s ctx jwt hash token password db h v =
    elim (Decoded-cases (jwt.decode Key.jwt_secret_key ctx.now token)) [
      | inl (p, d) ↦ elim (Option-cases p.id) [
        | inl i ↦ ground (arith, v)
        | inr (id, i) ↦ elim (Option-cases (get_any_user id db)) [
          | inl g ↦ ground (arith, v)
          | inr (u, g) ↦
              let changed =
                update-AllGuarded s u.id (with_password (hash password)) db (λ r g. g) v in
              ground (
                arith,
                v,
                reset-AllGuarded s u.id (update_user u.id (with_password (hash password)) db) h
                    changed,
              )
        ]
      ]
      | inr bad ↦ ground (arith, v, bad)
    ]

AuthStep-AllGuarded :
    {Token : Type 0} (s : AuthSettings) (jwt : Jwt Token) (hash : String → String) (db mid : Db)
    → 0 < s.login_attempts
    → AuthStep s jwt hash db mid
    → AllGuarded s db
    → AllGuarded s mid
AuthStep-AllGuarded s jwt hash db mid h (request ctx deliver email password _) v =
    (login-AllGuarded ctx s deliver email password "" db h v).0
AuthStep-AllGuarded s jwt hash db mid h (verify ctx email otp _) v =
    (login-AllGuarded ctx s (λ _. true) email "" otp db h v).1
AuthStep-AllGuarded s jwt hash db mid h (register ctx username delivered d _) v =
    register-AllGuarded s ctx hash username delivered d db h v
AuthStep-AllGuarded s jwt hash db mid h (activate ctx token _) v =
    activate-AllGuarded s ctx jwt token db h v
AuthStep-AllGuarded s jwt hash db mid h (reset ctx token password _) v =
    reset_password-AllGuarded s ctx jwt hash token password db h v

-- With a limit above zero: from tables where every user with as many failed attempts as the limit is
-- locked, every sequence of logins, registrations, activations and password resets, however they
-- end, leads only to such tables.
pub AuthReach-AllGuarded :
    {Token : Type 0} (s : AuthSettings) (jwt : Jwt Token) (hash : String → String) (db last : Db)
    → 0 < s.login_attempts
    → AuthReach s jwt hash db last
    → AllGuarded s db
    → AllGuarded s last
AuthReach-AllGuarded s jwt hash db last h (stay _) v = v
AuthReach-AllGuarded s jwt hash db last h (then _ mid _ step rest) v =
    AuthReach-AllGuarded s jwt hash mid last h rest (AuthStep-AllGuarded s jwt hash db mid h step v)
