-- ===== src/Auth/Registration.antt =====
-- auth/service.py and auth/routes: registration, activation and password reset. Argon2 is `hash`,
-- the random user name `username`, and `delivered` tells whether an e-mail is sent.
use bank_fastapi.Prelude.{
  ℕ, Bool, true, false, not, ◌&&◌, ◌||◌, Option, none, some, [], ◌∷◌, ◌++◌, String, str_eq, ◌==◌,
  is_some, if◌then◌else◌,
}
use bank_fastapi.Prelude.Rows.{first, any_row}
use bank_fastapi.Models.{User, UserStatus, Role}
use bank_fastapi.Core.{
  Db, Context, Action, Error, ok, err, ◌>>=◌, ◌>>◌, pure, gets, or_raise, raise, raise_if, change,
  update_user,
}
use bank_fastapi.Auth.Service.{get_user_by_email, reset_user_state}
use bank_fastapi.Auth.Tokens.{
  Jwt, Key, Payload, Decoded, TokenSettings, create_activation_token, create_password_reset_token,
}

-- `UserCreateSchema`: the columns that the model has.
pub record UserCreate : Type 0 where
  pub email : String
  pub first_name : String
  pub middle_name : Option String
  pub last_name : String
  pub full_name : String
  pub id_no : ℕ
  pub role : Role
  pub security_answer : String
  pub password : String

-- `get_user_by_id_no` of active users
abbrev pub get_user_by_id_no : ℕ → Db → Option User
get_user_by_id_no id_no db = first (λ u. u.id_no == id_no && u.is_active) db.users

abbrev pub check_user_email_exists : String → Db → Bool
check_user_email_exists email db = is_some (get_user_by_email email db)

abbrev pub check_user_id_no_exists : ℕ → Db → Bool
check_user_id_no_exists id_no db = is_some (get_user_by_id_no id_no db)

-- The row of `create_user`: what the schema gives but the user name and the two states.
abbrev pub new_user : Context → (String → String) → String → UserCreate → User
new_user ctx hash username d = record {
  id = ctx.new_id;
  username = username;
  email = d.email;
  first_name = d.first_name;
  middle_name = d.middle_name;
  last_name = d.last_name;
  full_name = d.full_name;
  id_no = d.id_no;
  is_active = false;
  account_status = UserStatus.pending;
  role = d.role;
  security_answer = hash d.security_answer;
  hashed_password = hash d.password;
  failed_login_attempts = 0;
  last_failed_login = none;
  otp = "";
  otp_expiry_time = none;
  created_at = ctx.now;
}

-- The UNIQUE columns: the user name, the address and the number.
abbrev pub clashes : User → Db → Bool
clashes v db =
    any_row (λ u. str_eq u.username v.username || (str_eq u.email v.email || u.id_no == v.id_no))
      db.users

abbrev pub add_user : User → Db → Db
add_user u db = record db { users = db.users ++ u ∷ [] }

-- The commit raises on a clash; the row stays when the e-mail fails. Returns the user's id.
unfoldable pub create_user : Context → (String → String) → String → Bool → UserCreate → Action ℕ
create_user ctx hash username delivered d = do
  raise_if (← gets (clashes (new_user ctx hash username d))) (Error.system_error "IntegrityError")
  change (add_user (new_user ctx hash username d))
  raise_if (not delivered) (Error.system_error "e-mail")
  pure ctx.new_id

unfoldable pub register_user : Context → (String → String) → String → Bool → UserCreate → Action ℕ
register_user ctx hash username delivered d = do
  raise_if (← gets (check_user_email_exists d.email))
      (Error.validation_failed "User with this email already exists")
  raise_if (← gets (check_user_id_no_exists d.id_no))
      (Error.validation_failed "User with this id number already exists")
  create_user ctx hash username delivered d

-- The two `except` clauses of `jwt.decode`.
abbrev pub or_decoded : Error → Error → Decoded → Action Payload
or_decoded late wrong (Decoded.valid p) = pure p
or_decoded late wrong Decoded.expired = raise late
or_decoded late wrong Decoded.invalid = raise wrong

-- `get_user_by_id` with `include_inactive`
abbrev pub get_any_user : ℕ → Db → Option User
get_any_user id db = first (λ u. u.id == id) db.users

abbrev pub activated : User → User
activated u = record u { is_active = true; account_status = UserStatus.active }

unfoldable pub activate_user_account : {Token : Type 0} → Context → Jwt Token → Token → Action ℕ
activate_user_account ctx jwt token = do
  payload ←
      or_decoded (Error.validation_failed "Activation link has expired")
        (Error.validation_failed "Invalid activation token")
        (jwt.decode Key.jwt_secret_key ctx.now token)
  raise_if (not (str_eq payload.token_type "activation"))
      (Error.validation_failed "Invalid activation token")
  id ← or_raise (Error.system_error "KeyError") payload.id
  user ← or_raise (Error.not_found "User not found") (← gets (get_any_user id))
  raise_if user.is_active (Error.validation_failed "User already activated")
  reset_user_state user.id true
  change (update_user user.id activated)
  pure user.id

abbrev pub is_active_status : UserStatus → Bool
is_active_status UserStatus.active = true
is_active_status _ = false

-- `get_user_by_email` with `include_inactive`
abbrev pub get_any_user_by_email : String → Db → Option User
get_any_user_by_email email db = first (λ u. str_eq u.email email) db.users

-- Returns the token that is sent.
unfoldable pub resend_activation_link :
    {Token : Type 0} → Context → Jwt Token → TokenSettings → Bool → String → Action Token
resend_activation_link ctx jwt s delivered email = do
  user ←
      or_raise (Error.not_found "If an account exists with this email, please check your inbox")
        (← gets (get_any_user_by_email email))
  raise_if (user.is_active || is_active_status user.account_status)
      (Error.validation_failed "User account already activated")
  raise_if (not delivered) (Error.system_error "e-mail")
  pure (create_activation_token jwt s ctx.now user.id)

-- Returns the token that is sent, if there is a user to send it to.
unfoldable pub request_password_reset :
    {Token : Type 0} → Context → Jwt Token → TokenSettings → Bool → String → Action (Option Token)
request_password_reset ctx jwt s delivered email db = elim (get_any_user_by_email email db) [
  | none ↦ (ok none, db)
  | some u ↦
      if delivered
      then (ok (some (create_password_reset_token jwt s ctx.now u.id)), db)
      else (err (Error.system_error "e-mail"), db)
]

abbrev pub with_password : String → User → User
with_password h u = record u { hashed_password = h }

unfoldable pub reset_password :
    {Token : Type 0} → Context → Jwt Token → (String → String) → Token → String → Action (Unit {0})
reset_password ctx jwt hash token new_password = do
  payload ←
      or_decoded (Error.validation_failed "Password reset token expired")
        (Error.validation_failed "Invalid password reset token")
        (jwt.decode Key.jwt_secret_key ctx.now token)
  raise_if (not (str_eq payload.token_type "password_reset"))
      (Error.validation_failed "Invalid password reset token")
  id ← or_raise (Error.system_error "KeyError") payload.id
  user ← or_raise (Error.not_found "User not found") (← gets (get_any_user id))
  change (update_user user.id (with_password (hash new_password)))
  reset_user_state user.id true
