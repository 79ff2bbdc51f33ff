-- ===== src/Tests/Accounts.antt =====
-- Registration, activation, password reset and access at the small bank. A token is its key with its
-- payload.
use bank_fastapi.Prelude.{
  ◌≡◌, refl, Bool, true, false, none, some, String, arith, leb, if◌then◌else◌,
}
use bank_fastapi.Models.{User, Role}
use bank_fastapi.Core.{Context, ok, err, Error, get_user}
use bank_fastapi.Auth.Service.{is_locked}
use bank_fastapi.Auth.Tokens.{
  Jwt, IsJwt, Key, Payload, Decoded, TokenSettings, create_access_token, create_activation_token,
  create_password_reset_token,
}
use bank_fastapi.Auth.Access.{get_current_user}
use bank_fastapi.Auth.Registration.{
  UserCreate, new_user, add_user, create_user, activate_user_account, reset_password,
}
use bank_fastapi.Auth.Onboarding.{
  Admitted, get_current_user-Admitted, onboarded_row, activate_in, create_user-onboards,
}
use bank_fastapi.Auth.Sessions.{AuthReach, AuthStep, AuthReach-AllGuarded}
use bank_fastapi.Auth.Lockout.{AllGuarded}
use bank_fastapi.Auth.Resets.{reset_user, reset_in, reset_password-reusable}
use bank_fastapi.Tests.Fixtures.{ctx, ann, bank}
use bank_fastapi.Tests.Logins.{settings, locked_ann, locked_bank}

abbrev same_key : Key → Key → Bool
same_key Key.jwt_secret_key Key.jwt_secret_key = true
same_key Key.signing_key Key.signing_key = true
same_key _ _ = false

abbrev pub tokens : Jwt (Key × Payload)
tokens = record {
  encode = λ key p. (key, p);
  decode = λ key now t.
      if same_key key t.0
      then (if leb t.1.exp now then Decoded.expired else Decoded.valid t.1)
      else Decoded.invalid;
}

tokens-IsJwt : IsJwt tokens
tokens-IsJwt Key.jwt_secret_key now p = refl
tokens-IsJwt Key.signing_key now p = refl

abbrev pub lives : TokenSettings
lives = record {
  activation_expiration = 1800;
  access_expiration = 900;
  refresh_expiration = 86400;
  password_reset_expiration = 600;
}

abbrev hash : String → String
hash p = "hashed"

abbrev dan : UserCreate
dan = record {
  email = "dan";
  first_name = "Dan";
  middle_name = none;
  last_name = "Day";
  full_name = "Dan Day";
  id_no = 9;
  role = Role.customer;
  security_answer = "blue";
  password = "secret";
}

abbrev later : Context
later = record ctx { now = 1400 }

abbrev dan_user : User
dan_user = new_user ctx hash "B-DAN" dan

create_user-onboards_example :
    let registered = add_user dan_user bank in
    let token = some (create_access_token tokens lives 1600 77) in
    let link = create_activation_token tokens lives 1000 77 in
    (create_user ctx hash "B-DAN" true dan bank ≡ (ok 77, registered))
    × (get_current_user tokens 1700 token registered ≡ err (Error.not_found "User not found"))
    × (activate_user_account later tokens link registered ≡ (ok 77, activate_in 77 registered))
    × (get_current_user tokens 1700 token (activate_in 77 registered) ≡ ok (onboarded_row dan_user))
create_user-onboards_example =
    create_user-onboards ctx later tokens lives hash "B-DAN" dan 1600 1700 bank tokens-IsJwt refl
      refl refl refl

get_current_user-Admitted_example :
    Admitted tokens 1000 (some (create_access_token tokens lives 900 1)) bank ann
unfolding get_current_user
get_current_user-Admitted_example =
    get_current_user-Admitted tokens 1000 (some (create_access_token tokens lives 900 1)) bank ann
      refl

abbrev reset_link : Key × Payload
reset_link = create_password_reset_token tokens lives 900 1

reset_password-reusable_example :
    let first_db = reset_in hash "new" 1 locked_bank in
    (reset_password ctx tokens hash reset_link "new" locked_bank ≡ (ok tt, first_db))
    × (get_user 1 first_db ≡ some (reset_user hash "new" locked_ann))
    × (is_locked (reset_user hash "new" locked_ann).account_status ≡ false)
    × (reset_password later tokens hash reset_link "other" first_db
        ≡ (ok tt, reset_in hash "other" 1 first_db))
    × (get_user 1 (reset_in hash "other" 1 first_db)
        ≡ some (reset_user hash "other" (reset_user hash "new" locked_ann)))
reset_password-reusable_example =
    reset_password-reusable ctx later tokens lives hash 900 "new" "other" locked_bank locked_ann
      tokens-IsJwt refl refl refl

AuthReach-AllGuarded_example :
    AllGuarded settings (reset_password ctx tokens hash reset_link "new" locked_bank).1
AuthReach-AllGuarded_example =
    AuthReach-AllGuarded settings tokens hash locked_bank
      (reset_password ctx tokens hash reset_link "new" locked_bank).1 (omega arith)
      (AuthReach.then locked_bank (reset_password ctx tokens hash reset_link "new" locked_bank).1
        (reset_password ctx tokens hash reset_link "new" locked_bank).1
        (AuthStep.reset ctx reset_link "new" locked_bank)
        (AuthReach.stay (reset_password ctx tokens hash reset_link "new" locked_bank).1))
      (refl, (refl, tt))
