-- ===== src/Auth/Onboarding.antt =====
-- From registration over activation to the first request, and what lets a request in.
use bank_fastapi.Prelude.{
  ℕ, ◌+◌, ◌≡◌, refl, ◌∙◌, true, false, ◌&&◌, inl, inr, Option-cases, Option, none, some, List, [],
  ◌∷◌, ◌++◌, String, str_eq, arith, leb, ◌==◌, ap,
}
use bank_fastapi.Prelude.Rows.{first, find, modify, first-append, find-modify}
use bank_fastapi.Models.{User}
use bank_fastapi.Core.{Db, Context, Error, Result-cases, ok, err, user_key, get_user, update_user}
use bank_fastapi.Auth.Service.{reset_row, reset_user_state, is_locked, is_inactive}
use bank_fastapi.Auth.Tokens.{
  Jwt, IsJwt, Key, Payload, Decoded, TokenSettings, create_activation_token, create_access_token,
  cookie_access_name, token_payload,
}
use bank_fastapi.Auth.Access.{get_current_user, get_active_user, decoded, check_status}
use bank_fastapi.Auth.Registration.{
  UserCreate, new_user, add_user, clashes, create_user, activate_user_account, activated,
}

-- Why a request is let in as a user: the token's payload and the user's state.
abbrev pub Admitted : {Token : Type 0} → Jwt Token → ℕ → Option Token → Db → User → Type 0
Admitted {Token} jwt now access_token db u =
    (token : Token) × (p : Payload) × (access_token ≡ some token)
    × (jwt.decode Key.signing_key now token ≡ Decoded.valid p)
    × (str_eq p.token_type cookie_access_name ≡ true)
    × (id : ℕ) × (p.id ≡ some id)
    × (get_active_user id db ≡ some u)
    × (u.is_active ≡ true)
    × (is_locked u.account_status ≡ false)
    × (is_inactive u.account_status ≡ false)

decoded-cases :
    (d : Decoded) (late wrong : Error) (p : Payload)
    → decoded late wrong d ≡ ok p
    → d ≡ Decoded.valid p
decoded-cases d late wrong p e = ground arith

-- A request that is let in as a user carries a token of the access type that is valid now and holds
-- the id of that user, who is active and neither locked nor inactive.
pub get_current_user-Admitted :
    {Token : Type 0} (jwt : Jwt Token) (now : ℕ) (access_token : Option Token) (db : Db) (u : User)
    → get_current_user jwt now access_token db ≡ ok u
    → Admitted jwt now access_token db u
unfolding get_current_user
get_current_user-Admitted jwt now none db u e = ground arith
get_current_user-Admitted jwt now (some token) db u e =
    elim (Result-cases (
      decoded (Error.unauthorized "Token has expired") (Error.unauthorized "Invalid token")
        (jwt.decode Key.signing_key now token))) [
          | inl (x, d) ↦ ground arith
          | inr (p, d) ↦ elim (Option-cases p.id) [
            | inl i ↦ ground arith
            | inr (id, i) ↦ elim (Option-cases (get_active_user id db)) [
              | inl g ↦ ground arith
              | inr (v, g) ↦
                  let same : v ≡ u = ground arith in
                  (
                    token,
                    p,
                    refl,
                    decoded-cases (jwt.decode Key.signing_key now token) _ _ p d,
                    ground arith,
                    id,
                    i,
                    g ∙ ap some same,
                    ground arith,
                    ground arith,
                    ground arith,
                  )
            ]
          ]
        ]

active-none :
    (id : ℕ) (rows : List User)
    → find user_key id rows ≡ none
    → first (λ u. u.id == id && u.is_active) rows ≡ none
active-none id [] e = refl
active-none id (u ∷ rows) e = ground (arith, active-none id rows)

active-found :
    (id : ℕ) (rows : List User) (u : User)
    → find user_key id rows ≡ some u
    → u.is_active ≡ true
    → first (λ v. v.id == id && v.is_active) rows ≡ some u
active-found id [] u e a = ground arith
active-found id (v ∷ rows) u e a = ground (arith, active-found id rows u)

added-found :
    (rows : List User) (v : User)
    → find user_key v.id rows ≡ none
    → find user_key v.id (rows ++ v ∷ []) ≡ some v
added-found rows v e = ground (arith, first-append (λ (u : User). u.id == v.id) rows (v ∷ []))

added-inactive :
    (rows : List User) (v : User)
    → find user_key v.id rows ≡ none
    → v.is_active ≡ false
    → first (λ u. u.id == v.id && u.is_active) (rows ++ v ∷ []) ≡ none
added-inactive rows v e a = ground (
  arith,
  active-none v.id rows e,
  first-append (λ (u : User). u.id == v.id && u.is_active) rows (v ∷ []),
)

-- The row of an activated user.
abbrev pub onboarded_row : User → User
onboarded_row u = activated (reset_row true u)

-- What activation does to the tables.
abbrev pub activate_in : ℕ → Db → Db
activate_in id db = update_user id activated (update_user id (reset_row true) db)

activated-found :
    (id : ℕ) (db : Db) (u : User)
    → get_user id db ≡ some u
    → get_user id (activate_in id db) ≡ some (onboarded_row u)
activated-found id db u e = ground (
  arith,
  find-modify user_key id id (reset_row true) db.users (λ r. refl),
  find-modify user_key id id activated (modify user_key id (reset_row true) db.users) (λ r. refl),
)

pub token-decodes :
    {Token : Type 0} (jwt : Jwt Token) (key : Key) (now : ℕ) (p : Payload)
    → IsJwt jwt
    → leb p.exp now ≡ false
    → jwt.decode key now (jwt.encode key p) ≡ Decoded.valid p
token-decodes jwt key now p h e = rw (h key now p, e) refl

current-none :
    {Token : Type 0} (jwt : Jwt Token) (s : TokenSettings) (t now id : ℕ) (db : Db)
    → IsJwt jwt
    → leb (t + s.access_expiration) now ≡ false
    → get_active_user id db ≡ none
    → get_current_user jwt now (some (create_access_token jwt s t id)) db
      ≡ err (Error.not_found "User not found")
unfolding get_current_user
current-none jwt s t now id db h e g =
    rw
      (
        token-decodes jwt Key.signing_key now
            (token_payload id cookie_access_name t s.access_expiration) h e,
        g,
      )
      refl

current-found :
    {Token : Type 0} (jwt : Jwt Token) (s : TokenSettings) (t now id : ℕ) (db : Db) (u : User)
    → IsJwt jwt
    → leb (t + s.access_expiration) now ≡ false
    → get_active_user id db ≡ some u
    → check_status u ≡ ok tt
    → get_current_user jwt now (some (create_access_token jwt s t id)) db ≡ ok u
unfolding get_current_user
current-found jwt s t now id db u h e g c =
    rw
      (
        token-decodes jwt Key.signing_key now
            (token_payload id cookie_access_name t s.access_expiration) h e,
        g,
        c,
      )
      refl

activate-token :
    {Token : Type 0} (ctx : Context) (jwt : Jwt Token) (s : TokenSettings) (t id : ℕ) (db : Db)
    (u : User)
    → IsJwt jwt
    → leb (t + s.activation_expiration) ctx.now ≡ false
    → get_user id db ≡ some u
    → u.id ≡ id
    → u.is_active ≡ false
    → activate_user_account ctx jwt (create_activation_token jwt s t id) db
      ≡ (ok id, activate_in id db)
unfolding activate_user_account reset_user_state
activate-token ctx jwt s t id db u h e g same a =
    let decodes =
      token-decodes jwt Key.jwt_secret_key ctx.now
        (token_payload id "activation" t s.activation_expiration) h e in
    ground (arith, decodes)

-- Where PyJWT keeps its promise: a registration under an unused id, without a clash of the UNIQUE
-- columns and with its e-mail sent, returns that id. Its user is not let in, whatever access token
-- there is. The link that was sent activates the user until it expires, and then an access token
-- that has not expired lets the user in.
pub create_user-onboards :
    {Token : Type 0} (ctx later : Context) (jwt : Jwt Token) (s : TokenSettings)
    (hash : String → String) (username : String) (d : UserCreate) (t now : ℕ) (db : Db)
    → IsJwt jwt
    → get_user ctx.new_id db ≡ none
    → clashes (new_user ctx hash username d) db ≡ false
    → leb (ctx.now + s.activation_expiration) later.now ≡ false
    → leb (t + s.access_expiration) now ≡ false
    → let v = new_user ctx hash username d in
      let registered = add_user v db in
      let token = some (create_access_token jwt s t ctx.new_id) in
      let link = create_activation_token jwt s ctx.now ctx.new_id in
      (create_user ctx hash username true d db ≡ (ok ctx.new_id, registered))
      × (get_current_user jwt now token registered ≡ err (Error.not_found "User not found"))
      × (activate_user_account later jwt link registered
          ≡ (ok ctx.new_id, activate_in ctx.new_id registered))
      × (get_current_user jwt now token (activate_in ctx.new_id registered) ≡ ok (onboarded_row v))
unfolding create_user
create_user-onboards ctx later jwt s hash username d t now db h fresh clash link_valid token_valid =
    let v = new_user ctx hash username d in
    let registered = add_user v db in
    let found : get_user ctx.new_id registered ≡ some v = added-found db.users v fresh in
    let hidden : get_active_user ctx.new_id registered ≡ none =
      added-inactive db.users v fresh refl in
    (
      rw clash refl,
      current-none jwt s t now ctx.new_id registered h token_valid hidden,
      activate-token later jwt s ctx.now ctx.new_id registered v h link_valid found refl refl,
      current-found jwt s t now ctx.new_id (activate_in ctx.new_id registered) (onboarded_row v) h
          token_valid
          (active-found ctx.new_id (activate_in ctx.new_id registered).users (onboarded_row v)
            (activated-found ctx.new_id registered v found) refl)
          refl,
    )
