-- ===== src/Auth/Tokens.antt =====
-- auth/utils.py: the payloads of the JWTs. Signing and decoding are PyJWT's and are parameters:
-- `Jwt`, and so is the type of tokens. The names of the cookies are the
-- defaults of core/config.py, which are also token types.
use bank_fastapi.Prelude.{
  refl, inr, inl, ◌⊎◌, ℕ, ◌+◌, ◌≡◌, Option, some, String, leb, if◌then◌else◌,
}

-- `settings.JWT_SECRET_KEY` and `settings.SIGNING_KEY`
pub data Key : Type 0 where
  jwt_secret_key signing_key : Key

-- `exp` is in seconds; the claim `iat` is never read.
pub record Payload : Type 0 where
  pub id : Option ℕ
  pub token_type : String
  pub exp : ℕ

-- How `jwt.decode` ends: the payload, an ExpiredSignatureError or another InvalidTokenError.
pub data Decoded : Type 0 where
  valid : Payload → Decoded
  expired invalid : Decoded

pub Decoded-cases :
    (d : Decoded)
    → ((p : Payload) × (d ≡ Decoded.valid p)) ⊎ ((d ≡ Decoded.expired) ⊎ (d ≡ Decoded.invalid))
Decoded-cases (Decoded.valid p) = inl (p, refl)
Decoded-cases Decoded.expired = inr (inl refl)
Decoded-cases Decoded.invalid = inr (inr refl)

-- `decode key now token`
pub record Jwt (Token : Type 0) : Type 0 where
  pub encode : Key → Payload → Token
  pub decode : Key → ℕ → Token → Decoded

-- What PyJWT documents: with its own key a token decodes to its payload before `exp`, and is
-- expired from then on.
abbrev pub IsJwt : {Token : Type 0} → Jwt Token → Type 0
IsJwt jwt =
    (key : Key) (now : ℕ) (p : Payload)
    → jwt.decode key now (jwt.encode key p)
      ≡ (if leb p.exp now then Decoded.expired else Decoded.valid p)

-- `COOKIE_ACCESS_NAME` and `COOKIE_REFRESH_NAME`
abbrev pub cookie_access_name : String
cookie_access_name = "access_token"

abbrev pub cookie_refresh_name : String
cookie_refresh_name = "refresh_token"

-- How long the tokens live, in seconds.
pub record TokenSettings : Type 0 where
  pub activation_expiration : ℕ
  pub access_expiration : ℕ
  pub refresh_expiration : ℕ
  pub password_reset_expiration : ℕ

abbrev pub token_payload : ℕ → String → ℕ → ℕ → Payload
token_payload id type now life = record { id = some id; token_type = type; exp = now + life }

abbrev pub create_activation_token : {Token : Type 0} → Jwt Token → TokenSettings → ℕ → ℕ → Token
create_activation_token jwt s now id =
    jwt.encode Key.jwt_secret_key (token_payload id "activation" now s.activation_expiration)

abbrev pub create_password_reset_token :
    {Token : Type 0} → Jwt Token → TokenSettings → ℕ → ℕ → Token
create_password_reset_token jwt s now id =
    jwt.encode Key.jwt_secret_key
      (token_payload id "password_reset" now s.password_reset_expiration)

-- `create_jwt_token` with the access cookie's name, and with the refresh cookie's.
abbrev pub create_access_token : {Token : Type 0} → Jwt Token → TokenSettings → ℕ → ℕ → Token
create_access_token jwt s now id =
    jwt.encode Key.signing_key (token_payload id cookie_access_name now s.access_expiration)

abbrev pub create_refresh_token : {Token : Type 0} → Jwt Token → TokenSettings → ℕ → ℕ → Token
create_refresh_token jwt s now id =
    jwt.encode Key.signing_key (token_payload id cookie_refresh_name now s.refresh_expiration)
