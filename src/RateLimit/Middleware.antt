-- ===== src/RateLimit/Middleware.antt =====
-- core/rate_limit: the limits of the endpoints and `dispatch` of the middleware. The application
-- behind it is `call_next`, a function on its own state that returns a response or raises.
use bank_fastapi.Prelude.{
  ℕ, ◌+◌, ◌-◌, Bool, true, false, Option, none, some, List, [], ◌∷◌, ◌++◌, String, str_eq,
  if◌then◌else◌,
}
use bank_fastapi.Core.{Error, Result, ok, err}
use bank_fastapi.RateLimit.{RateLimitConfig, Redis, Verdict, check_rate_limit}

abbrev pub blocking : ℕ → ℕ → RateLimitConfig
blocking n seconds = record { max_requests = n; window_seconds = seconds; block_on_exceed = true }

-- `DEFAULT_RATE_LIMITS["default"]`
abbrev pub default_config : RateLimitConfig
default_config = record { max_requests = 100; window_seconds = 60; block_on_exceed = false }

abbrev pub default_rate_limits : List (String × RateLimitConfig)
default_rate_limits =
    ("/api/v1/auth/login/request-otp", blocking 10 300)
    ∷ ("/api/v1/auth/register", blocking 3 3600)
    ∷ ("/api/v1/auth/reset-password", blocking 3 3600)
    ∷ ("/api/v1/bank-account/transfer/initiate", blocking 10 3600)
    ∷ ("/api/v1/bank-account/withdraw", blocking 10 3600)
    ∷ ("/api/v1/bank-account/deposit", blocking 20 3600)
    ∷ ("/api/v1/virtual-card/create", blocking 5 86400)
    ∷ ("/api/v1/virtual-card/top-up", blocking 20 3600)
    ∷ ("/api/v1/profile/upload", blocking 10 3600)
    ∷ ("/api/v1/bank-account/statement/generate", blocking 5 3600)
    ∷ ("/health", record { max_requests = 500; window_seconds = 60; block_on_exceed = false })
    ∷ ("default", default_config)
    ∷ []

-- `d.get(endpoint, d["default"])`
abbrev pub config_in : List (String × RateLimitConfig) → String → RateLimitConfig
config_in [] endpoint = default_config
config_in ((path, c) ∷ rest) endpoint = if str_eq path endpoint then c else config_in rest endpoint

abbrev pub get_limit_config : String → RateLimitConfig
get_limit_config = config_in default_rate_limits

-- `endpoint in RATE_LIMIT_WHITELIST`
abbrev pub is_whitelisted : String → Bool
is_whitelisted endpoint = str_eq endpoint "/health"

-- A row of `RateLimitLog`; who asked and how are left out.
pub record RateLimitLog : Type 0 where
  pub endpoint : String
  pub request_count : ℕ
  pub window_start : ℕ
  pub window_end : ℕ
  pub blocked_until : Option ℕ

pub record Headers : Type 0 where
  pub limit : ℕ
  pub remaining : ℕ
  pub reset : ℕ

-- The response of the application, with the headers that are set on it, or the answer 429 with
-- `Retry-After` if the block has an end.
pub data Answer (R : Type 0) : Type 0 where
  unlimited : R → Answer R
  passed : Headers → R → Answer R
  too_many : Headers → Option ℕ → Answer R
  unmarked : R → Answer R

pub record Server (S : Type 0) : Type 0 where
  pub redis : Redis
  pub log : List RateLimitLog
  pub app : S

abbrev pub or_zero : Option ℕ → ℕ
or_zero none = 0
or_zero (some n) = n

abbrev pub headers_of : RateLimitConfig → ℕ → Verdict → Headers
headers_of config now v = record {
  limit = config.max_requests;
  remaining = config.max_requests - or_zero v.count;
  reset = now + config.window_seconds;
}

abbrev pub window_end_of : ℕ → Option ℕ → ℕ
window_end_of now none = now + 3600
window_end_of now (some t) = t

abbrev pub violation : String → ℕ → Verdict → RateLimitLog
violation endpoint now v = record {
  endpoint = endpoint;
  request_count = or_zero v.count;
  window_start = now;
  window_end = window_end_of now v.blocked_until;
  blocked_until = v.blocked_until;
}

abbrev pub retry_after : RateLimitConfig → Option ℕ → Option ℕ
retry_after config none = none
retry_after config (some t) = some config.window_seconds

-- `call_next(request)`, its response in an answer.
abbrev pub forward :
    {S R : Type 0} → (S → Result R × S) → (R → Answer R) → Server S → Result (Answer R) × Server S
forward call mark server =
    let (r, app) = call server.app in
    elim r [
      | ok x ↦ (ok (mark x), record server { app = app })
      | err e ↦ (err e, record server { app = app })
    ]

-- `call_again` is `call_next` at the same request for a second time, when its body has been read.
module _ {S R : Type 0} (call_next call_again : S → Result R × S) where
  -- The `except Exception` around everything: `return await call_next(request)`.
  abbrev pub or_forward : Result (Answer R) × Server S → Result (Answer R) × Server S
  or_forward (ok a, server) = (ok a, server)
  or_forward (err e, server) = forward call_again Answer.unmarked server

  -- The `if is_limited` branch and the call behind it; `logs` tells whether the row of the log is
  -- committed.
  abbrev pub answer_verdict :
      RateLimitConfig → Bool → ℕ → String → Verdict → Server S → Result (Answer R) × Server S
  answer_verdict config logs now endpoint v server =
      if v.is_limited
      then (if logs
          then (
            ok (Answer.too_many (headers_of config now v) (retry_after config v.blocked_until)),
            record server { log = server.log ++ violation endpoint now v ∷ [] },
          )
          else (err (Error.system_error "log"), server))
      else forward call_next (Answer.passed (headers_of config now v)) server

  -- `got` and `timed` are what GET and TTL read, as in `check_rate_limit`.
  unfoldable pub dispatch :
      Bool → Bool → ℕ → String → String → Redis → Redis → Server S → Result (Answer R) × Server S
  dispatch redis_up logs now endpoint key got timed server =
      if is_whitelisted endpoint
      then or_forward (forward call_next Answer.unlimited server)
      else (let config = get_limit_config endpoint in
          let (v, redis) = check_rate_limit config redis_up now key got timed server.redis in
          or_forward (answer_verdict config logs now endpoint v (record server { redis = redis })))
