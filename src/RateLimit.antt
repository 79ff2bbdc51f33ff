-- ===== src/RateLimit.antt =====
-- core/rate_limit/middleware.py and config.py: the rate limit of the requests. Redis is a store of
-- counters with an expiry; its clock and the server's are one. JWT decoding only names the counter
-- of a request, so the key is an argument.
pub mod Windows
pub mod Middleware
pub mod Requests
use bank_fastapi.Prelude.{
  ℕ, suc, ◌+◌, ◌-◌, Bool, true, false, Option, none, some, List, [], ◌∷◌, ◌++◌, String, str_eq, leb,
  ltb, if◌then◌else◌,
}

pub record RateLimitConfig : Type 0 where
  pub max_requests : ℕ
  pub window_seconds : ℕ
  pub block_on_exceed : Bool

-- A counter in Redis; without `expires_at` it never expires.
pub record Counter : Type 0 where
  pub count : ℕ
  pub expires_at : Option ℕ

-- The keys are texts.
abbrev pub Redis : Type 0
Redis = String → Option Counter

-- Whether a counter is still there.
abbrev pub is_live : ℕ → Counter → Bool
is_live now c = elim c.expires_at [ none ↦ true | some e ↦ ltb now e ]

abbrev pub live_counter : ℕ → Option Counter → Option Counter
live_counter now none = none
live_counter now (some c) = if is_live now c then some c else none

-- GET, with `or 0`
abbrev pub current_count : Option Counter → ℕ
current_count none = 0
current_count (some c) = c.count

-- The pipeline, by what TTL has found and what is there when the pipeline runs: SETEX where TTL found
-- nothing; else INCR, which keeps the expiry of a counter, and makes one without an expiry of a key
-- that is gone by then.
abbrev pub counted : RateLimitConfig → ℕ → Option Counter → Option Counter → Counter
counted config now none here = record { count = 1; expires_at = some (now + config.window_seconds) }
counted config now (some c) none = record { count = 1; expires_at = none }
counted config now (some c) (some here) = record here { count = suc here.count }

abbrev pub set_counter : String → Counter → Redis → Redis
set_counter key c redis k = if str_eq k key then some c else redis k

-- `block_until`: the end of the window, or a whole window where the counter never expires.
abbrev pub block_until : RateLimitConfig → ℕ → Option Counter → Option ℕ
block_until config now none = some (now + config.window_seconds)
block_until config now (some c) = elim c.expires_at [
  | none ↦ some (now + config.window_seconds)
  | some e ↦ some e
]

-- Whether the request is limited, the count, and until when it is blocked.
pub record Verdict : Type 0 where
  pub is_limited : Bool
  pub count : Option ℕ
  pub blocked_until : Option ℕ

-- `redis_up` tells whether Redis answers; if not, the request passes. GET, TTL and the pipeline are
-- three commands, and those of other requests may run between them: `got` and `timed` are the stores
-- that the first two have read, `redis` is the one that the pipeline finds. The three commands of a
-- request share the second `now`.
unfoldable pub check_rate_limit :
    RateLimitConfig → Bool → ℕ → String → Redis → Redis → Redis → Verdict × Redis
check_rate_limit config redis_up now key got timed redis =
    let n = current_count (live_counter now (got key)) in
    let ttl = live_counter now (timed key) in
    if redis_up
    then (if leb config.max_requests n
        then (
          record {
            is_limited = true;
            count = some n;
            blocked_until = if config.block_on_exceed then block_until config now ttl else none;
          },
          redis,
        )
        else (
          record { is_limited = false; count = some (suc n); blocked_until = none },
          set_counter key (counted config now ttl (live_counter now (redis key))) redis,
        ))
    else (record { is_limited = false; count = none; blocked_until = none }, redis)
