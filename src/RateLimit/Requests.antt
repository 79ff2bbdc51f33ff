-- ===== src/RateLimit/Requests.antt =====
-- What the middleware does with a request.
use bank_fastapi.Prelude.{
  ℕ, ◌≡◌, refl, Bool, true, false, ◌&&◌, Option, String, arith, leb, inl, inr, Bool-cases,
}
use bank_fastapi.Core.{Error, Result, ok, err, Result-cases}
use bank_fastapi.RateLimit.{RateLimitConfig, Redis, live_counter, current_count, check_rate_limit}
use bank_fastapi.RateLimit.Middleware.{
  forward, Server, Answer, Headers, is_whitelisted, get_limit_config, headers_of, dispatch,
}

-- The counter of the request has reached the limit of its endpoint.
abbrev pub is_over : ℕ → String → String → Redis → Bool
is_over now endpoint key redis =
    leb (get_limit_config endpoint).max_requests (current_count (live_counter now (redis key)))

verdict-passes :
    (config : RateLimitConfig) (redis_up : Bool) (now : ℕ) (key : String) (got timed redis : Redis)
    → (redis_up && leb config.max_requests (current_count (live_counter now (got key)))) ≡ false
    → (check_rate_limit config redis_up now key got timed redis).0.is_limited ≡ false
unfolding check_rate_limit
verdict-passes config redis_up now key got timed redis e = ground arith

forward-app :
    {S R : Type 0} (call_next : S → Result R × S) (mark : R → Answer R) (server : Server S)
    → (forward call_next mark server).1.app ≡ (call_next server.app).1
forward-app call_next mark server = elim (Result-cases (call_next server.app).0) [
  | inl (e, r) ↦ rw (forward, r) refl
  | inr (x, r) ↦ rw (forward, r) refl
]

forward-raises :
    {S R : Type 0} (call_next : S → Result R × S) (mark : R → Answer R) (server : Server S)
    (e : Error) (app : S)
    → call_next server.app ≡ (err e, app)
    → forward call_next mark server ≡ (err e, record server { app = app })
forward-raises call_next mark server e app raises = rw (forward, raises, raises) refl

-- A request over the limit of an endpoint that is not exempt, with Redis up and the violation
-- logged: the answer is 429, the application is not called, and no counter changes.
pub dispatch-limited :
    {S R : Type 0} (call_next call_again : S → Result R × S) (now : ℕ) (endpoint key : String)
    (got timed : Redis) (server : Server S)
    → is_whitelisted endpoint ≡ false
    → is_over now endpoint key got ≡ true
    → let done = dispatch call_next call_again true true now endpoint key got timed server in
      (h : Headers) × (r : Option ℕ) × (done.0 ≡ ok (Answer.too_many h r))
      × (done.1.app ≡ server.app)
      × (done.1.redis ≡ server.redis)
unfolding dispatch check_rate_limit
dispatch-limited call_next call_again now endpoint key got timed server w over =
    rw (w, over) (_, _, refl, refl, refl)

-- A request that is let through and whose application raises is given to the application again,
-- in the state that the first call has left, whatever that was.
pub dispatch-again :
    {S R : Type 0} (call_next call_again : S → Result R × S) (redis_up logs : Bool) (now : ℕ)
    (endpoint key : String) (got timed : Redis) (server : Server S) (e : Error) (app : S)
    → (redis_up && is_over now endpoint key got) ≡ false
    → call_next server.app ≡ (err e, app)
    → (dispatch call_next call_again redis_up logs now endpoint key got timed server).1.app
      ≡ (call_again app).1
unfolding dispatch
dispatch-again call_next call_again redis_up logs now endpoint key got timed server e app passes
      raises =
    elim (Bool-cases (is_whitelisted endpoint)) [
      | inl w ↦
          rw (w, forward-raises call_next Answer.unlimited server e app raises)
            (forward-app call_again Answer.unmarked (record server { app = app }))
      | inr w ↦
          let config = get_limit_config endpoint in
          let checked = check_rate_limit config redis_up now key got timed server.redis in
          let free : checked.0.is_limited ≡ false =
            verdict-passes config redis_up now key got timed server.redis passes in
          rw
            (
              w,
              free,
              forward-raises call_next (Answer.passed (headers_of config now checked.0))
                  (record server { redis = checked.1 }) e app raises,
            )
            (forward-app call_again Answer.unmarked
              (record server { redis = checked.1; app = app }))
    ]

-- A request over the limit is given to the application all the same if the violation cannot be
-- logged.
pub dispatch-unlogged :
    {S R : Type 0} (call_next call_again : S → Result R × S) (now : ℕ) (endpoint key : String)
    (got timed : Redis) (server : Server S)
    → is_whitelisted endpoint ≡ false
    → is_over now endpoint key got ≡ true
    → (dispatch call_next call_again true false now endpoint key got timed server).1.app
      ≡ (call_again server.app).1
unfolding dispatch check_rate_limit
dispatch-unlogged call_next call_again now endpoint key got timed server w over =
    rw (w, over) (forward-app call_again Answer.unmarked server)
