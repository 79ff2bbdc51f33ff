-- ===== src/RateLimit/Windows.antt =====
-- How many requests the limit lets through.
use bank_fastapi.Prelude.{
  ◌⊎◌, ℕ, suc, ◌+◌, ◌-◌, ◌*◌, ◌≤◌, ◌<◌, ◌≡◌, refl, true, false, not, inl, inr, Bool-cases, none,
  some, List, [], ◌∷◌, String, eq_iff, arith, leb, ltb,
}
use bank_fastapi.Prelude.Rows.Counts.{one_if}
use bank_fastapi.RateLimit.{
  Verdict, RateLimitConfig, Counter, Redis, live_counter, current_count, counted, set_counter,
  check_rate_limit,
}

-- A request with Redis up whose three commands no other request interrupts.
abbrev pub check_alone : RateLimitConfig → ℕ → String → Redis → Verdict × Redis
check_alone config now key redis = check_rate_limit config true now key redis redis redis

-- The requests at `times` that pass, one after another, with one counter.
abbrev pub passed : RateLimitConfig → String → List ℕ → Redis → ℕ
passed config key [] redis = 0
passed config key (now ∷ times) redis =
    let answer = check_alone config now key redis in
    one_if (not answer.0.is_limited) + passed config key times answer.1

-- The times are in order, from `low` on and before `high`.
abbrev pub Ordered : ℕ → ℕ → List ℕ → Type 0
Ordered low high [] = Unit
Ordered low high (t ∷ times) = (low ≤ t) × (t < high) × Ordered t high times

-- A counter that SETEX has made has an expiry.
abbrev pub counter : ℕ → ℕ → Counter
counter n e = record { count = n; expires_at = some e }

set_counter_self :
    (key : String) (c : Counter) (redis : Redis) → set_counter key c redis key ≡ some c
set_counter_self key c redis = ground (arith, eq_iff key key)

-- One request, by the counter of its key.
passed-limited :
    (config : RateLimitConfig) (key : String) (now : ℕ) (times : List ℕ) (redis : Redis)
    → leb config.max_requests (current_count (live_counter now (redis key))) ≡ true
    → passed config key (now ∷ times) redis ≡ passed config key times redis
unfolding check_rate_limit
passed-limited config key now times redis e = ground arith

passed-counted :
    (config : RateLimitConfig) (key : String) (now : ℕ) (times : List ℕ) (redis : Redis)
    → leb config.max_requests (current_count (live_counter now (redis key))) ≡ false
    → passed config key (now ∷ times) redis
      ≡ suc (
          passed config key times (
            set_counter key
              (counted config now (live_counter now (redis key)) (live_counter now (redis key)))
              redis))
unfolding check_rate_limit
passed-counted config key now times redis e = ground arith

-- Before the counter expires, what it has left passes.
passed-live :
    (config : RateLimitConfig) (key : String) (low n e : ℕ) (times : List ℕ) (redis : Redis)
    → redis key ≡ some (counter n e)
    → Ordered low e times
    → passed config key times redis ≤ config.max_requests - n
passed-live config key low n e [] redis here o = omega arith
passed-live config key low n e (t ∷ times) redis here o =
    let live : live_counter t (redis key) ≡ some (counter n e) = ground arith in
    elim (Bool-cases (leb config.max_requests n)) [
      | inl full ↦
          let step = passed-limited config key t times redis (rw live full) in
          ground (arith, step, passed-live config key t n e times redis here o.2)
      | inr room ↦
          let step = passed-counted config key t times redis (rw live room) in
          let next = set_counter key (counter (suc n) e) redis in
          let rest =
            passed-live config key t (suc n) e times next
              (set_counter_self key (counter (suc n) e) redis) o.2 in
          rw (step, live) (ground (arith, rest))
    ]

Ordered-widen :
    (low high more : ℕ) (times : List ℕ)
    → high ≤ more
    → Ordered low high times
    → Ordered low more times
Ordered-widen low high more [] h o = tt
Ordered-widen low high more (t ∷ times) h o =
    (o.0, omega arith, Ordered-widen t high more times h o.2)

-- Once there is no counter, a window's worth passes before a window has gone by.
passed-dead :
    (config : RateLimitConfig) (key : String) (low high : ℕ) (times : List ℕ) (redis : Redis)
    → ((t : ℕ) → low ≤ t → live_counter t (redis key) ≡ none)
    → high ≤ low + config.window_seconds
    → Ordered low high times
    → passed config key times redis ≤ config.max_requests
passed-dead config key low high [] redis dead h o = omega arith
passed-dead config key low high (t ∷ times) redis dead h o =
    let gone : live_counter t (redis key) ≡ none = dead t o.0 in
    elim (Bool-cases (leb config.max_requests 0)) [
      | inl full ↦
          let step = passed-limited config key t times redis (rw gone full) in
          let later : (u : ℕ) → t ≤ u → live_counter u (redis key) ≡ none =
            λ u k. dead u (omega arith) in
          let rest = passed-dead config key t high times redis later (omega arith) o.2 in
          rw step rest
      | inr room ↦
          let step = passed-counted config key t times redis (rw gone room) in
          let end = t + config.window_seconds in
          let next = set_counter key (counter 1 end) redis in
          let rest =
            passed-live config key t 1 end times next (set_counter_self key (counter 1 end) redis)
              (Ordered-widen t high end times (omega arith) o.2) in
          rw (step, gone) (ground (arith, rest))
    ]

expired-dead :
    (n e low : ℕ) → e ≤ low → (t : ℕ) → low ≤ t → live_counter t (some (counter n e)) ≡ none
expired-dead n e low h t k = ground arith

-- From a counter at `n`: what it has left, and a window's worth more.
passed-counter :
    (config : RateLimitConfig) (key : String) (low high n e : ℕ) (times : List ℕ) (redis : Redis)
    → redis key ≡ some (counter n e)
    → high ≤ low + config.window_seconds
    → Ordered low high times
    → passed config key times redis ≤ config.max_requests - n + config.max_requests
passed-counter config key low high n e [] redis here h o = omega arith
passed-counter config key low high n e (t ∷ times) redis here h o = elim (Bool-cases (ltb t e)) [
  | inl soon ↦
      let live : live_counter t (redis key) ≡ some (counter n e) = ground arith in
      elim (Bool-cases (leb config.max_requests n)) [
        | inl full ↦
            let step = passed-limited config key t times redis (rw live full) in
            let rest = passed-counter config key t high n e times redis here (omega arith) o.2 in
            rw step rest
        | inr room ↦
            let step = passed-counted config key t times redis (rw live room) in
            let rest =
              passed-counter config key t high (suc n) e times
                (set_counter key (counter (suc n) e) redis)
                (set_counter_self key (counter (suc n) e) redis) (omega arith) o.2 in
            rw (step, live) (ground (arith, rest))
      ]
  | inr late ↦
      let over : e ≤ t = ground arith in
      let gone : (u : ℕ) → t ≤ u → live_counter u (redis key) ≡ none =
        λ u k. rw here (expired-dead n e t over u k) in
      let rest =
        passed-dead config key t high (t ∷ times) redis gone (omega arith)
          (omega arith, o.1, o.2) in
      omega (arith, rest)
]

-- Every counter of the store was made by SETEX.
abbrev pub Expires : Redis → String → Type 0
Expires redis key = (redis key ≡ none) ⊎ ((n : ℕ) × (e : ℕ) × (redis key ≡ some (counter n e)))

-- The promise of a fixed window to requests whose Redis commands do not run between each other's:
-- where the counter of a key has an expiry if it is there, in any time of the length of a window at
-- most twice the limit of them pass, whenever in it they arrive.
pub passed-twice :
    (config : RateLimitConfig) (key : String) (low : ℕ) (times : List ℕ) (redis : Redis)
    → Expires redis key
    → Ordered low (low + config.window_seconds) times
    → passed config key times redis ≤ 2 * config.max_requests
passed-twice config key low times redis (inl none_yet) o =
    let gone : (t : ℕ) → low ≤ t → live_counter t (redis key) ≡ none = λ t k. rw none_yet refl in
    let rest =
      passed-dead config key low (low + config.window_seconds) times redis gone (omega arith) o in
    omega (arith, rest)
passed-twice config key low times redis (inr (n, e, here)) o =
    let rest =
      passed-counter config key low (low + config.window_seconds) n e times redis here (omega arith)
        o in
    omega (arith, rest)

-- The first window's worth of requests is never limited: after the expiry of the counter the next
-- request passes.
pub check_rate_limit-recovers :
    (config : RateLimitConfig) (key : String) (now : ℕ) (redis : Redis)
    → 0 < config.max_requests
    → live_counter now (redis key) ≡ none
    → ((check_alone config now key redis).0.is_limited ≡ false)
      × ((check_alone config now key redis).1 key ≡ some (counter 1 (now + config.window_seconds)))
unfolding check_rate_limit
check_rate_limit-recovers config key now redis h gone =
    let room : leb config.max_requests 0 ≡ false = ground arith in
    let self = set_counter_self key (counter 1 (now + config.window_seconds)) redis in
    rw (gone, room) (refl, self)

-- A counter without an expiry.
abbrev pub kept : ℕ → Counter
kept n = record { count = n; expires_at = none }

passed-kept :
    (config : RateLimitConfig) (key : String) (n : ℕ) (times : List ℕ) (redis : Redis)
    → redis key ≡ some (kept n)
    → passed config key times redis ≤ config.max_requests - n
passed-kept config key n [] redis here = omega arith
passed-kept config key n (t ∷ times) redis here =
    let live : live_counter t (redis key) ≡ some (kept n) = ground (arith, here) in
    elim (Bool-cases (leb config.max_requests n)) [
      | inl full ↦
          let step = passed-limited config key t times redis (rw live full) in
          ground (arith, step, passed-kept config key n times redis here)
      | inr room ↦
          let step = passed-counted config key t times redis (rw live room) in
          let rest =
            passed-kept config key (suc n) times (set_counter key (kept (suc n)) redis)
              (set_counter_self key (kept (suc n)) redis) in
          rw (step, live) (ground (arith, rest))
    ]

-- A request that passes and whose key expires between its TTL and its INCR: from then on the counter
-- never expires, and of all later requests, one after another at whatever times, fewer than the
-- limit pass, for ever.
pub check_rate_limit-keeps :
    (config : RateLimitConfig) (now : ℕ) (key : String) (got timed redis : Redis) (c : Counter)
    (times : List ℕ)
    → leb config.max_requests (current_count (live_counter now (got key))) ≡ false
    → live_counter now (timed key) ≡ some c
    → live_counter now (redis key) ≡ none
    → passed config key times (check_rate_limit config true now key got timed redis).1
      < config.max_requests
unfolding check_rate_limit
check_rate_limit-keeps config now key got timed redis c times room there gone =
    let rest =
      passed-kept config key 1 times (set_counter key (kept 1) redis)
        (set_counter_self key (kept 1) redis) in
    rw (room, there, gone) (ground (arith, rest))
