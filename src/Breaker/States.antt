-- ===== src/Breaker/States.antt =====
-- The reachable states of a breaker, and what its gate lets through.
use bank_fastapi.Prelude.{
  ℕ, zero, suc, ◌+◌, ◌-◌, ◌≤◌, ◌<◌, ◌≡◌, ◌||◌, refl, true, none, some, arith, leb, if◌then◌else◌,
}
use bank_fastapi.Breaker.{
  CircuitState, BreakerSettings, CircuitBreaker, new_breaker, begin_call, record_success,
  record_failure, is_half_open,
}

-- The steps of concurrent calls, in any order: a call may end long after others have begun.
pub data BreakerStep (s : BreakerSettings) (b : CircuitBreaker) : CircuitBreaker → Type 0 where
  begins : (now : ℕ) (b' : CircuitBreaker) → begin_call s now b ≡ some b' → BreakerStep s b b'
  succeeds : BreakerStep s b (record_success b)
  fails : (now : ℕ) → BreakerStep s b (record_failure s now b)

pub data BreakerReach (s : BreakerSettings) : CircuitBreaker → Type 0 where
  fresh : BreakerReach s new_breaker
  step : {b b' : CircuitBreaker} → BreakerReach s b → BreakerStep s b b' → BreakerReach s b'

-- A closed breaker has seen fewer failures in a row than the threshold.
abbrev pub IsCalm : BreakerSettings → CircuitBreaker → Type 0
IsCalm s b = elim b.state [
  | CircuitState.closed ↦ b.consecutive_failures < s.failure_threshold
  | _ ↦ Unit {0}
]

BreakerStep-IsCalm :
    (s : BreakerSettings) (b b' : CircuitBreaker)
    → 0 < s.failure_threshold
    → BreakerStep s b b'
    → IsCalm s b
    → IsCalm s b'
unfolding begin_call record_success record_failure
BreakerStep-IsCalm s b b' some_failures (begins now c e) calm = ground arith
BreakerStep-IsCalm s b b' some_failures succeeds calm = some_failures
BreakerStep-IsCalm s b b' some_failures (fails now) calm = ground arith

-- However calls begin, succeed and fail, with a threshold above zero: a breaker that is closed has
-- recorded fewer failures in a row than its threshold.
pub BreakerReach-IsCalm :
    (s : BreakerSettings) (b : CircuitBreaker)
    → 0 < s.failure_threshold
    → BreakerReach s b
    → IsCalm s b
BreakerReach-IsCalm s b some_failures fresh = some_failures
BreakerReach-IsCalm s b some_failures (step {b = c} r t) =
    BreakerStep-IsCalm s c b some_failures t (BreakerReach-IsCalm s c some_failures r)

abbrev pub failures_in_a_row : BreakerSettings → ℕ → ℕ → CircuitBreaker → CircuitBreaker
failures_in_a_row s now zero b = b
failures_in_a_row s now (suc n) b = record_failure s now (failures_in_a_row s now n b)

-- The states after failures in a row from a new breaker: closed below the threshold, open from it
-- on, and every failure is counted.
pub record_failure-threshold :
    (s : BreakerSettings) (now n : ℕ)
    → 0 < s.failure_threshold
    → ((failures_in_a_row s now n new_breaker).consecutive_failures ≡ n)
      × ((failures_in_a_row s now n new_breaker).state
          ≡ (if leb s.failure_threshold n then CircuitState.opened else CircuitState.closed))
unfolding record_failure
record_failure-threshold s now zero some_failures = ground arith
record_failure-threshold s now (suc n) some_failures =
    ground (arith, record_failure-threshold s now n some_failures)

-- After a failure that opens the breaker, a failed trial call or one that reaches the threshold, no
-- call begins until the cool-down has passed.
pub record_failure-rejects :
    (s : BreakerSettings) (b : CircuitBreaker) (now later : ℕ)
    → (is_half_open b.state || leb s.failure_threshold (b.consecutive_failures + 1)) ≡ true
    → later - now < s.recovery_seconds
    → begin_call s later (record_failure s now b) ≡ none
unfolding begin_call record_failure
record_failure-rejects s b now later trips early = ground arith

-- When the cool-down of an open breaker has passed, a call begins and makes it half-open, and until
-- one of them ends every later call begins too: there may be many trial calls at once.
pub begin_call-trials :
    (s : BreakerSettings) (b : CircuitBreaker) (now later : ℕ)
    → b.state ≡ CircuitState.opened
    → s.recovery_seconds ≤ now - b.opened_at
    → (trial : CircuitBreaker) × (begin_call s now b ≡ some trial)
      × (trial.state ≡ CircuitState.half_open)
      × (begin_call s later trial ≡ some trial)
unfolding begin_call
begin_call-trials s b now later e late =
    (record b { state = CircuitState.half_open }, ground arith, refl, refl)
