-- ===== src/Breaker.antt =====
-- core/resilience.py: `CircuitBreaker`. A call is two steps under the breaker's lock, the gate and
-- the record of how the call ended; other calls run between them.
pub mod States
use bank_fastapi.Prelude.{
  ℕ, suc, ◌+◌, ◌-◌, Bool, true, false, ◌||◌, Option, none, some, leb, ltb, if◌then◌else◌,
}

pub data CircuitState : Type 0 where
  closed opened half_open : CircuitState

-- The threshold and the cool-down, in seconds of a monotonic clock.
pub record BreakerSettings : Type 0 where
  pub failure_threshold : ℕ
  pub recovery_seconds : ℕ

pub record CircuitBreaker : Type 0 where
  pub state : CircuitState
  pub consecutive_failures : ℕ
  pub opened_at : ℕ

-- `CircuitBreaker.__init__`
abbrev pub new_breaker : CircuitBreaker
new_breaker = record { state = CircuitState.closed; consecutive_failures = 0; opened_at = 0 }

-- The first block of `call`: `none` is CircuitOpenError. The clock does not run back, so the
-- difference is not below zero.
unfoldable pub begin_call : BreakerSettings → ℕ → CircuitBreaker → Option CircuitBreaker
begin_call s now b = elim b.state [
  | CircuitState.opened ↦
      if ltb (now - b.opened_at) s.recovery_seconds
      then none
      else some (record b { state = CircuitState.half_open })
  | _ ↦ some b
]

unfoldable pub record_success : CircuitBreaker → CircuitBreaker
record_success b = record b { state = CircuitState.closed; consecutive_failures = 0 }

abbrev pub is_half_open : CircuitState → Bool
is_half_open CircuitState.half_open = true
is_half_open _ = false

unfoldable pub record_failure : BreakerSettings → ℕ → CircuitBreaker → CircuitBreaker
record_failure s now b =
    let failures = b.consecutive_failures + 1 in
    if is_half_open b.state || leb s.failure_threshold failures
    then record { state = CircuitState.opened; consecutive_failures = failures; opened_at = now }
    else record b { consecutive_failures = failures }
