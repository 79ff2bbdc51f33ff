-- ===== src/Health/Waiting.antt =====
-- core/health.py: `wait_for_services`, with its 30 seconds. Between two turns it sleeps for a
-- second, so a turn starts at least a second after the one before; `clock` is when each starts.
use bank_fastapi.Prelude.{
  ℕ, zero, suc, ◌+◌, ◌-◌, ◌<◌, ◌≤◌, ◌≡◌, refl, Bool, true, false, inl, inr, Bool-cases, String,
  List, arith, ltb,
}
use bank_fastapi.Health.{check_all_services}
use bank_fastapi.Health.Services.{Probe, HealthCheck, is_healthy}

abbrev pub wait_timeout : ℕ
wait_timeout = 30

module _ (clock : ℕ → ℕ) (probes : ℕ → List String → ℕ → Probe) (depth : ℕ) where
  -- The turns that are left, and the next one.
  abbrev pub wait_loop : ℕ → ℕ → HealthCheck → Bool × HealthCheck
  wait_loop zero turn h = (false, h)
  wait_loop (suc left) turn h = elim (ltb (clock turn - clock 0) wait_timeout) [
    | false ↦ (false, h)
    | true ↦
        let done = check_all_services (clock turn) (probes turn) depth h in
        elim (is_healthy done.0.overall) [
          | true ↦ (true, done.1)
          | false ↦ wait_loop left (turn + 1) done.1
        ]
  ]

  unfoldable pub wait_for_services : HealthCheck → Bool × HealthCheck
  wait_for_services h = wait_loop (wait_timeout + 1) 0 h

  wait_loop-enough :
      (left more turn : ℕ) (h : HealthCheck)
      → ((n : ℕ) → clock n < clock (n + 1))
      → clock 0 + wait_timeout < clock turn + left
      → left ≤ more
      → wait_loop more turn h ≡ wait_loop left turn h
  wait_loop-enough zero zero turn h grows enough le = refl
  wait_loop-enough zero (suc more) turn h grows enough le =
      let late : ltb (clock turn - clock 0) wait_timeout ≡ false = ground arith in
      rw (wait_loop, late) refl
  wait_loop-enough (suc left) zero turn h grows enough le = ground (arith, le)
  wait_loop-enough (suc left) (suc more) turn h grows enough le =
      let done = check_all_services (clock turn) (probes turn) depth h in
      elim (Bool-cases (ltb (clock turn - clock 0) wait_timeout)) [
        | inr late ↦ rw (wait_loop, late) refl
        | inl early ↦ elim (Bool-cases (is_healthy done.0.overall)) [
          | inl up ↦ rw (wait_loop, early, up) refl
          | inr down ↦
              rw (wait_loop, early, down)
                (wait_loop-enough left more (turn + 1) done.1 grows
                  (omega (arith, grows turn, enough)) (omega (arith, le)))
        ]
      ]

  -- The turns that the loop is given are enough: with more of them it ends the same, since the time
  -- is over by then.
  pub wait_for_services-ends :
      (turns : ℕ) (h : HealthCheck)
      → ((n : ℕ) → clock n < clock (n + 1))
      → wait_timeout + 1 ≤ turns
      → wait_loop turns 0 h ≡ wait_for_services h
  unfolding wait_for_services
  wait_for_services-ends turns h grows enough =
      wait_loop-enough (wait_timeout + 1) turns 0 h grows (omega arith) enough
