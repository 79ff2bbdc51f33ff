-- ===== src/Health/Verdicts.antt =====
-- What the route /health answers, and how a service is found healthy.
use bank_fastapi.Prelude.{
  ℕ, ◌-◌, ◌<◌, ◌≡◌, refl, ◌∙◌, ◌⊎◌, ◌↔◌, true, inl, inr, Bool-cases, none, some, List, [], ◌∷◌, map,
  String, arith,
}
use bank_fastapi.Prelude.Rows.{All}
use bank_fastapi.Core.{Result, ok, err}
use bank_fastapi.Health.{
  gather, check_all_services, cached_at, cache_duration, report_of, overall_of, result_is_healthy,
  health_check, answer_code, check_service_health,
}
use bank_fastapi.Health.Services.{
  ServiceStatus, Probe, Service, ServiceReport, HealthStatus, HealthCheck,
}

result_is_healthy_iff :
    (r : Result ServiceStatus) → (result_is_healthy r ≡ true) ↔ (r ≡ ok ServiceStatus.healthy)
result_is_healthy_iff (err e) = ground arith
result_is_healthy_iff (ok ServiceStatus.healthy) = ground arith
result_is_healthy_iff (ok ServiceStatus.unhealthy) = ground arith
result_is_healthy_iff (ok ServiceStatus.degraded) = ground arith
result_is_healthy_iff (ok ServiceStatus.starting) = ground arith
result_is_healthy_iff (ok ServiceStatus.down) = ground arith

abbrev pub AllHealthy : List ServiceReport → Type 0
AllHealthy reports = All (λ r. r.result ≡ ok ServiceStatus.healthy) reports

overall_of-degraded :
    (results : List (String × Result ServiceStatus))
    → overall_of results ServiceStatus.degraded ≡ ServiceStatus.degraded
overall_of-degraded [] = refl
overall_of-degraded (r ∷ rs) = elim (Bool-cases (result_is_healthy r.1)) [
  | inl e ↦ rw (overall_of, e) (overall_of-degraded rs)
  | inr e ↦ rw (overall_of, e) (overall_of-degraded rs)
]

-- The answers of a round: 200 with every service healthy, or 206.
abbrev pub Answers : ℕ → List ServiceReport → Type 0
Answers code reports = ((code ≡ 200) × AllHealthy reports) ⊎ ((code ≡ 206) × (¬ AllHealthy reports))

overall_of-Answers :
    (services : List Service) (results : List (String × Result ServiceStatus))
    → Answers
        (answer_code (overall_of results ServiceStatus.healthy))
        (map (report_of services) results)
overall_of-Answers services [] = inl (refl, tt)
overall_of-Answers services (r ∷ rs) = elim (Bool-cases (result_is_healthy r.1)) [
  | inl e ↦
      let healthy = (result_is_healthy_iff r.1).0 e in
      elim (overall_of-Answers services rs) [
        | inl (code, all) ↦ inl (rw (overall_of, e) code, (healthy, all))
        | inr (code, some_failed) ↦ inr (rw (overall_of, e) code, λ all. some_failed all.1)
      ]
  | inr e ↦ inr (
    rw (overall_of, e, overall_of-degraded rs) refl,
    λ all. ground (arith, e, (result_is_healthy_iff r.1).1 all.0),
  )
]

-- A round of checks that is not answered from the cache: /health answers 200 with every service
-- healthy, or 206 with one that is not; it answers 503 never, also if all services are down.
pub health_check-Answers :
    (now : ℕ) (probes : List String → ℕ → Probe) (depth : ℕ) (h : HealthCheck)
    → cached_at now h ≡ none
    → let answer = (health_check now probes depth h).0 in Answers answer.0 answer.1.reports
unfolding health_check check_all_services
health_check-Answers now probes depth h uncached =
    let names = map (λ (s : Service). s.name) h.services in
    let done = gather (check_service_health now probes depth h.dependencies []) names h.services in
    rw (health_check, check_all_services, uncached) (overall_of-Answers done.1 done.0)

round-cached :
    (now : ℕ) (probes : List String → ℕ → Probe) (depth : ℕ) (h : HealthCheck)
    → cached_at now h ≡ none
    → let done = check_all_services now probes depth h in
      (done.0.timestamp ≡ now) × (done.1.cached_status ≡ some done.0)
unfolding check_all_services
round-cached now probes depth h uncached =
    (rw (check_all_services, uncached) refl, rw (check_all_services, uncached) refl)

cached_at-young :
    (later : ℕ) (h : HealthCheck) (status : HealthStatus)
    → h.cached_status ≡ some status
    → later - status.timestamp < cache_duration
    → cached_at later h ≡ some status
cached_at-young later h status e young = ground (arith, e)

-- For 25 seconds after such a round /health answers the same, whatever services are registered,
-- cleared or down by then.
pub health_check-cached :
    (now later : ℕ) (probes probes_later : List String → ℕ → Probe) (depth depth_later : ℕ)
    (h h_later : HealthCheck)
    → cached_at now h ≡ none
    → later - now < cache_duration
    → h_later.cached_status ≡ (health_check now probes depth h).1.cached_status
    → health_check later probes_later depth_later h_later
      ≡ ((health_check now probes depth h).0, h_later)
unfolding health_check check_all_services
health_check-cached now later probes probes_later depth depth_later h h_later uncached young same =
    let done = check_all_services now probes depth h in
    let (at, kept) = round-cached now probes depth h uncached in
    let cached : cached_at later h_later ≡ some done.0 =
      cached_at-young later h_later done.0 (same ∙ kept) (omega (arith, at, young)) in
    rw (health_check, check_all_services, cached) refl
