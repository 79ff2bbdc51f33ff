-- ===== src/Health.antt =====
-- core/health.py: `HealthCheck`, with the route /health of main.py. The dicts that `add_service`
-- fills together are one table of services. The checks of `gather` are taken one after another: no
-- result depends on what another one stores. What a probe answers is a parameter: it may depend on
-- the attempt and on the call, which is named by the chain of services that led to it.
pub mod Services
pub mod Verdicts
pub mod Layers
pub mod Waiting
use bank_fastapi.Prelude.{
  ℕ, zero, suc, ◌+◌, ◌-◌, Bool, true, false, Option, none, some, List, [], ◌∷◌, map, String, ltb,
  if◌then◌else◌,
}
use bank_fastapi.Core.{Error, Result, ok, err}
use bank_fastapi.Health.Services.{
  ServiceStatus, is_healthy, Probe, Service, ServiceReport, HealthStatus, Dependency, HealthCheck,
  service_named, update_service, dependencies_of,
}

abbrev pub set_status : ServiceStatus → Service → Service
set_status status s = record s { service_status = status }

abbrev pub set_healthy : ℕ → Service → Service
set_healthy now s = record s { service_status = ServiceStatus.healthy; last_check = now }

-- The attempts of a check: the number that is left, and that of the next one.
abbrev pub attempts : ℕ → String → (ℕ → Probe) → ℕ → ℕ → List Service → ServiceStatus × List Service
attempts now name probe zero attempt services =
    (ServiceStatus.unhealthy, update_service name (set_status ServiceStatus.unhealthy) services)
attempts now name probe (suc left) attempt services = elim (probe attempt) [
  | Probe.answers true ↦ (ServiceStatus.healthy, update_service name (set_healthy now) services)
  | Probe.answers false ↦
      attempts now name probe left (attempt + 1)
        (update_service name (set_status ServiceStatus.degraded) services)
  | Probe.fails ↦ attempts now name probe left (attempt + 1) services
]

abbrev pub Checking : Type 0
Checking = List Service → Result ServiceStatus × List Service

-- The loop over the dependencies, up to the first that is not healthy.
abbrev pub all_healthy :
    (String → Checking) → List String → List Service → Result Bool × List Service
all_healthy check [] services = (ok true, services)
all_healthy check (d ∷ deps) services =
    let done = check d services in
    elim done.0 [
      | err e ↦ (err e, done.1)
      | ok status ↦ if is_healthy status then all_healthy check deps done.1 else (ok false, done.1)
    ]

abbrev pub run_check : ℕ → String → (ℕ → Probe) → Checking
run_check now name probe services = elim (service_named name services) [
  | none ↦ (err (Error.value_error "unknown service"), services)
  | some s ↦ let done = attempts now name probe s.max_attempts 0 services in (ok done.0, done.1)
]

-- `depth` is what Python's recursion limit leaves; where it is used up, RecursionError is raised.
unfoldable pub check_service_health :
    ℕ → (List String → ℕ → Probe) → ℕ → List Dependency → List String → String → Checking
check_service_health now probes zero entries path name services =
    (err (Error.system_error "maximum recursion depth exceeded"), services)
check_service_health now probes (suc depth) entries path name services =
    let done =
      all_healthy (check_service_health now probes depth entries (name ∷ path))
        (dependencies_of name entries) services in
    elim done.0 [
      | err e ↦ (err e, done.1)
      | ok false ↦ (ok ServiceStatus.degraded, done.1)
      | ok true ↦ run_check now name (probes (name ∷ path)) done.1
    ]

-- `gather(..., return_exceptions=True)`
abbrev pub gather :
    (String → Checking)
    → List String
    → List Service
    → List (String × Result ServiceStatus) × List Service
gather check [] services = ([], services)
gather check (name ∷ names) services =
    let done = check name services in
    let rest = gather check names done.1 in ((name, done.0) ∷ rest.0, rest.1)

abbrev pub last_check_of : String → List Service → ℕ
last_check_of name services = elim (service_named name services) [
  | none ↦ 0
  | some s ↦ s.last_check
]

abbrev pub report_of : List Service → String × Result ServiceStatus → ServiceReport
report_of services r = record {
  service = r.0;
  result = r.1;
  checked_at = last_check_of r.0 services;
}

-- An exception and every status but HEALTHY make the whole DEGRADED.
abbrev pub result_is_healthy : Result ServiceStatus → Bool
result_is_healthy (ok status) = is_healthy status
result_is_healthy (err e) = false

abbrev pub overall_of : List (String × Result ServiceStatus) → ServiceStatus → ServiceStatus
overall_of [] status = status
overall_of (r ∷ rs) status =
    overall_of rs (if result_is_healthy r.1 then status else ServiceStatus.degraded)

abbrev pub cache_duration : ℕ
cache_duration = 25

-- The cached report, if it is young enough; its time is `_last_check_time`.
abbrev pub cached_at : ℕ → HealthCheck → Option HealthStatus
cached_at now h = elim h.cached_status [
  | none ↦ none
  | some status ↦ if ltb (now - status.timestamp) cache_duration then some status else none
]

unfoldable pub check_all_services :
    ℕ → (List String → ℕ → Probe) → ℕ → HealthCheck → HealthStatus × HealthCheck
check_all_services now probes depth h = elim (cached_at now h) [
  | some status ↦ (status, h)
  | none ↦
      let names = map (λ (s : Service). s.name) h.services in
      let done =
        gather (check_service_health now probes depth h.dependencies []) names h.services in
      let status : HealthStatus = record {
        overall = overall_of done.0 ServiceStatus.healthy;
        timestamp = now;
        reports = map (report_of done.1) done.0;
      } in
      (status, record h { services = done.1; cached_status = some status })
]

-- Neither the dependencies nor the cached report are cleared.
unfoldable pub cleanup : HealthCheck → HealthCheck
cleanup h = record h { services = [] }

-- The route /health of main.py.
abbrev pub answer_code : ServiceStatus → ℕ
answer_code ServiceStatus.healthy = 200
answer_code ServiceStatus.degraded = 206
answer_code _ = 503

unfoldable pub health_check :
    ℕ → (List String → ℕ → Probe) → ℕ → HealthCheck → (ℕ × HealthStatus) × HealthCheck
health_check now probes depth h =
    let done = check_all_services now probes depth h in
    ((answer_code done.0.overall, done.0), done.1)
