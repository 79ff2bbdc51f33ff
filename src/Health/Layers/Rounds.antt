-- ===== src/Health/Layers/Rounds.antt =====
-- A round of checks: it keeps the names that are registered, and it ends if the services are
-- registered after what they depend on.
use bank_fastapi.Prelude.{
  ℕ, zero, suc, ◌≤◌, ◌≡◌, refl, ◌∙◌, ap, sym, subst, true, false, inl, inr, Bool-cases,
  Option-cases, none, List, [], ◌∷◌, map, String, str_eq, arith, eq_iff,
}
use bank_fastapi.Prelude.Rows.{All, length}
use bank_fastapi.Core.{Result, ok, Result-cases}
use bank_fastapi.Health.{
  all_healthy, run_check, Checking, check_service_health, gather, check_all_services, cached_at,
  report_of,
}
use bank_fastapi.Health.Services.{
  ServiceStatus, Probe, Service, ServiceReport, HealthCheck, Dependency, new_health_check,
  is_registered, is_healthy, service_named, dependencies_of, add_service,
}
use bank_fastapi.Health.Layers.{
  names_of, is_name, IsRanked, Returns, check_service_health-Returns, All-map, attempts-names,
}
use bank_fastapi.Health.Layers.Registrations.{IsLayered, add_service-IsLayered}

abbrev KeepsNames : Checking → Type 0
KeepsNames check = (services : List Service) → names_of (check services).1 ≡ names_of services

all_healthy-names :
    (check : String → Checking) (deps : List String)
    → ((d : String) → KeepsNames (check d))
    → (services : List Service) → names_of (all_healthy check deps services).1 ≡ names_of services
all_healthy-names check [] keeps services = refl
all_healthy-names check (d ∷ deps) keeps services = elim (Result-cases (check d services).0) [
  | inl (error, e) ↦ rw (all_healthy, e) (keeps d services)
  | inr (status, e) ↦ elim (Bool-cases (is_healthy status)) [
    | inl h ↦
        rw (all_healthy, e, h)
          (all_healthy-names check deps keeps (check d services).1 ∙ keeps d services)
    | inr h ↦ rw (all_healthy, e, h) (keeps d services)
  ]
]

run_check-names :
    (now : ℕ) (name : String) (probe : ℕ → Probe) → KeepsNames (run_check now name probe)
run_check-names now name probe services = elim (Option-cases (service_named name services)) [
  | inl e ↦ rw (run_check, e) refl
  | inr (s, e) ↦ rw (run_check, e) (attempts-names now name probe s.max_attempts 0 services)
]

module _ (now : ℕ) (probes : List String → ℕ → Probe) (entries : List Dependency) where
  check_service_health-names :
      (depth : ℕ) (path : List String) (name : String)
      → KeepsNames (check_service_health now probes depth entries path name)
  unfolding check_service_health
  check_service_health-names zero path name services = refl
  check_service_health-names (suc depth) path name services =
      let check = check_service_health now probes depth entries (name ∷ path) in
      let deps = dependencies_of name entries in
      let kept =
        all_healthy-names check deps (check_service_health-names depth (name ∷ path)) services in
      elim (Result-cases (all_healthy check deps services).0) [
        | inl (error, e) ↦ rw (check_service_health, e) kept
        | inr (all, e) ↦ elim (Bool-cases all) [
          | inl h ↦
              rw (check_service_health, e, h)
                (run_check-names now name (probes (name ∷ path)) (all_healthy check deps services).1
                  ∙ kept)
          | inr h ↦ rw (check_service_health, e, h) kept
        ]
      ]

gather-names :
    (check : String → Checking) (names : List String)
    → ((name : String) → KeepsNames (check name))
    → (services : List Service) → names_of (gather check names services).1 ≡ names_of services
gather-names check [] keeps services = refl
gather-names check (name ∷ names) keeps services =
    gather-names check names keeps (check name services).1 ∙ keeps name services

abbrev HasStatus : String × Result ServiceStatus → Type 0
HasStatus r = (status : ServiceStatus) × (r.1 ≡ ok status)

gather-HasStatus :
    (base : List String) (check : String → Checking) (names : List String)
    → All
        (λ name.
          (services : List Service) → names_of services ≡ base → Returns base (check name services))
        names
    → (services : List Service) → names_of services ≡ base
    → All HasStatus (gather check names services).0
gather-HasStatus base check [] returns services same = tt
gather-HasStatus base check (name ∷ names) returns services same =
    let (status, e, kept) = returns.0 services same in
    ((status, e), gather-HasStatus base check names returns.1 (check name services).1 kept)

is_name-All : (names : List String) → All (λ n. is_name n names ≡ true) names
is_name-All [] = tt
is_name-All (x ∷ xs) =
    let same : str_eq x x ≡ true = (eq_iff x x).1 refl in
    (
      ground (arith, same),
      All-map _ (λ n. is_name n (x ∷ xs) ≡ true) xs (λ n h. ground (arith, h)) (is_name-All xs),
    )

-- What a checker is after services have been registered, each under a name of its own and after
-- what it depends on, with rounds of checks between them.
pub data Registered : HealthCheck → Type 0 where
  fresh : Registered new_health_check
  registers :
      (now : ℕ) (name : String) (max_attempts : ℕ) (depends_on : List String) (h : HealthCheck)
      → Registered h
      → is_registered name h.services ≡ false
      → All (λ d. str_eq name d ≡ false) depends_on
      → Registered (add_service now name max_attempts depends_on h).1
  checks :
      (now : ℕ) (probes : List String → ℕ → Probe) (depth : ℕ) (h : HealthCheck)
      → Registered h
      → Registered (check_all_services now probes depth h).1

check_all_services-IsLayered :
    (now : ℕ) (probes : List String → ℕ → Probe) (depth : ℕ) (h : HealthCheck)
    → IsLayered h
    → IsLayered (check_all_services now probes depth h).1
unfolding check_all_services
check_all_services-IsLayered now probes depth h (rank, ranked) =
    elim (Option-cases (cached_at now h)) [
      | inl e ↦
          rw (check_all_services, e)
            (
              rank,
              subst (λ ns. IsRanked ns h.dependencies rank)
                  (sym (
                    gather-names (check_service_health now probes depth h.dependencies [])
                      (names_of h.services)
                      (check_service_health-names now probes h.dependencies depth []) h.services))
                  ranked,
            )
      | inr (status, e) ↦ rw (check_all_services, e) (rank, ranked)
    ]

Registered-IsLayered : (h : HealthCheck) → Registered h → IsLayered h
Registered-IsLayered _ fresh = (λ name. 0, (λ name r. ground (arith, r), λ name. tt))
Registered-IsLayered _ (registers now name max_attempts depends_on h past new others) =
    add_service-IsLayered now name max_attempts depends_on h new others
      (Registered-IsLayered h past)
Registered-IsLayered _ (checks now probes depth h past) =
    check_all_services-IsLayered now probes depth h (Registered-IsLayered h past)

All-reports :
    (services : List Service) (results : List (String × Result ServiceStatus))
    → All HasStatus results
    → All
        (λ (r : ServiceReport). (status : ServiceStatus) × (r.result ≡ ok status))
        (map (report_of services) results)
All-reports services [] h = tt
All-reports services (r ∷ rs) h = (h.0, All-reports services rs h.1)

length-names : (services : List Service) → length (names_of services) ≡ length services
length-names [] = refl
length-names (s ∷ services) = ap suc (length-names services)

-- Of services that have each been registered under a name of its own and after what it depends on,
-- with rounds of checks between: a round that is not answered from the cache, with at least as
-- much recursion depth as there are services, ends with a status for every service and no error.
pub check_all_services-ends :
    (now : ℕ) (probes : List String → ℕ → Probe) (depth : ℕ) (h : HealthCheck)
    → Registered h
    → cached_at now h ≡ none
    → length h.services ≤ depth
    → All
        (λ (r : ServiceReport). (status : ServiceStatus) × (r.result ≡ ok status))
        (check_all_services now probes depth h).0.reports
unfolding check_all_services
check_all_services-ends now probes depth h past uncached deep =
    let (rank, ranked) = Registered-IsLayered h past in
    let names = names_of h.services in
    let check = check_service_health now probes depth h.dependencies [] in
    let returns =
      All-map _
        (λ name.
          (services : List Service)
          → names_of services ≡ names
          → Returns names (check name services))
        names
        (λ name r services same.
          check_service_health-Returns names now probes depth h.dependencies rank [] name services
            ranked (omega (arith, ranked.0 name r, deep, length-names h.services)) r same)
        (is_name-All names) in
    rw (check_all_services, uncached)
      (All-reports (gather check names h.services).1 (gather check names h.services).0
        (gather-HasStatus names check names returns h.services refl))
