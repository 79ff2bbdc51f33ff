-- ===== src/Health/Layers.antt =====
-- Services that are registered after what they depend on, and their checks.
pub mod Registrations
pub mod Rounds
use bank_fastapi.Prelude.{
  Option-cases, ◌⊎◌, ℕ, zero, suc, ◌+◌, ◌<◌, ◌≤◌, ◌≡◌, refl, ◌∙◌, ap, sym, subst, Bool, true, false,
  inl, inr, Bool-cases, Option, none, some, List, [], ◌∷◌, map, String, str_eq, arith,
}
use bank_fastapi.Prelude.Rows.{All, length, any_row, first}
use bank_fastapi.Core.{Error, Result, ok, err}
use bank_fastapi.Health.{
  set_status, set_healthy, attempts, Checking, all_healthy, run_check, check_service_health, gather,
  check_all_services, cached_at, report_of,
}
use bank_fastapi.Health.Services.{
  ServiceStatus, Probe, Service, ServiceReport, HealthCheck, Dependency, new_health_check,
  is_registered, service_named, put_service, update_service, dependencies_of, validate_dependencies,
  add_service, is_healthy,
}

abbrev names_of : List Service → List String
names_of services = map (λ (s : Service). s.name) services

abbrev is_name : String → List String → Bool
is_name d names = any_row (λ n. str_eq n d) names

is_registered-names :
    (d : String) (services : List Service)
    → is_registered d services ≡ is_name d (names_of services)
is_registered-names d [] = refl
is_registered-names d (s ∷ services) = ground (arith, is_registered-names d services)

update_service-names :
    (name : String) (f : Service → Service) (services : List Service)
    → ((s : Service) → (f s).name ≡ s.name)
    → names_of (update_service name f services) ≡ names_of services
update_service-names name f [] keeps = refl
update_service-names name f (s ∷ services) keeps = elim (Bool-cases (str_eq s.name name)) [
  | inl e ↦ rw (e, keeps s) refl
  | inr e ↦ rw (e, update_service-names name f services keeps) refl
]

Probe-cases :
    (p : Probe) → (p ≡ Probe.answers true) ⊎ ((p ≡ Probe.answers false) ⊎ (p ≡ Probe.fails))
Probe-cases (Probe.answers true) = inl refl
Probe-cases (Probe.answers false) = inr (inl refl)
Probe-cases Probe.fails = inr (inr refl)

attempts-names :
    (now : ℕ) (name : String) (probe : ℕ → Probe) (left attempt : ℕ) (services : List Service)
    → names_of (attempts now name probe left attempt services).1 ≡ names_of services
attempts-names now name probe zero attempt services =
    update_service-names name (set_status ServiceStatus.unhealthy) services (λ s. refl)
attempts-names now name probe (suc left) attempt services = elim (Probe-cases (probe attempt)) [
  | inl e ↦ rw (attempts, e) (update_service-names name (set_healthy now) services (λ s. refl))
  | inr (inl e) ↦
      rw (attempts, e)
        (attempts-names now name probe left (attempt + 1)
            (update_service name (set_status ServiceStatus.degraded) services)
          ∙ update_service-names name (set_status ServiceStatus.degraded) services (λ s. refl))
  | inr (inr e) ↦ rw (attempts, e) (attempts-names now name probe left (attempt + 1) services)
]

-- A call that returns a value, and leaves the same names registered.
abbrev Returns : {A : Type 0} → List String → Result A × List Service → Type 0
Returns {A} names done = (a : A) × (done.0 ≡ ok a) × (names_of done.1 ≡ names)

all_healthy-Returns :
    (names : List String) (check : String → Checking) (deps : List String) (services : List Service)
    → All (λ d. (now : List Service) → names_of now ≡ names → Returns names (check d now)) deps
    → names_of services ≡ names
    → Returns names (all_healthy check deps services)
all_healthy-Returns names check [] services checks same = (true, refl, same)
all_healthy-Returns names check (d ∷ deps) services checks same =
    let (status, e, kept) = checks.0 services same in
    elim (Bool-cases (is_healthy status)) [
      | inl h ↦
          rw (all_healthy, e, h)
            (all_healthy-Returns names check deps (check d services).1 checks.1 kept)
      | inr h ↦ rw (all_healthy, e, h) (false, refl, kept)
    ]

-- Every service is ranked below the number of services, and above what it depends on.
abbrev IsRanked : List String → List Dependency → (String → ℕ) → Type 0
IsRanked names entries rank =
    ((name : String) → is_name name names ≡ true → rank name < length names)
    × ((name : String)
        → All (λ d. (is_name name names ≡ true) × (is_name d names ≡ true) × (rank d < rank name))
            (dependencies_of name entries))

run_check-Returns :
    (names : List String) (now : ℕ) (name : String) (probe : ℕ → Probe) (services : List Service)
    → is_name name names ≡ true
    → names_of services ≡ names
    → Returns names (run_check now name probe services)
run_check-Returns names now name probe services registered same =
    let here : is_registered name services ≡ true =
      is_registered-names name services ∙ ap (is_name name) same ∙ registered in
    elim (Option-cases (service_named name services)) [
      | inl e ↦ ground (arith, here)
      | inr (s, e) ↦
          rw (run_check, e)
            (_, refl, attempts-names now name probe s.max_attempts 0 services ∙ same)
    ]

All-map :
    {A : Type 0} (P Q : A → Type 0) (xs : List A) → ((x : A) → P x → Q x) → All P xs → All Q xs
All-map P Q [] f h = tt
All-map P Q (x ∷ xs) f h = (f x h.0, All-map P Q xs f h.1)

-- Enough depth for the rank of a service is enough for its check to return.
check_service_health-Returns :
    (names : List String) (now : ℕ) (probes : List String → ℕ → Probe) (depth : ℕ)
    (entries : List Dependency) (rank : String → ℕ) (path : List String) (name : String)
    (services : List Service)
    → IsRanked names entries rank
    → rank name < depth
    → is_name name names ≡ true
    → names_of services ≡ names
    → Returns names (check_service_health now probes depth entries path name services)
unfolding check_service_health
check_service_health-Returns names now probes zero entries rank path name services ranked deep
      registered same =
    ground arith
check_service_health-Returns names now probes (suc depth) entries rank path name services ranked
      deep registered same =
    let check = check_service_health now probes depth entries (name ∷ path) in
    let deps = dependencies_of name entries in
    let checks =
      All-map _ (λ d. (new : List Service) → names_of new ≡ names → Returns names (check d new))
        deps
        (λ d h new kept.
          check_service_health-Returns names now probes depth entries rank (name ∷ path) d new
            ranked (omega (arith, h.2, deep)) h.1 kept)
        (ranked.1 name) in
    let (all, e, kept) = all_healthy-Returns names check deps services checks same in
    elim (Bool-cases all) [
      | inl h ↦
          rw (check_service_health, e, h)
            (run_check-Returns names now name (probes (name ∷ path))
              (all_healthy check deps services).1 registered kept)
      | inr h ↦ rw (check_service_health, e, h) (ServiceStatus.degraded, refl, kept)
    ]
