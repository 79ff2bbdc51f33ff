-- ===== src/Health/Services.antt =====
-- core/health.py: the services of a `HealthCheck`, what they depend on, and `add_service`.
use bank_fastapi.Prelude.{
  ℕ, Bool, true, false, Option, none, some, List, [], ◌∷◌, String, str_eq, if◌then◌else◌, is_some,
}
use bank_fastapi.Prelude.Rows.{first, no_rows}
use bank_fastapi.Core.{Error, Result, ok, err}

pub data ServiceStatus : Type 0 where
  healthy unhealthy degraded starting down : ServiceStatus

abbrev pub is_healthy : ServiceStatus → Bool
is_healthy ServiceStatus.healthy = true
is_healthy _ = false

-- How one attempt of a check function ends.
pub data Probe : Type 0 where
  answers : Bool → Probe
  fails : Probe

pub record Service : Type 0 where
  pub name : String
  pub service_status : ServiceStatus
  pub max_attempts : ℕ
  pub last_check : ℕ

pub record ServiceReport : Type 0 where
  pub service : String
  pub result : Result ServiceStatus
  pub checked_at : ℕ

pub record HealthStatus : Type 0 where
  pub overall : ServiceStatus
  pub timestamp : ℕ
  pub reports : List ServiceReport

-- An entry of `_dependencies`; the order of the set is the list's.
pub record Dependency : Type 0 where
  pub dependent : String
  pub depends_on : List String

pub record HealthCheck : Type 0 where
  pub services : List Service
  pub dependencies : List Dependency
  pub cached_status : Option HealthStatus

-- `HealthCheck.__init__`
abbrev pub new_health_check : HealthCheck
new_health_check = record { services = []; dependencies = []; cached_status = none }

abbrev pub service_named : String → List Service → Option Service
service_named name services = first (λ s. str_eq s.name name) services

abbrev pub is_registered : String → List Service → Bool
is_registered name services = is_some (service_named name services)

-- Assignment to a key of a dict, which keeps its place.
abbrev pub put_service : Service → List Service → List Service
put_service s [] = s ∷ []
put_service s (x ∷ xs) = if str_eq x.name s.name then s ∷ xs else x ∷ put_service s xs

abbrev pub update_service : String → (Service → Service) → List Service → List Service
update_service name f [] = []
update_service name f (x ∷ xs) =
    if str_eq x.name name then f x ∷ xs else x ∷ update_service name f xs

-- The newest entry of a service stands first.
abbrev pub dependencies_of : String → List Dependency → List String
dependencies_of name entries = elim (first (λ d. str_eq d.dependent name) entries) [
  | none ↦ []
  | some d ↦ d.depends_on
]

-- `validate_dependencies`: the first name that is not registered is an error.
abbrev pub validate_dependencies : List String → List Service → Result (Unit {0})
validate_dependencies [] services = ok tt
validate_dependencies (d ∷ deps) services =
    if is_registered d services
    then validate_dependencies deps services
    else err (Error.value_error "dependency not registered")

-- The service is registered before its dependencies are validated.
unfoldable pub add_service :
    ℕ → String → ℕ → List String → HealthCheck → Result (Unit {0}) × HealthCheck
add_service now name max_attempts depends_on h =
    let registered : HealthCheck = record h {
      services =
          put_service
            (record {
              name = name;
              service_status = ServiceStatus.starting;
              max_attempts = max_attempts;
              last_check = now;
            })
            h.services;
    } in
    if no_rows depends_on
    then (ok tt, registered)
    else (elim (validate_dependencies depends_on registered.services) [
      | err e ↦ (err e, registered)
      | ok u ↦ (
        ok tt,
        record registered {
          dependencies =
              record { dependent = name; depends_on = depends_on } ∷ registered.dependencies;
        },
      )
    ])
