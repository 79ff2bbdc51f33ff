-- ===== src/Tests/Checks.antt =====
-- Health checks of a database and of workers that depend on it.
use bank_fastapi.Prelude.{str_eq, if◌then◌else◌, ℕ, ◌≡◌, refl, true, List, [], ◌∷◌, String, arith}
use bank_fastapi.Prelude.Rows.{All}
use bank_fastapi.Core.{ok, err, Error}
use bank_fastapi.Health.{check_all_services, health_check, check_service_health}
use bank_fastapi.Health.Services.{
  ServiceStatus, Probe, ServiceReport, HealthCheck, new_health_check, add_service,
}
use bank_fastapi.Health.Verdicts.{Answers, health_check-Answers}
use bank_fastapi.Health.Layers.Rounds.{Registered, check_all_services-ends}

-- Every attempt of every check succeeds.
abbrev up : List String → ℕ → Probe
up path attempt = Probe.answers true

-- The database raises; what else is asked succeeds.
abbrev database_down : List String → ℕ → Probe
database_down [] attempt = Probe.answers true
database_down (service ∷ path) attempt =
    if str_eq service "database" then Probe.fails else Probe.answers true

abbrev database : HealthCheck
database = (add_service 100 "database" 3 [] new_health_check).1

abbrev checker : HealthCheck
checker = (add_service 100 "celery" 3 ("database" ∷ []) database).1

checker-Registered : Registered checker
unfolding add_service
checker-Registered =
    Registered.registers 100 "celery" 3 ("database" ∷ []) database
      (Registered.registers 100 "database" 3 [] new_health_check Registered.fresh refl tt) refl
      (refl, tt)

check_all_services-ends_example :
    All
      (λ (r : ServiceReport). (status : ServiceStatus) × (r.result ≡ ok status))
      (check_all_services 200 up 2 checker).0.reports
unfolding add_service
check_all_services-ends_example =
    check_all_services-ends 200 up 2 checker checker-Registered refl (omega arith)

health_check-Answers_example :
    let answer = (health_check 200 database_down 2 checker).0 in Answers answer.0 answer.1.reports
unfolding add_service
health_check-Answers_example = health_check-Answers 200 database_down 2 checker refl

down_is_partial_content : (health_check 200 database_down 2 checker).0.0 ≡ 206
unfolding health_check check_all_services check_service_health add_service
down_is_partial_content = refl

-- A service may be registered as its own dependency; its check then never ends.
own_dependency :
    (check_service_health 200 up 50
      (add_service 100 "redis" 3 ("redis" ∷ []) new_health_check).1.dependencies
      []
      "redis"
      []).0
    ≡ err (Error.system_error "maximum recursion depth exceeded")
unfolding check_service_health add_service
own_dependency = refl
