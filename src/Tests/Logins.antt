-- ===== src/Tests/Logins.antt =====
-- Logins and the circuit breaker: the theorems at the small bank.
use bank_fastapi.Prelude.{refl, none, some, [], ◌∷◌, arith}
use bank_fastapi.Models.{User, UserStatus}
use bank_fastapi.Core.{Db}
use bank_fastapi.Auth.Service.{AuthSettings, verify_login_otp}
use bank_fastapi.Auth.Lockout.{Verifies, verify_login_otp-Verifies}
use bank_fastapi.Breaker.{BreakerSettings, new_breaker, record_failure}
use bank_fastapi.Breaker.States.{fresh, step, fails, IsCalm, BreakerReach-IsCalm}
use bank_fastapi.Tests.Fixtures.{ctx, ann, bob, bank}

abbrev pub settings : AuthSettings
settings = record { login_attempts = 3; lockout_duration = 300 }

-- Ann after three failed attempts at 900.
abbrev pub locked_ann : User
locked_ann = record ann {
  account_status = UserStatus.locked;
  failed_login_attempts = 3;
  last_failed_login = some 900;
  otp = "";
  otp_expiry_time = none;
}

abbrev pub locked_bank : Db
locked_bank = record bank { users = locked_ann ∷ bob ∷ [] }

verify_login_otp-Verifies_example :
    Verifies ctx settings "123456" ann bank (verify_login_otp ctx settings "ann" "123456" bank)
verify_login_otp-Verifies_example =
    verify_login_otp-Verifies ctx settings "ann" "123456" bank ann refl refl

abbrev breaker : BreakerSettings
breaker = record { failure_threshold = 2; recovery_seconds = 30 }

BreakerReach-IsCalm_example : IsCalm breaker (record_failure breaker 7 new_breaker)
BreakerReach-IsCalm_example =
    BreakerReach-IsCalm breaker (record_failure breaker 7 new_breaker) (omega arith)
      (step fresh (fails 7))
