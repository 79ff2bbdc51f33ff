-- ===== src/Core/Startup.antt =====
-- core/db.py: `init_db`, the loop that waits for the database when the application starts.
use bank_fastapi.Prelude.{
  ℕ, zero, suc, ◌+◌, ◌*◌, ◌≤◌, ◌≡◌, Bool, true, false, ◌||◌, arith, ◌==◌, if◌then◌else◌,
}
use bank_fastapi.Core.Exceptions.{Error, Result, ok, err}

abbrev pub max_retries : ℕ
max_retries = 3

abbrev pub retry_delay : ℕ
retry_delay = 2

-- How the loop ends, and the seconds that it has slept.
pub record Started : Type 0 where
  pub outcome : Result (Unit {0})
  pub slept : ℕ

-- `connects n` tells whether the attempt `n` reaches the database; `left` turns of
-- `range(max_retries)` are left.
abbrev pub connect_loop : (ℕ → Bool) → ℕ → ℕ → ℕ → Started
connect_loop connects zero attempt slept = record { outcome = ok tt; slept = slept }
connect_loop connects (suc left) attempt slept =
    let rest = connect_loop connects left (attempt + 1) (slept + retry_delay * (attempt + 1)) in
    if connects attempt
    then record { outcome = ok tt; slept = slept }
    else (if attempt + 1 == max_retries
        then record { outcome = err (Error.system_error "database"); slept = slept }
        else rest)

unfoldable pub init_db : (ℕ → Bool) → Started
init_db connects = connect_loop connects max_retries 0 0

abbrev pub has_started : Result (Unit {0}) → Bool
has_started (ok u) = true
has_started (err e) = false

-- The start of the application ends: it succeeds exactly if one of the three attempts reaches the
-- database, it raises if none does, and it has slept for at most six seconds.
pub init_db-ends :
    (connects : ℕ → Bool)
    → (has_started (init_db connects).outcome ≡ (connects 0 || (connects 1 || connects 2)))
      × ((init_db connects).slept ≤ 6)
unfolding init_db
init_db-ends connects = (ground arith, ground arith)
