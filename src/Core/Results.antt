-- ===== src/Core/Results.antt =====
-- The checks of a call before its first write, as a computation that reads the tables and returns
-- or raises.
use bank_fastapi.Prelude.{Bool, true, false, Option, none, some}
use bank_fastapi.Core.Exceptions.{Error, Result, ok, err}

infixl 5 ◌>>=◌ ◌>>◌
abbrev pub ◌>>=◌ {ℓ κ} : {A : Type ℓ} {B : Type κ} → Result A → (A → Result B) → Result B
ok a >>= f = f a
err e >>= f = err e

abbrev pub ◌>>◌ {ℓ κ} : {A : Type ℓ} {B : Type κ} → Result A → Result B → Result B
m >> k = m >>= λ _. k

abbrev pub refuse_if : Bool → Error → Result (Unit {0})
refuse_if true e = err e
refuse_if false e = ok tt

abbrev pub or_refuse {ℓ} : {A : Type ℓ} → Error → Option A → Result A
or_refuse e none = err e
or_refuse e (some a) = ok a
