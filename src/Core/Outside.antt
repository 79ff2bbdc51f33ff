-- ===== src/Core/Outside.antt =====
-- What a call takes from code and devices outside the repository.
use bank_fastapi.Prelude.{ℕ, Bool, Option, String, if◌then◌else◌}
use bank_fastapi.Prelude.Int.{ℤ}
use bank_fastapi.Models.{Transaction}
use bank_fastapi.Models.Metadata.{Fields, is_blank}

-- `now` is `datetime.now(UTC)`, read once in a call; `new_id` and `hex` are what `uuid4` gives;
-- `otp` is the generated one-time password; `verify` is Argon2's test of an answer against its
-- hash; `predict` is the model's inference, `none` if it raises or its circuit is open; `fits`
-- tells whether the NUMERIC column of a balance takes a value (a commit raises if it does not).
-- `populates_existing` tells whether a SELECT ... FOR UPDATE overwrites the attributes of a row
-- that the session has loaded before, and `tracks_mutation` whether a change made inside the dict
-- of a JSON column is written by the next commit. SQLAlchemy's documentation says that neither
-- happens without `populate_existing()` and `MutableDict`, and the code uses neither.
-- `reloads_expired` tells whether reading an attribute after a rollback loads it again (it does in
-- a plain session; in an AsyncSession the documentation says that it raises).
pub record Context : Type 0 where
  pub now : ℕ
  pub new_id : ℕ
  pub hex : String
  pub otp : String
  pub otp_expiration : ℕ
  pub verify : String → String → Bool
  pub predict : Transaction → Option ℕ
  pub fits : ℤ → Bool
  pub populates_existing : Bool
  pub tracks_mutation : Bool
  pub reloads_expired : Bool

-- `if not d: d = {}`, then a change inside `d`: the column gets the changed dict if `d` was
-- assigned, or if changes inside a dict are tracked.
abbrev pub mutate_in_place : Context → Option Fields → Fields → Option Fields
mutate_in_place ctx old new =
    if is_blank old then Option.some new else (if ctx.tracks_mutation then Option.some new else old)
