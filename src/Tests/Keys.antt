-- ===== src/Tests/Keys.antt =====
-- Idempotency keys: the theorems at the small bank.
use bank_fastapi.Prelude.{ℕ, ◌≡◌, refl, inl, none, arith}
use bank_fastapi.Models.Metadata.{Value, Fields, end, field}
use bank_fastapi.Core.{Context, Action, Error, ok, err}
use bank_fastapi.Transaction.Idempotency.{
  get_cached_idempotent_response, store_idempotent_response, Reply, idempotent_call, run_and_store,
}
use bank_fastapi.Transaction.Idempotency.Replay.{idempotent_call-replay, idempotent_call-expires}
use bank_fastapi.Tests.Fixtures.{ctx, bank}

abbrev body : Fields
body = field "status" (Value.text "success") end

-- A withdrawal that answers `body` for user 1.
abbrev operation : Action (ℕ × Fields)
operation db = (ok (1, body), db)

abbrev refused : Action (ℕ × Fields)
refused db = (err (Error.not_found "Account or username not found"), db)

abbrev a_day_later : Context
a_day_later = record ctx { now = 90000 }

idempotent_call-replay_example :
    idempotent_call ctx 201 "k1" "/withdraw" none refused
      (idempotent_call ctx 201 "k1" "/withdraw" none operation bank).1
    ≡ (ok (Reply.from_cache body), (idempotent_call ctx 201 "k1" "/withdraw" none operation bank).1)
unfolding idempotent_call run_and_store store_idempotent_response get_cached_idempotent_response
idempotent_call-replay_example =
    idempotent_call-replay ctx ctx 201 "k1" "/withdraw" 1 none body operation refused bank
      (idempotent_call ctx 201 "k1" "/withdraw" none operation bank).1 bank refl refl refl
      (omega arith) (inl refl)

-- The answer of the first call, at a time when it has expired.
idempotent_call-expires_example :
    (e : Error) × (idempotent_call a_day_later 201 "k1" "/withdraw" none operation
        (idempotent_call ctx 201 "k1" "/withdraw" none operation bank).1
      ≡ (err e, (idempotent_call ctx 201 "k1" "/withdraw" none operation bank).1))
unfolding idempotent_call run_and_store store_idempotent_response get_cached_idempotent_response
idempotent_call-expires_example =
    idempotent_call-expires ctx a_day_later 201 "k1" "/withdraw" 1 none none body operation
      operation bank (idempotent_call ctx 201 "k1" "/withdraw" none operation bank).1 bank refl refl
      refl (omega arith) refl
