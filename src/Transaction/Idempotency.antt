-- ===== src/Transaction/Idempotency.antt =====
-- transaction/utils.py: the table of idempotency keys, and the routes that use it
-- (transaction/routes/withdrawal.py and transfer.py). The column `key` is unique.
pub mod Replay
use bank_fastapi.Prelude.{
  ℕ, ◌+◌, ◌*◌, Bool, true, ◌&&◌, Option, none, some, [], ◌∷◌, ◌++◌, String, str_eq, ◌==◌, ltb,
  if◌then◌else◌,
}
use bank_fastapi.Prelude.Rows.{first, any_row}
use bank_fastapi.Models.{IdempotencyKey}
use bank_fastapi.Models.Metadata.{Fields}
use bank_fastapi.Core.{Db, Context, Action, Error, ok, err, ◌>>=◌, ◌>>◌, pure}

-- `if user_id is not None: ... where(user_id == ...)`
abbrev pub user_matches : Option ℕ → IdempotencyKey → Bool
user_matches none k = true
user_matches (some user_id) k = k.user_id == user_id

abbrev pub key_matches : ℕ → String → String → Option ℕ → IdempotencyKey → Bool
key_matches now key endpoint user_id k =
    str_eq k.key key
    && (str_eq k.endpoint endpoint && (ltb now k.expires_at && user_matches user_id k))

unfoldable pub get_cached_idempotent_response :
    Context → String → String → Option ℕ → Db → Option Fields
get_cached_idempotent_response ctx key endpoint user_id db =
    elim (first (key_matches ctx.now key endpoint user_id) db.idempotency_keys) [
      | none ↦ none
      | some k ↦ some k.response_body
    ]

abbrev pub key_row : Context → String → ℕ → String → ℕ → Fields → ℕ → IdempotencyKey
key_row ctx key user_id endpoint code body ttl_hours = record {
  key = key;
  user_id = user_id;
  endpoint = endpoint;
  response_code = code;
  response_body = body;
  expires_at = ctx.now + ttl_hours * 3600;
}

-- The commit fails where the key is taken.
unfoldable pub store_idempotent_response :
    Context → String → ℕ → String → ℕ → Fields → ℕ → Action (Unit {0})
store_idempotent_response ctx key user_id endpoint code body ttl_hours db =
    if any_row (λ k. str_eq k.key key) db.idempotency_keys
    then (err (Error.system_error "duplicate key value violates unique constraint"), db)
    else (
      ok tt,
      record db {
        idempotency_keys =
            db.idempotency_keys ++ key_row ctx key user_id endpoint code body ttl_hours ∷ [];
      },
    )

-- The answer of a route: the response of its operation, or the stored response inside an answer that
-- says that it was retrieved from the cache.
pub data Reply : Type 0 where
  processed from_cache : Fields → Reply

-- The operation of a route, then the storing of its answer under the key.
unfoldable pub run_and_store : Context → ℕ → String → String → Action (ℕ × Fields) → Action Reply
run_and_store ctx code key endpoint operation = do
  (user_id, body) ← operation
  store_idempotent_response ctx key user_id endpoint code body 24
  pure (Reply.processed body)

-- `create_withdrawal` and `initiate_money_transfer`: the first looks the key up for every user
-- (`none`), the second for the caller. The operation returns the user and the answer's body;
-- `code` is the status of its answer.
unfoldable pub idempotent_call :
    Context → ℕ → String → String → Option ℕ → Action (ℕ × Fields) → Action Reply
idempotent_call ctx code key endpoint user_id operation db =
    elim (get_cached_idempotent_response ctx key endpoint user_id db) [
      | some body ↦ (ok (Reply.from_cache body), db)
      | none ↦ run_and_store ctx code key endpoint operation db
    ]
