-- ===== src/Transaction/Idempotency/Replay.antt =====
-- What a key protects a route from, and what it does not.
use bank_fastapi.Prelude.{
  inr, inl, ◌≤◌, ◌⊎◌, ℕ, ◌+◌, ◌*◌, ◌<◌, ◌≡◌, true, false, Option, none, some, List, [], ◌∷◌, ◌++◌,
  String, str_eq, arith, eq_iff,
}
use bank_fastapi.Prelude.Rows.{first, any_row}
use bank_fastapi.Models.{IdempotencyKey}
use bank_fastapi.Models.Metadata.{Fields}
use bank_fastapi.Core.{Result-cases, Db, Context, Action, Error, ok, err}
use bank_fastapi.Transaction.Idempotency.{
  key_matches, get_cached_idempotent_response, key_row, store_idempotent_response, Reply,
  run_and_store, idempotent_call,
}

-- In rows without the key, a row that is added last is the first that matches it.
first-added :
    (now : ℕ) (key endpoint : String) (user_id : Option ℕ) (k : IdempotencyKey)
    (rows : List IdempotencyKey)
    → any_row (λ j. str_eq j.key key) rows ≡ false
    → key_matches now key endpoint user_id k ≡ true
    → first (key_matches now key endpoint user_id) (rows ++ k ∷ []) ≡ some k
first-added now key endpoint user_id k [] fresh matches = ground arith
first-added now key endpoint user_id k (j ∷ rows) fresh matches =
    ground (arith, first-added now key endpoint user_id k rows)

-- A stored answer is found again under its key and endpoint, for its user or without a user, until
-- it expires.
pub store-get_cached :
    (ctx later : Context) (key endpoint : String) (owner code ttl : ℕ) (body : Fields)
    (user_id : Option ℕ) (db db' : Db)
    → store_idempotent_response ctx key owner endpoint code body ttl db ≡ (ok tt, db')
    → later.now < ctx.now + ttl * 3600
    → (user_id ≡ none) ⊎ (user_id ≡ some owner)
    → get_cached_idempotent_response later key endpoint user_id db' ≡ some body
unfolding store_idempotent_response get_cached_idempotent_response
store-get_cached ctx later key endpoint owner code ttl body user_id db db' stored early whose =
    ground (
      arith,
      eq_iff key key,
      eq_iff endpoint endpoint,
      first-added later.now key endpoint user_id (key_row ctx key owner endpoint code body ttl)
          db.idempotency_keys,
    )

-- After a call that found no stored response, ran its operation and returned: until the response
-- that it stored expires, a second call with its key answers with that response and changes
-- nothing, whatever its own operation would do, for the same user and for a route that looks the
-- key up for every user.
pub idempotent_call-replay :
    (ctx later : Context) (code : ℕ) (key endpoint : String) (owner : ℕ) (user_id : Option ℕ)
    (body : Fields) (first_run again : Action (ℕ × Fields)) (db db' moved : Db)
    → get_cached_idempotent_response ctx key endpoint user_id db ≡ none
    → first_run db ≡ (ok (owner, body), moved)
    → idempotent_call ctx code key endpoint user_id first_run db ≡ (ok (Reply.processed body), db')
    → later.now < ctx.now + 24 * 3600
    → (user_id ≡ none) ⊎ (user_id ≡ some owner)
    → idempotent_call later code key endpoint user_id again db' ≡ (ok (Reply.from_cache body), db')
unfolding idempotent_call run_and_store store_idempotent_response
idempotent_call-replay ctx later code key endpoint owner user_id body first_run again db db' moved
      new ran answered early whose =
    ground (arith, store-get_cached ctx later key endpoint owner code 24 body user_id moved db')

-- If the lookup finds no response but the key is taken when the operation has returned (its
-- response has expired, or another user or endpoint holds it), the changes of the operation stay
-- and the call fails.
pub idempotent_call-taken :
    (ctx : Context) (code : ℕ) (key endpoint : String) (owner : ℕ) (user_id : Option ℕ)
    (body : Fields) (operation : Action (ℕ × Fields)) (db moved : Db)
    → get_cached_idempotent_response ctx key endpoint user_id db ≡ none
    → operation db ≡ (ok (owner, body), moved)
    → any_row (λ (k : IdempotencyKey). str_eq k.key key) moved.idempotency_keys ≡ true
    → idempotent_call ctx code key endpoint user_id operation db
      ≡ (err (Error.system_error "duplicate key value violates unique constraint"), moved)
unfolding idempotent_call run_and_store store_idempotent_response
idempotent_call-taken ctx code key endpoint owner user_id body operation db moved new ran taken =
    ground arith

taken-added :
    (key : String) (k : IdempotencyKey) (rows : List IdempotencyKey)
    → str_eq k.key key ≡ true
    → any_row (λ j. str_eq j.key key) (rows ++ k ∷ []) ≡ true
taken-added key k [] same = ground arith
taken-added key k (j ∷ rows) same = ground (arith, taken-added key k rows)

first-expired :
    (now : ℕ) (key endpoint : String) (user_id : Option ℕ) (k : IdempotencyKey)
    (rows : List IdempotencyKey)
    → any_row (λ j. str_eq j.key key) rows ≡ false
    → k.expires_at ≤ now
    → first (key_matches now key endpoint user_id) (rows ++ k ∷ []) ≡ none
first-expired now key endpoint user_id k [] fresh late = ground arith
first-expired now key endpoint user_id k (j ∷ rows) fresh late =
    ground (arith, first-expired now key endpoint user_id k rows)

-- A stored answer that has expired is not found, but its key is taken.
store-expires :
    (ctx later : Context) (key endpoint : String) (owner code ttl : ℕ) (body : Fields)
    (user_id : Option ℕ) (db db' : Db)
    → store_idempotent_response ctx key owner endpoint code body ttl db ≡ (ok tt, db')
    → ctx.now + ttl * 3600 ≤ later.now
    → (get_cached_idempotent_response later key endpoint user_id db' ≡ none)
      × (any_row (λ (k : IdempotencyKey). str_eq k.key key) db'.idempotency_keys ≡ true)
unfolding store_idempotent_response get_cached_idempotent_response
store-expires ctx later key endpoint owner code ttl body user_id db db' stored late =
    let row = key_row ctx key owner endpoint code body ttl in
    ground (
      arith,
      eq_iff key key,
      first-expired later.now key endpoint user_id row db.idempotency_keys,
      taken-added key row db.idempotency_keys,
    )

-- A key that is taken and finds no answer: the operation runs and the call raises.
taken-raises :
    (ctx : Context) (code : ℕ) (key endpoint : String) (user_id : Option ℕ)
    (operation : Action (ℕ × Fields)) (db : Db)
    → get_cached_idempotent_response ctx key endpoint user_id db ≡ none
    → any_row (λ (k : IdempotencyKey). str_eq k.key key) db.idempotency_keys ≡ true
    → (operation db).1.idempotency_keys ≡ db.idempotency_keys
    → (e : Error) × (idempotent_call ctx code key endpoint user_id operation db
        ≡ (err e, (operation db).1))
unfolding idempotent_call run_and_store store_idempotent_response
taken-raises ctx code key endpoint user_id operation db missing taken keeps =
    elim (Result-cases (operation db).0) [
      | inl (e, failed) ↦ (e, ground arith)
      | inr ((owner, body), ran) ↦
          (Error.system_error "duplicate key value violates unique constraint", ground arith)
    ]

-- After a call that found no stored response, ran its operation and returned: from the time on when
-- the response that it stored expires, every call with its key at its endpoint, by whichever user
-- and with whatever operation that leaves the table of keys alone, runs its operation, keeps what
-- that has committed and raises.
pub idempotent_call-expires :
    (ctx later : Context) (code : ℕ) (key endpoint : String) (owner : ℕ) (user_id caller : Option ℕ)
    (body : Fields) (first_run again : Action (ℕ × Fields)) (db db' moved : Db)
    → get_cached_idempotent_response ctx key endpoint user_id db ≡ none
    → first_run db ≡ (ok (owner, body), moved)
    → idempotent_call ctx code key endpoint user_id first_run db ≡ (ok (Reply.processed body), db')
    → ctx.now + 24 * 3600 ≤ later.now
    → (again db').1.idempotency_keys ≡ db'.idempotency_keys
    → (e : Error) × (idempotent_call later code key endpoint caller again db'
        ≡ (err e, (again db').1))
unfolding idempotent_call run_and_store store_idempotent_response
idempotent_call-expires ctx later code key endpoint owner user_id caller body first_run again db db'
      moved new ran answered late keeps =
    let stored : store_idempotent_response ctx key owner endpoint code body 24 moved
        ≡ (ok tt, db') =
      ground arith in
    let (missing, taken) =
      store-expires ctx later key endpoint owner code 24 body caller moved db' stored late in
    taken-raises later code key endpoint caller again db' missing taken keeps
