-- ===== src/Transaction/Transfer/Initiated.antt =====
-- How a call of `initiate_transfer` ends.
use bank_fastapi.Prelude.{
  str_eq, ◌||◌, ℕ, ◌≡◌, refl, inl, inr, false, Option, none, some, String, arith, Option-cases,
  ◌==◌, [], ◌∷◌, ◌++◌, List,
}
use bank_fastapi.Prelude.Rows.{any_row, find, first-append, first-holds, find-modify_self}
use bank_fastapi.Models.{User, Transaction}
use bank_fastapi.Core.{
  Db, Context, Result, Result-cases, ok, err, get_user, get_transaction, transaction_key, user_key,
  update_transaction,
}
use bank_fastapi.Transaction.Failure.{mark_transaction_failed}
use bank_fastapi.Transaction.Deposit.{add_transaction-cases, with_transaction}
use bank_fastapi.Transaction.Fraud.{
  needs_review_at, assessed_row, analyze_transaction, handle_flagged_transaction,
}
use bank_fastapi.Transaction.Transfer.Plan.{Plan, plan_transfer, issue_otp}
use bank_fastapi.Transaction.Transfer.Initiate.{score_transfer, planned_row, initiate_transfer}

-- The transaction's row after a scoring that lets it pass.
abbrev pub IsCleanRow : Context → Option ℕ → Transaction → Option Transaction → Type 0
IsCleanRow ctx none t row = ⊥
IsCleanRow ctx (some score) t row =
    (needs_review_at score ≡ false) × (row ≡ some (assessed_row ctx score t))

-- A call that began at `db`, by what its checks said and how it ended.
abbrev pub Initiates : Context → ℕ → String → Result Plan → Db → Result ℕ × Db → Type 0
Initiates ctx amount description planned db (err e, db') =
    (db'.accounts ≡ db.accounts) × (db'.users ≡ db.users)
Initiates ctx amount description (err e) db (ok id, db') = ⊥
Initiates ctx amount description (ok p) db (ok id, db') =
    (db'.accounts ≡ db.accounts)
    × (id ≡ ctx.new_id)
    × (get_user p.sender.id db' ≡ some (issue_otp ctx p.sender))
    × IsCleanRow ctx (ctx.predict (planned_row ctx amount description p))
        (planned_row ctx amount description p) (get_transaction id db')

added_row :
    (t : Transaction) (rows : List Transaction)
    → find transaction_key t.id rows ≡ none
    → find transaction_key t.id (rows ++ t ∷ []) ≡ some t
added_row t rows fresh =
    ground (arith, first-append (λ (r : Transaction). transaction_key r == t.id) rows (t ∷ []))

-- Where neither an id nor a reference is taken, no row has the id, and none is found by tests that
-- ask for the reference.
pub not_taken-missing :
    (id : ℕ) (reference : String) (rows : List Transaction)
    → any_row (λ (r : Transaction). (r.id == id) || str_eq r.reference reference) rows ≡ false
    → find transaction_key id rows ≡ none
not_taken-missing id reference [] free = refl
not_taken-missing id reference (r ∷ rows) free = ground (arith, not_taken-missing id reference rows)

assessed-added :
    (ctx : Context) (score : ℕ) (t : Transaction) (db : Db)
    → get_transaction t.id db ≡ none
    → get_transaction t.id
        (update_transaction t.id (assessed_row ctx score) (with_transaction t db))
      ≡ some (assessed_row ctx score t)
assessed-added ctx score t db fresh =
    find-modify_self transaction_key t.id (assessed_row ctx score)
      (with_transaction t db).transactions t (added_row t db.transactions fresh) refl

-- The sender that the checks hand on is a row of the table.
get_user_self : (k : ℕ) (db : Db) (u : User) → get_user k db ≡ some u → get_user u.id db ≡ some u
get_user_self k db u e = ground (arith, first-holds (λ (r : User). r.id == k) db.users u e)

plan_transfer-sender :
    (ctx : Context) (sender_id account_id : ℕ) (number : String) (amount : ℕ) (answer : String)
    (db : Db) (p : Plan)
    → plan_transfer ctx sender_id account_id number amount answer db ≡ ok p
    → get_user p.sender.id db ≡ some p.sender
unfolding plan_transfer
plan_transfer-sender ctx sender_id account_id number amount answer db p e =
    grind (arith, get_user_self)

score_transfer-Initiates :
    (ctx : Context) (amount : ℕ) (description : String) (p : Plan) (db : Db)
    → get_transaction ctx.new_id db ≡ none
    → get_user p.sender.id db ≡ some p.sender
    → Initiates ctx amount description (ok p) db (
        score_transfer ctx
          (planned_row ctx amount description p)
          p.sender
          (with_transaction (planned_row ctx amount description p) db))
unfolding score_transfer analyze_transaction handle_flagged_transaction mark_transaction_failed
score_transfer-Initiates ctx amount description p db fresh row =
    let t = planned_row ctx amount description p in
    let issued = find-modify_self user_key p.sender.id (issue_otp ctx) db.users p.sender row refl in
    elim (Option-cases (ctx.predict t)) [
      | inl down ↦ ground arith
      | inr (score, e) ↦ ground (arith, issued, assessed-added ctx score t db fresh)
    ]

-- A call of `initiate_transfer` leaves every account as it was. It returns only if the checks passed and the model's score needs no review; then the transaction is
-- the planned one with its assessment, and the sender has the new OTP. If it raises, no user has
-- changed.
pub initiate_transfer-Initiates :
    (ctx : Context) (sender_id account_id : ℕ) (number : String) (amount : ℕ)
    (description answer : String) (db : Db)
    → Initiates ctx amount description
        (plan_transfer ctx sender_id account_id number amount answer db)
        db
        (initiate_transfer ctx sender_id account_id number amount description answer db)
unfolding initiate_transfer
initiate_transfer-Initiates ctx sender_id account_id number amount description answer db =
    elim (Result-cases (plan_transfer ctx sender_id account_id number amount answer db)) [
      | inl (e, refused) ↦ rw (refused, initiate_transfer) (refl, refl)
      | inr (p, h) ↦
          let t = planned_row ctx amount description p in
          rw (h, initiate_transfer)
            (add_transaction-cases (Initiates ctx amount description (ok p) db) t
              (score_transfer ctx t p.sender) db (λ e. (refl, refl))
              (λ free.
                score_transfer-Initiates ctx amount description p db
                  (not_taken-missing t.id t.reference db.transactions free)
                  (plan_transfer-sender ctx sender_id account_id number amount answer db p h)))
    ]
