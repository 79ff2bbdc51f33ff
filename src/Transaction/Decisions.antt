-- ===== src/Transaction/Decisions.antt =====
-- `review_flagged_transaction`: which transactions it accepts and how it leaves them.
use bank_fastapi.Prelude.{
  if◌then◌else◌, ℕ, ◌≡◌, refl, inl, inr, Bool, true, false, Option, none, some, String, arith,
  Option-cases, ◌&&◌, subst,
}
use bank_fastapi.Prelude.Rows.{find-modify_self, modify}
use bank_fastapi.Models.{
  BankAccount, User, Transaction, TransactionType, RiskScore, TransactionStatus, AiReviewStatus,
}
use bank_fastapi.Core.{
  >>=-cases, Db, Context, Result, ok, err, Error, get_transaction, transaction_key, change,
  update_transaction,
}
use bank_fastapi.Transaction.Transfer.Complete.{completed_row}
use bank_fastapi.Transaction.Transfer.Initiate.{score_transfer}
use bank_fastapi.Transaction.Fraud.{flag_message, analyze_transaction, handle_flagged_transaction}
use bank_fastapi.Transaction.Failure.{mark_transaction_failed}
use bank_fastapi.Transaction.Review.{
  reject_approval, settle_approved_transfer, approve_funds, complete_approved_transfer, decided_row,
  complete_approved_withdrawal, decide, run_approval, review_note, annotated_row, score_of,
  decide_flagged, review_flagged_transaction,
}

-- Where the scoring of a new transfer falls back and no risk score is stored for its id, the
-- transfer is refused as flagged, but a review cannot reach it: `review_flagged_transaction`
-- answers that there is no such transaction.
pub score_transfer-unreviewable :
    (ctx later : Context) (t : Transaction) (sender : User) (db : Db) (reviewer : ℕ)
    (is_fraud approve : Bool) (notes : Option String)
    → ctx.predict t ≡ none
    → score_of t.id db ≡ none
    → ((score_transfer ctx t sender db).0 ≡ err (Error.flagged_transaction flag_message))
      × ((review_flagged_transaction later t.id reviewer is_fraud approve notes
            (score_transfer ctx t sender db).1).0
          ≡ err (Error.not_found "Transaction not found"))
unfolding score_transfer analyze_transaction handle_flagged_transaction review_flagged_transaction
    mark_transaction_failed
score_transfer-unreviewable ctx later t sender db reviewer is_fraud approve notes down unscored =
    ground arith

-- What an approval that returns does to the row of a transfer or of a withdrawal.
abbrev IsCompleted : Context → Transaction → Db → Result (Unit {0}) × Db → Type 0
IsCompleted ctx t db (ok u, db') =
    db'.transactions ≡ modify transaction_key t.id (completed_row ctx) db.transactions
IsCompleted ctx t db (err e, db') = Unit {0}

reject_approval-IsCompleted :
    (ctx : Context) (t : Transaction) (base db : Db) (reason : String)
    → IsCompleted ctx t db (reject_approval ctx t.id base reason)
unfolding reject_approval
reject_approval-IsCompleted ctx t base db reason = ground arith

approve_funds-IsCompleted :
    (ctx : Context) (base : Db) (t : Transaction) (a b : BankAccount) (db : Db)
    → IsCompleted ctx t db (approve_funds ctx base t a b db)
unfolding approve_funds settle_approved_transfer
approve_funds-IsCompleted ctx base t a b db = grind (arith, reject_approval-IsCompleted)

approved_transfer-IsCompleted :
    (ctx : Context) (base : Db) (t : Transaction) (db : Db)
    → IsCompleted ctx t db (complete_approved_transfer ctx base t db)
unfolding complete_approved_transfer
approved_transfer-IsCompleted ctx base t db =
    grind (arith, reject_approval-IsCompleted, approve_funds-IsCompleted)

approved_withdrawal-IsCompleted :
    (ctx : Context) (base : Db) (t : Transaction) (db : Db)
    → IsCompleted ctx t db (complete_approved_withdrawal ctx base t db)
unfolding complete_approved_withdrawal
approved_withdrawal-IsCompleted ctx base t db = grind (arith, reject_approval-IsCompleted)

abbrev pub moves_money : TransactionType → Bool
moves_money TransactionType.transfer = true
moves_money TransactionType.withdrawal = true
moves_money _ = false

-- The row after a review: how an approval leaves it, then the decision alone.
abbrev pub reviewed_row : Context → ℕ → Bool → Bool → Option String → Transaction → Transaction
reviewed_row ctx reviewer is_fraud approve notes t =
    annotated_row ctx (review_note ctx reviewer is_fraud notes) (
      if approve && moves_money t.transaction_type
      then completed_row ctx (decided_row is_fraud t)
      else decided_row is_fraud t)

abbrev pub Decides :
    Context → ℕ → Bool → Bool → Option String → Transaction → Result (Unit {0}) × Db → Type 0
Decides ctx reviewer is_fraud approve notes t (ok u, db') =
    get_transaction t.id db' ≡ some (reviewed_row ctx reviewer is_fraud approve notes t)
Decides ctx reviewer is_fraud approve notes t (err e, db') = Unit {0}

-- The part of the row's change that `run_approval` makes.
abbrev approved_row : Context → Bool → Transaction → Transaction → Transaction
approved_row ctx approve t r =
    if approve && moves_money t.transaction_type then completed_row ctx r else r

run_approval-row :
    (ctx : Context) (approve : Bool) (base : Db) (t r : Transaction) (db db' : Db)
    → get_transaction t.id db ≡ some r
    → run_approval ctx approve base t db ≡ (ok tt, db')
    → get_transaction t.id db' ≡ some (approved_row ctx approve t r)
unfolding run_approval
run_approval-row ctx false base t r db db' e h = ground arith
run_approval-row ctx true base t r db db' e h = ground (
  arith,
  find-modify_self transaction_key t.id (completed_row ctx) db.transactions r e refl,
  approved_transfer-IsCompleted ctx base t db,
  approved_withdrawal-IsCompleted ctx base t db,
)

decide_flagged-Decides :
    (ctx : Context) (reviewer : ℕ) (is_fraud approve : Bool) (notes : Option String)
    (t : Transaction) (s : RiskScore) (db : Db)
    → get_transaction t.id db ≡ some t
    → Decides ctx reviewer is_fraud approve notes t
        (decide_flagged ctx reviewer is_fraud approve notes t s db)
unfolding decide_flagged
decide_flagged-Decides ctx reviewer is_fraud approve notes t s db e =
    let pending = decide is_fraud reviewer t s db in
    let note = annotated_row ctx (review_note ctx reviewer is_fraud notes) in
    let row =
      find-modify_self transaction_key t.id (decided_row is_fraud) db.transactions t e
        (decided_row-key is_fraud) in
    >>=-cases (Decides ctx reviewer is_fraud approve notes t) (run_approval ctx approve db t)
      (λ _. change (update_transaction t.id note)) pending
      (λ a db' h.
        find-modify_self transaction_key t.id note db'.transactions
          (approved_row ctx approve t (decided_row is_fraud t))
          (run_approval-row ctx approve db t (decided_row is_fraud t) pending db' row h) refl)
      (λ x db' h. tt)
  where
    decided_row-key : (is_fraud : Bool) → transaction_key (decided_row is_fraud t) ≡ t.id
    decided_row-key true = refl
    decided_row-key false = refl

-- After a review that returns, the reviewed transaction's row is `reviewed_row`: confirmed fraud
-- and failed, or cleared, then completed if it was approved and moves money. Its metadata has the
-- review's note if it was empty or changes inside a dict are tracked, and is as it was otherwise.
pub review_flagged_transaction-Decides :
    (ctx : Context) (reviewer : ℕ) (is_fraud approve : Bool) (notes : Option String) (db : Db)
    (t : Transaction)
    → get_transaction t.id db ≡ some t
    → Decides ctx reviewer is_fraud approve notes t
        (review_flagged_transaction ctx t.id reviewer is_fraud approve notes db)
unfolding review_flagged_transaction
review_flagged_transaction-Decides ctx reviewer is_fraud approve notes db t e =
    elim (Option-cases (score_of t.id db)) [
      | inl unscored ↦ ground arith
      | inr (s, f) ↦
          ground (arith, decide_flagged-Decides ctx reviewer is_fraud approve notes t s db e)
    ]

-- A transfer or a withdrawal that is both confirmed as fraud and approved ends as completed, by
-- every review that returns.
pub review_flagged_transaction-fraud :
    (ctx : Context) (reviewer : ℕ) (notes : Option String) (db db' : Db) (t : Transaction)
    → get_transaction t.id db ≡ some t
    → moves_money t.transaction_type ≡ true
    → review_flagged_transaction ctx t.id reviewer true true notes db ≡ (ok tt, db')
    → (r : Transaction) × (get_transaction t.id db' ≡ some r)
      × (r.ai_review_status ≡ some AiReviewStatus.confirmed_fraud)
      × (r.status ≡ TransactionStatus.completed)
review_flagged_transaction-fraud ctx reviewer notes db db' t e moves h = (
  reviewed_row ctx reviewer true true notes t,
  subst (Decides ctx reviewer true true notes t) h
      (review_flagged_transaction-Decides ctx reviewer true true notes db t e),
  ground arith,
  ground arith,
)
