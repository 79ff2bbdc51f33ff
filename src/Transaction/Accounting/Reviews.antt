-- ===== src/Transaction/Accounting/Reviews.antt =====
-- `review_flagged_transaction`: what an approval does to the sum of the balances.
use bank_fastapi.Prelude.{
  ℕ, ◌≡◌, refl, inl, inr, Bool, true, false, Option, some, String, arith, Option-cases, subst, ap,
}
use bank_fastapi.Prelude.Int.{ℤ, pos, ◌+ℤ◌, int_laws, parts_of_eq}
use bank_fastapi.Prelude.Rows.{total}
use bank_fastapi.Models.{BankAccount, Transaction, TransactionType, RiskScore}
use bank_fastapi.Models.Metadata.{get_field, or_empty}
use bank_fastapi.Core.{
  update_transaction, Db, Context, Result, ok, err, get_account, get_transaction, account_key,
  update_account, change, >>=-cases,
}
use bank_fastapi.Transaction.Locks.Order.{locked_account-sender, locked_account-receiver}
use bank_fastapi.Transaction.Funds.{
  total_balance, balance_of, move_balances-total, take_balance-total,
}
use bank_fastapi.Transaction.Transfer.Parties.{get_account?-self}
use bank_fastapi.Transaction.Transfer.Complete.{take_balance}
use bank_fastapi.Transaction.Review.{
  parse_converted, parsed, reject_approval, settle_approved_transfer, approve_funds,
  complete_approved_transfer, complete_approved_withdrawal, decide, run_approval, review_note,
  annotated_row, score_of, decide_flagged, review_flagged_transaction,
}

-- What an approval takes out of the accounts, and what it pays in.
abbrev pub debit_of : Bool → Transaction → ℕ
debit_of false t = 0
debit_of true t = elim t.transaction_type [
  | TransactionType.transfer ↦ t.amount
  | TransactionType.withdrawal ↦ t.amount
  | _ ↦ 0
]

abbrev pub converted_of : Transaction → ℤ
converted_of t =
    elim (parse_converted (get_field "converted_amount" (or_empty t.transaction_metadata))) [
      | parsed m ↦ m
      | _ ↦ pos 0
    ]

abbrev pub credit_of : Bool → Transaction → ℤ
credit_of false t = pos 0
credit_of true t = elim t.transaction_type [ TransactionType.transfer ↦ converted_of t | _ ↦ pos 0 ]

abbrev pub Moves : ℕ → ℤ → Db → Result (Unit {0}) × Db → Type 0
Moves debit credit base (ok u, db') = total_balance db' +ℤ pos debit ≡ total_balance base +ℤ credit
Moves debit credit base (err e, db') = db'.accounts ≡ base.accounts

reject_approval-Moves :
    (ctx : Context) (id debit : ℕ) (credit : ℤ) (base : Db) (reason : String)
    → Moves debit credit base (reject_approval ctx id base reason)
unfolding reject_approval
reject_approval-Moves ctx id debit credit base reason = ground arith

same_total : (db base : Db) → db.accounts ≡ base.accounts → total_balance db ≡ total_balance base
same_total db base e = ap (total account_key balance_of) e

approve_funds-Moves :
    (ctx : Context) (base : Db) (t : Transaction) (a b : BankAccount) (db : Db)
    → db.accounts ≡ base.accounts
    → get_account a.id db ≡ some a
    → get_account b.id db ≡ some b
    → Moves t.amount (converted_of t) base (approve_funds ctx base t a b db)
unfolding approve_funds settle_approved_transfer
approve_funds-Moves ctx base t a b db same ea eb =
    let moved = move_balances-total a.id b.id t.amount (converted_of t) db a b ea eb in
    grind (arith, reject_approval-Moves, moved, same_total db base same)

approved_transfer-Moves :
    (ctx : Context) (base : Db) (t : Transaction) (db : Db)
    → db.accounts ≡ base.accounts
    → Moves t.amount (converted_of t) base (complete_approved_transfer ctx base t db)
unfolding complete_approved_transfer
approved_transfer-Moves ctx base t db same = grind (
  arith,
  reject_approval-Moves,
  approve_funds-Moves,
  locked_account-sender t.sender_account_id t.receiver_account_id db,
  locked_account-receiver t.sender_account_id t.receiver_account_id db,
  get_account?-self t.sender_account_id db,
  get_account?-self t.receiver_account_id db,
)

withdrawn-total :
    (t : Transaction) (a : BankAccount) (db base : Db)
    → db.accounts ≡ base.accounts
    → get_account a.id db ≡ some a
    → total_balance (update_account a.id (take_balance t.amount) db) +ℤ pos t.amount
      ≡ total_balance base +ℤ pos 0
withdrawn-total t a db base same e = omega (
  int_laws,
  parts_of_eq _ _ (take_balance-total a.id t.amount db a e),
  parts_of_eq _ _ (same_total db base same),
)

approved_withdrawal-Moves :
    (ctx : Context) (base : Db) (t : Transaction) (db : Db)
    → db.accounts ≡ base.accounts
    → Moves t.amount (pos 0) base (complete_approved_withdrawal ctx base t db)
unfolding complete_approved_withdrawal
approved_withdrawal-Moves ctx base t db same =
    grind (arith, reject_approval-Moves, withdrawn-total, get_account?-self t.sender_account_id db)

run_approval-Moves :
    (ctx : Context) (approve : Bool) (base : Db) (t : Transaction) (db : Db)
    → db.accounts ≡ base.accounts
    → Moves (debit_of approve t) (credit_of approve t) base (run_approval ctx approve base t db)
unfolding run_approval
run_approval-Moves ctx false base t db same = ground (arith, same_total db base same)
run_approval-Moves ctx true base t db same = ground (
  arith,
  same_total db base same,
  approved_transfer-Moves ctx base t db same,
  approved_withdrawal-Moves ctx base t db same,
)

pub decide_flagged-Moves :
    (ctx : Context) (reviewer : ℕ) (is_fraud approve : Bool) (notes : Option String)
    (t : Transaction) (s : RiskScore) (db : Db)
    → Moves
        (debit_of approve t)
        (credit_of approve t)
        db
        (decide_flagged ctx reviewer is_fraud approve notes t s db)
unfolding decide_flagged
decide_flagged-Moves ctx reviewer is_fraud approve notes t s db =
    let pending = decide is_fraud reviewer t s db in
    let note = review_note ctx reviewer is_fraud notes in
    let P : Result (Unit {0}) × Db → Type 0 =
      λ x. Moves (debit_of approve t) (credit_of approve t) db x in
    let w = run_approval-Moves ctx approve db t pending refl in
    >>=-cases P (run_approval ctx approve db t)
      (λ _. change (update_transaction t.id (annotated_row ctx note))) pending
      (λ a db' e. subst P e w) (λ x db' e. subst P e w)

-- A review that returns at a transaction `t` changes the sum of all balances by the credit less
-- the debit of its approval: the converted amount and the amount of an approved transfer, nothing
-- and the amount of an approved withdrawal, nothing and nothing if it is not approved or of
-- another type. A review that raises leaves every account as it was.
pub review_flagged_transaction-Moves :
    (ctx : Context) (id reviewer : ℕ) (is_fraud approve : Bool) (notes : Option String) (db : Db)
    (t : Transaction)
    → get_transaction id db ≡ some t
    → Moves
        (debit_of approve t)
        (credit_of approve t)
        db
        (review_flagged_transaction ctx id reviewer is_fraud approve notes db)
unfolding review_flagged_transaction
review_flagged_transaction-Moves ctx id reviewer is_fraud approve notes db t e =
    elim (Option-cases (score_of id db)) [
      | inl unscored ↦ ground arith
      | inr (s, f) ↦ ground (arith, decide_flagged-Moves ctx reviewer is_fraud approve notes t s db)
    ]
