-- ===== src/Transaction/Ledger/Approvals.antt =====
-- An approval after a review is a step of the ledger.
use bank_fastapi.Prelude.{
  ◌&&◌, ℕ, ◌≡◌, refl, subst, inl, inr, Bool, true, false, none, some, String, Option-cases,
  Bool-cases,
}
use bank_fastapi.Prelude.Int.{ℤ, pos, ◌≤ℤ◌, ltb_ℤ}
use bank_fastapi.Prelude.Rows.{find}
use bank_fastapi.Models.{BankAccount, Transaction, TransactionType}
use bank_fastapi.Models.Metadata.{is_blank, get_field, or_empty}
use bank_fastapi.Core.{
  account_key, Db, Context, get_account, get_user?, get_account?, update_account,
}
use bank_fastapi.Transaction.Locks.Order.{locked_account-sender, locked_account-receiver}
use bank_fastapi.Transaction.Transfer.Complete.{take_balance, move_balances, row_fits}
use bank_fastapi.Transaction.Transfer.Parties.{get_account?-self}
use bank_fastapi.Transaction.Review.{
  reject_approval, settle_approved_transfer, approve_funds, complete_approved_transfer,
  complete_approved_withdrawal, run_approval, parse_converted, Parsed,
}
use bank_fastapi.Transaction.Ledger.{LedgerStep, book}
use bank_fastapi.Transaction.Ledger.Postings.{
  take_balance-book, move_balances-book, row-Covers, same-book,
}
use bank_fastapi.Transaction.Ledger.Refinement.{Refines, covered}

reject_approval-Refines :
    (ctx : Context) (id : ℕ) (base : Db) (reason : String)
    → Refines base (reject_approval ctx id base reason)
unfolding reject_approval
reject_approval-Refines ctx id base reason = elim (Bool-cases ctx.reloads_expired) [
  | inl on ↦ rw (reject_approval, on) (LedgerStep.idle (λ j. refl))
  | inr off ↦ rw (reject_approval, off) (LedgerStep.idle (λ j. refl))
]

-- The same accounts before a step.
rebase :
    (db base last : Db)
    → db.accounts ≡ base.accounts
    → LedgerStep (book db) (book last)
    → LedgerStep (book base) (book last)
rebase db base last same step =
    subst
      (λ rows.
        LedgerStep (λ k. elim (find account_key k rows) [ none ↦ none | some a ↦ some a.balance ])
          (book last))
      same step

settle_approved-Refines :
    (ctx : Context) (base : Db) (t : Transaction) (a b : BankAccount) (v : ℤ) (db : Db)
    → db.accounts ≡ base.accounts
    → get_account a.id db ≡ some a
    → pos t.amount ≤ℤ a.balance
    → Refines base (settle_approved_transfer ctx base t a b v db)
unfolding settle_approved_transfer
settle_approved-Refines ctx base t a b v db same ea cover =
    let moved = move_balances a.id b.id t.amount v db in
    elim (Bool-cases (row_fits ctx a.id moved && row_fits ctx b.id moved)) [
      | inr full ↦
          rw (settle_approved_transfer, full)
            (reject_approval-Refines ctx t.id base "Failed to process transfer")
      | inl fits ↦
          rw (settle_approved_transfer, fits)
            (rebase db base moved same (
              LedgerStep.moves a.id b.id t.amount v (row-Covers a.id t.amount db a ea cover)
                (move_balances-book a.id b.id t.amount v db)))
    ]

approve_funds-Refines :
    (ctx : Context) (base : Db) (t : Transaction) (a b : BankAccount) (db : Db)
    → db.accounts ≡ base.accounts
    → get_account a.id db ≡ some a
    → Refines base (approve_funds ctx base t a b db)
unfolding approve_funds
approve_funds-Refines ctx base t a b db same ea =
    elim (Bool-cases (is_blank t.transaction_metadata)) [
      | inl blank ↦
          rw (approve_funds, blank)
            (reject_approval-Refines ctx t.id base "Transaction metadata is missing")
      | inr there ↦
          by_value there
            (parse_converted (get_field "converted_amount" (or_empty t.transaction_metadata))) refl
    ]
  where
    by_value :
        is_blank t.transaction_metadata ≡ false
        → (v : Parsed)
        → parse_converted (get_field "converted_amount" (or_empty t.transaction_metadata)) ≡ v
        → Refines base (approve_funds ctx base t a b db)
    by_value there Parsed.missing e =
        rw (approve_funds, there, e)
          (reject_approval-Refines ctx t.id base "Converted amount is missing from metadata")
    by_value there Parsed.invalid_type e =
        rw (approve_funds, there, e)
          (reject_approval-Refines ctx t.id base "Invalid converted amount format")
    by_value there Parsed.invalid_operation e =
        rw (approve_funds, there, e) (LedgerStep.idle (λ j. refl))
    by_value there (Parsed.parsed v) e = elim (Bool-cases (ltb_ℤ a.balance (pos t.amount))) [
      | inl poor ↦
          rw (approve_funds, there, e, poor)
            (reject_approval-Refines ctx t.id base "Insufficient balance for transfer")
      | inr rich ↦
          rw (approve_funds, there, e, rich)
            (settle_approved-Refines ctx base t a b v db same ea (covered a t.amount rich))
    ]

approved_withdrawal-Refines :
    (ctx : Context) (base : Db) (t : Transaction) (db : Db)
    → db.accounts ≡ base.accounts
    → Refines base (complete_approved_withdrawal ctx base t db)
unfolding complete_approved_withdrawal
approved_withdrawal-Refines ctx base t db same = elim (Option-cases (get_user? t.sender_id db)) [
  | inl gone ↦
      rw (complete_approved_withdrawal, gone)
        (reject_approval-Refines ctx t.id base "User not found")
  | inr (u, eu) ↦ elim (Option-cases (get_account? t.sender_account_id db)) [
    | inl gone ↦
        rw (complete_approved_withdrawal, eu, gone)
          (reject_approval-Refines ctx t.id base "Account not found")
    | inr (a, ea) ↦
        let row = get_account?-self t.sender_account_id db a ea in
        let moved = update_account a.id (take_balance t.amount) db in
        elim (Bool-cases (ltb_ℤ a.balance (pos t.amount))) [
          | inl poor ↦
              rw (complete_approved_withdrawal, eu, ea, poor)
                (reject_approval-Refines ctx t.id base "Insufficient balance for withdrawal")
          | inr rich ↦ elim (Bool-cases (row_fits ctx a.id moved)) [
            | inr full ↦
                rw (complete_approved_withdrawal, eu, ea, rich, full)
                  (reject_approval-Refines ctx t.id base "Failed to process withdrawal")
            | inl fits ↦
                rw (complete_approved_withdrawal, eu, ea, rich, fits)
                  (rebase db base moved same (
                    LedgerStep.spends a.id t.amount
                      (row-Covers a.id t.amount db a row (covered a t.amount rich))
                      (take_balance-book a.id t.amount db)))
          ]
        ]
  ]
]

approved_transfer-Refines :
    (ctx : Context) (base : Db) (t : Transaction) (db : Db)
    → db.accounts ≡ base.accounts
    → Refines base (complete_approved_transfer ctx base t db)
unfolding complete_approved_transfer
approved_transfer-Refines ctx base t db same = elim (Option-cases (get_user? t.sender_id db)) [
  | inl gone ↦
      rw (complete_approved_transfer, gone)
        (reject_approval-Refines ctx t.id base "Sender not found")
  | inr (u, eu) ↦ elim (Option-cases (get_user? t.receiver_id db)) [
    | inl gone ↦
        rw (complete_approved_transfer, eu, gone)
          (reject_approval-Refines ctx t.id base "Receiver not found")
    | inr (v, ev) ↦
        let sent = locked_account-sender t.sender_account_id t.receiver_account_id db in
        let received = locked_account-receiver t.sender_account_id t.receiver_account_id db in
        elim (Option-cases (get_account? t.sender_account_id db)) [
          | inl gone ↦
              rw (complete_approved_transfer, eu, ev, sent, gone)
                (reject_approval-Refines ctx t.id base "Sender account not found")
          | inr (a, ea) ↦ elim (Option-cases (get_account? t.receiver_account_id db)) [
            | inl gone ↦
                rw (complete_approved_transfer, eu, ev, sent, ea, received, gone)
                  (reject_approval-Refines ctx t.id base "Receiver account not found")
            | inr (b, eb) ↦
                rw (complete_approved_transfer, eu, ev, sent, ea, received, eb)
                  (approve_funds-Refines ctx base t a b db same
                    (get_account?-self t.sender_account_id db a ea))
          ]
        ]
  ]
]

pub run_approval-Refines :
    (ctx : Context) (approve : Bool) (base : Db) (t : Transaction) (db : Db)
    → db.accounts ≡ base.accounts
    → Refines base (run_approval ctx approve base t db)
unfolding run_approval
run_approval-Refines ctx false base t db same = same-book base db same
run_approval-Refines ctx true base t db same = by_type t.transaction_type refl
  where
    by_type :
        (k : TransactionType)
        → t.transaction_type ≡ k
        → Refines base (run_approval ctx true base t db)
    by_type TransactionType.transfer e =
        rw (run_approval, e) (approved_transfer-Refines ctx base t db same)
    by_type TransactionType.withdrawal e =
        rw (run_approval, e) (approved_withdrawal-Refines ctx base t db same)
    by_type TransactionType.deposit e = rw (run_approval, e) (same-book base db same)
    by_type TransactionType.reversal e = rw (run_approval, e) (same-book base db same)
    by_type TransactionType.fee_charged e = rw (run_approval, e) (same-book base db same)
    by_type TransactionType.loan_disbursement e = rw (run_approval, e) (same-book base db same)
    by_type TransactionType.loan_repayment e = rw (run_approval, e) (same-book base db same)
    by_type TransactionType.interest_credited e = rw (run_approval, e) (same-book base db same)
