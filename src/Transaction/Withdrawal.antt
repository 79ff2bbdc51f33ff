-- ===== src/Transaction/Withdrawal.antt =====
-- transaction/service.py: `process_withdrawal`. The scoring commits in the middle, so the call is
-- two steps on the tables, with the session's copy of the account between them.
use Prim.Native.String
use bank_fastapi.Prelude.{ℕ, Bool, false, not, ◌&&◌, none, some, String, str_eq, if◌then◌else◌}
use bank_fastapi.Prelude.Int.{ℤ, pos, ◌-ℤ◌, ltb_ℤ}
use bank_fastapi.Prelude.Rows.{first}
use bank_fastapi.Models.{
  User, BankAccount, Transaction, TransactionType, TransactionCategory, TransactionStatus,
  FailureReason, is_active,
}
use bank_fastapi.Models.Metadata.{Value, end, field}
use bank_fastapi.Core.{
  ok, Result, Db, Context, Action, Error, err, ◌>>=◌, ◌>>◌, pure, raise_if, change, get_user,
  get_account, update_account, update_transaction,
}
use bank_fastapi.Transaction.Failure.{fail_if}
use bank_fastapi.Transaction.Deposit.{currency_value, text_or_null, add_transaction, set_balance}
use bank_fastapi.Transaction.Fraud.{analyze_transaction, flag_if}
use bank_fastapi.Transaction.Transfer.Plan.{has_number}

abbrev pub withdrawal_row : Context → ℕ → String → BankAccount → User → Transaction
withdrawal_row ctx amount description account user = record {
  id = ctx.new_id;
  amount = amount;
  description = description;
  reference = String.◌++◌ "WTH" ctx.hex;
  transaction_type = TransactionType.withdrawal;
  transaction_category = TransactionCategory.debit;
  status = TransactionStatus.pending;
  balance_before = account.balance;
  balance_after = account.balance -ℤ pos amount;
  sender_account_id = some account.id;
  receiver_account_id = none;
  sender_id = some user.id;
  receiver_id = none;
  processed_by = none;
  created_at = ctx.now;
  completed_at = none;
  transaction_metadata = some (
      field "currency" (Value.text (currency_value account.currency)) (
        field "account_number" (text_or_null account.account_number)
          (field "withdrawal_method" (Value.text "cash") end)));
  failed_reason = none;
  ai_review_status = none;
}

-- `User.username == username` at the account's owner
abbrev pub owned_by_name : String → Db → BankAccount → Bool
owned_by_name username db a = elim (get_user a.user_id db) [
  | none ↦ false
  | some u ↦ str_eq u.username username
]

-- The checks before the transaction is inserted: the account and its owner.
unfoldable pub plan_withdrawal : String → ℕ → String → Db → Result (BankAccount × User)
plan_withdrawal account_number amount username db =
    elim (first (λ a. has_number account_number a && owned_by_name username db a) db.accounts) [
      | none ↦ err (Error.not_found "Account or username not found")
      | some account ↦ elim (get_user account.user_id db) [
        | none ↦ err (Error.not_found "Account or username not found")
        | some user ↦
            if not (is_active account.account_status)
            then err (Error.account_not_active "Account is not active")
            else (if ltb_ℤ account.balance (pos amount)
                then err (Error.insufficient_balance "Insufficient balance")
                else ok (account, user))
      ]
    ]

unfoldable pub score_withdrawal : Context → Transaction → BankAccount → Action BankAccount
score_withdrawal ctx t account = do
  analysis ← analyze_transaction ctx t
  flag_if ctx t.id analysis
  pure account

-- Up to the scoring: returns the session's copy of the account.
unfoldable pub request_withdrawal : Context → String → ℕ → String → String → Action BankAccount
request_withdrawal ctx account_number amount username description db =
    elim (plan_withdrawal account_number amount username db) [
      | err e ↦ (err e, db)
      | ok (account, user) ↦
          let t = withdrawal_row ctx amount description account user in
          (add_transaction t >> score_withdrawal ctx t account) db
    ]

abbrev pub settled_row : Context → ℤ → ℤ → Transaction → Transaction
settled_row ctx before after t = record t {
  balance_before = before;
  balance_after = after;
  status = TransactionStatus.completed;
  completed_at = some ctx.now;
}

-- The account that the session holds after the locked SELECT.
abbrev pub account_view : Context → BankAccount → BankAccount → BankAccount
account_view ctx seen row = if ctx.populates_existing then row else seen

-- The critical section at the account that the session holds.
unfoldable pub debit_account : Context → ℕ → ℕ → BankAccount → Action ℕ
debit_account ctx id amount account = do
  fail_if ctx id (not (is_active account.account_status)) FailureReason.account_inactive
      (field "account" (Value.text "sender") end) "Account is not active"
      (Error.account_not_active "Account is not active")
  fail_if ctx id (ltb_ℤ account.balance (pos amount)) FailureReason.insufficient_balance
      (field "required_amount" (Value.amount amount)
        (field "available_balance" (Value.money account.balance) end))
      "Insufficient balance" (Error.insufficient_balance "Insufficient balance")
  let after = account.balance -ℤ pos amount
  raise_if (not (ctx.fits after)) (Error.system_error "numeric field overflow")
  change (update_transaction id (settled_row ctx account.balance after))
  change (update_account account.id (set_balance after))
  pure id

-- From the lock on.
unfoldable pub settle_withdrawal : Context → ℕ → ℕ → BankAccount → Action ℕ
settle_withdrawal ctx id amount seen db = elim (get_account seen.id db) [
  | none ↦ (err (Error.not_found "Account or username not found"), db)
  | some row ↦ debit_account ctx id amount (account_view ctx seen row) db
]

unfoldable pub process_withdrawal : Context → String → ℕ → String → String → Action ℕ
process_withdrawal ctx account_number amount username description = do
  seen ← request_withdrawal ctx account_number amount username description
  settle_withdrawal ctx ctx.new_id amount seen
