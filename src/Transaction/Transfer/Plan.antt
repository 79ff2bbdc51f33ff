-- ===== src/Transaction/Transfer/Plan.antt =====
-- transaction/service.py: the checks of `initiate_transfer`, in their order, and the row that it
-- inserts.
use Prim.Native.String
use bank_fastapi.Prelude.{
  ℕ, ◌+◌, Bool, true, false, not, ◌&&◌, ◌||◌, Option, none, some, String, str_eq, ◌==◌,
}
use bank_fastapi.Prelude.Int.{pos, ◌-ℤ◌, ltb_ℤ}
use bank_fastapi.Prelude.Rows.{first, any_row}
use bank_fastapi.Models.{
  User, BankAccount, Transaction, TransactionType, TransactionCategory, TransactionStatus, Currency,
  is_active, same_currency,
}
use bank_fastapi.Models.Metadata.{Value, Fields, end, field}
use bank_fastapi.Core.{Db, Context, Error, Result, ok, err, get_user}
use bank_fastapi.Core.Results.{◌>>=◌, ◌>>◌, refuse_if, or_refuse}
use bank_fastapi.Account.Conversion.{Conversion, calculate_conversion}
use bank_fastapi.Transaction.Deposit.{currency_value}

-- `BankAccount.account_number == number`
abbrev pub has_number : String → BankAccount → Bool
has_number number a = elim a.account_number [ none ↦ false | some n ↦ str_eq n number ]

-- `select(BankAccount, User).join(User).where(p)`: the account with its owner.
abbrev pub join_owner : (BankAccount → Bool) → Db → Option (BankAccount × User)
join_owner p db = elim (first p db.accounts) [
  | none ↦ none
  | some a ↦ elim (get_user a.user_id db) [ none ↦ none | some u ↦ some (a, u) ]
]

abbrev pub is_empty : String → Bool
is_empty s = str_eq s ""

-- The branch on the currencies, with its `except Exception` clause.
unfoldable pub convert : ℕ → Currency → Currency → Result Conversion
convert amount source target = elim (same_currency source target) [
  | true ↦ ok (record { converted_amount = amount; exchange_rate = 10000; conversion_fee = 0 })
  | false ↦ elim (calculate_conversion amount source target) [
    | ok c ↦ ok c
    | err e ↦ err (Error.validation_failed "Currency conversion failed")
  ]
]

abbrev pub transfer_metadata : ℕ → Conversion → BankAccount → BankAccount → Fields
transfer_metadata amount c sender receiver = field "conversion_rate" (Value.ratio c.exchange_rate) (
    field "conversion_fee" (Value.amount c.conversion_fee) (
      field "original_amount" (Value.amount amount) (
        field "converted_amount" (Value.amount c.converted_amount) (
          field "from_currency" (Value.text (currency_value sender.currency))
            (field "to_currency" (Value.text (currency_value receiver.currency)) end)))))

abbrev pub transfer_row :
    Context → ℕ → String → Conversion → BankAccount → User → BankAccount → User → Transaction
transfer_row ctx amount description c sender_account sender receiver_account receiver = record {
  id = ctx.new_id;
  amount = amount;
  description = description;
  reference = String.◌++◌ "TRF" ctx.hex;
  transaction_type = TransactionType.transfer;
  transaction_category = TransactionCategory.debit;
  status = TransactionStatus.pending;
  balance_before = sender_account.balance;
  balance_after = sender_account.balance -ℤ pos amount;
  sender_account_id = some sender_account.id;
  receiver_account_id = some receiver_account.id;
  sender_id = some sender.id;
  receiver_id = some receiver.id;
  processed_by = none;
  created_at = ctx.now;
  completed_at = none;
  transaction_metadata = some (transfer_metadata amount c sender_account receiver_account);
  failed_reason = none;
  ai_review_status = none;
}

abbrev pub issue_otp : Context → User → User
issue_otp ctx u = record u { otp = ctx.otp; otp_expiry_time = some (ctx.now + ctx.otp_expiration) }

-- What the checks hand on.
pub record Plan : Type 0 where
  pub sender_account : BankAccount
  pub sender : User
  pub receiver_account : BankAccount
  pub receiver : User
  pub conversion : Conversion

unfoldable pub plan_transfer : Context → ℕ → ℕ → String → ℕ → String → Db → Result Plan
plan_transfer ctx sender_id sender_account_id receiver_number amount answer db = do
  refuse_if (any_row (λ a. has_number receiver_number a && (a.user_id == sender_id)) db.accounts)
      (Error.validation_failed "Cannot transfer to your own account")
  (sender_account, sender) ←
      or_refuse (Error.not_found "Sender account not found")
        (join_owner (λ a. (a.id == sender_account_id) && (a.user_id == sender_id)) db)
  refuse_if (not (is_active sender_account.account_status))
      (Error.account_not_active "Sender account is not active")
  refuse_if (is_empty sender.security_answer || not (ctx.verify answer sender.security_answer))
      (Error.unauthorized "Incorrect security answer")
  (receiver_account, receiver) ←
      or_refuse (Error.not_found "Receiver account not found")
        (join_owner (has_number receiver_number) db)
  refuse_if (not (is_active receiver_account.account_status))
      (Error.account_not_active "Receiver account is not active")
  refuse_if (ltb_ℤ sender_account.balance (pos amount))
      (Error.insufficient_balance "Insufficient balance")
  conversion ← convert amount sender_account.currency receiver_account.currency
  ok (record {
    sender_account = sender_account;
    sender = sender;
    receiver_account = receiver_account;
    receiver = receiver;
    conversion = conversion;
  })
