-- ===== src/Card/TopUp.antt =====
-- virtual_card/service.py: `top_up_virtual_card`, in two steps: the card and the account are read
-- first, then the account is locked, and the session's copies of both are used under the lock.
use Prim.Native.String
use bank_fastapi.Prelude.{ℕ, not, ◌&&◌, Option, none, some, String, if◌then◌else◌}
use bank_fastapi.Prelude.Int.{pos, ◌+ℤ◌, ◌-ℤ◌, ltb_ℤ}
use bank_fastapi.Models.{
  BankAccount, VirtualCard, Transaction, TransactionType, TransactionCategory, TransactionStatus,
  is_active, is_card_active, same_currency,
}
use bank_fastapi.Models.Metadata.{Value, end, field}
use bank_fastapi.Core.{
  Db, Context, Action, Error, Result, ok, err, ◌>>◌, pure, raise_if, change, get_account,
  update_account, update_card,
}
use bank_fastapi.Transaction.Deposit.{currency_value, add_transaction, set_balance}
use bank_fastapi.Transaction.Transfer.Plan.{has_number}
use bank_fastapi.Transaction.Withdrawal.{account_view}
use bank_fastapi.Card.Service.{get_card}

-- `card_last_four` is `card_number[-4:]`, which depends on nothing else: `last_four` is a text.
abbrev pub top_up_row : Context → ℕ → String → VirtualCard → BankAccount → String → Transaction
top_up_row ctx amount description card account last_four = record {
  id = ctx.new_id;
  amount = amount;
  description = description;
  reference = String.◌++◌ "TOPUP" ctx.hex;
  transaction_type = TransactionType.transfer;
  transaction_category = TransactionCategory.debit;
  status = TransactionStatus.completed;
  balance_before = account.balance;
  balance_after = account.balance -ℤ pos amount;
  sender_account_id = some account.id;
  receiver_account_id = none;
  sender_id = some account.user_id;
  receiver_id = none;
  processed_by = none;
  created_at = ctx.now;
  completed_at = some ctx.now;
  transaction_metadata = some (
      field "top_up_type" (Value.text "virtual_card") (
        field "card_id" (Value.number card.id) (
          field "card_last_four" (Value.text last_four)
            (field "currency" (Value.text (currency_value card.currency)) end))));
  failed_reason = none;
  ai_review_status = none;
}

-- The card and its account, by the card's id and the account's number.
abbrev pub card_and_account : ℕ → String → Db → Option (VirtualCard × BankAccount)
card_and_account id number db = elim (get_card id db) [
  | none ↦ none
  | some c ↦ elim (get_account c.bank_account_id db) [
    | none ↦ none
    | some a ↦ if has_number number a then some (c, a) else none
  ]
]

-- Before the lock: the session's copies.
unfoldable pub find_top_up : ℕ → String → Db → Result (VirtualCard × BankAccount)
find_top_up id number db = elim (card_and_account id number db) [
  | none ↦ err (Error.not_found "Virtual card or bank account not found")
  | some (card, account) ↦
      if not (is_card_active card.card_status)
      then err (Error.validation_failed "Card is not active")
      else (if not (same_currency card.currency account.currency)
          then err (Error.validation_failed "Currency mismatch between card and bank account")
          else ok (card, account))
]

-- The card's columns, from the session's copy of the card.
abbrev pub topped_up_row : Context → ℕ → VirtualCard → VirtualCard → VirtualCard
topped_up_row ctx amount seen c = record c {
  available_balance = seen.available_balance +ℤ pos amount;
  total_topped_up = seen.total_topped_up +ℤ pos amount;
  last_top_up_date = some ctx.now;
}

-- Under the lock, at the session's copies.
unfoldable pub fund_card : Context → ℕ → String → String → VirtualCard → BankAccount → Action ℕ
fund_card ctx amount description last_four card account = do
  raise_if (not (is_active account.account_status))
      (Error.account_not_active "Bank account is not active")
  raise_if (ltb_ℤ account.balance (pos amount))
      (Error.insufficient_balance "Insufficient balance in bank account")
  raise_if
      (not (
        ctx.fits (account.balance -ℤ pos amount)
        && (ctx.fits (card.available_balance +ℤ pos amount)
            && ctx.fits (card.total_topped_up +ℤ pos amount))))
      (Error.system_error "numeric field overflow")
  add_transaction (top_up_row ctx amount description card account last_four)
  change (update_account account.id (set_balance (account.balance -ℤ pos amount)))
  change (update_card card.id (topped_up_row ctx amount card))
  pure ctx.new_id

-- From the lock on.
unfoldable pub settle_top_up : Context → ℕ → String → String → VirtualCard → BankAccount → Action ℕ
settle_top_up ctx amount description last_four card seen db = elim (get_account seen.id db) [
  | none ↦ (err (Error.not_found "Virtual card or bank account not found"), db)
  | some row ↦ fund_card ctx amount description last_four card (account_view ctx seen row) db
]

-- Both steps, where no other commit falls between them.
unfoldable pub top_up_virtual_card : Context → ℕ → String → ℕ → String → String → Action ℕ
top_up_virtual_card ctx id number amount description last_four db =
    elim (find_top_up id number db) [
      | err e ↦ (err e, db)
      | ok (card, account) ↦ settle_top_up ctx amount description last_four card account db
    ]
