-- ===== src/Transaction/Deposit.antt =====
-- transaction/service.py: `process_deposit`.
use Prim.Native.String
use bank_fastapi.Prelude.{
  arith, ap, subst, false, ◌≡◌, str_eq, ◌||◌, ◌==◌, if◌then◌else◌, Bool, ℕ, not, Option, none, some,
  [], ◌∷◌, ◌++◌, String,
}
use bank_fastapi.Prelude.Rows.{any_row}
use bank_fastapi.Prelude.Int.{ℤ, pos, ◌+ℤ◌}
use bank_fastapi.Models.{
  User, BankAccount, Transaction, TransactionType, TransactionCategory, TransactionStatus, Currency,
  is_active,
}
use bank_fastapi.Models.Metadata.{Value, Fields, end, field}
use bank_fastapi.Core.{
  ok, err, >>=-cases, Result, ok, err, Db, Context, Action, Error, ◌>>=◌, ◌>>◌, pure, gets,
  or_raise, raise_if, change, get_user, get_account, update_account,
}

-- `currency.value`
abbrev pub currency_value : Currency → String
currency_value Currency.usd = "USD"
currency_value Currency.eur = "EUR"
currency_value Currency.gbp = "GBP"
currency_value Currency.kes = "KES"

-- A nullable text as JSON.
abbrev pub text_or_null : Option String → Value
text_or_null none = Value.null
text_or_null (some s) = Value.text s

abbrev pub teller_fields : Option User → Fields
teller_fields none = end
teller_fields (some teller) =
    field "teller_name" (Value.text teller.full_name)
      (field "teller_email" (Value.text teller.email) end)

-- The transaction as it is inserted.
abbrev pub deposit_row : Context → ℕ → BankAccount → User → ℕ → String → Option User → Transaction
deposit_row ctx amount account owner teller_id description teller = record {
  id = ctx.new_id;
  amount = amount;
  description = description;
  reference = String.◌++◌ "DEP" ctx.hex;
  transaction_type = TransactionType.deposit;
  transaction_category = TransactionCategory.credit;
  status = TransactionStatus.completed;
  balance_before = account.balance;
  balance_after = account.balance +ℤ pos amount;
  sender_account_id = none;
  receiver_account_id = some account.id;
  sender_id = none;
  receiver_id = some owner.id;
  processed_by = some teller_id;
  created_at = ctx.now;
  completed_at = some ctx.now;
  transaction_metadata = some (
      field "currency" (Value.text (currency_value account.currency))
        (field "account_number" (text_or_null account.account_number) (teller_fields teller)));
  failed_reason = none;
  ai_review_status = none;
}

-- The tables with a further transaction.
abbrev pub with_transaction : Transaction → Db → Db
with_transaction t db = record db { transactions = db.transactions ++ t ∷ [] }

-- The primary key and the unique index on the references refuse a row whose id or reference a
-- transaction of the table has.
abbrev pub is_taken : ℕ → String → Db → Bool
is_taken id reference db =
    any_row (λ r. (r.id == id) || str_eq r.reference reference) db.transactions

-- INSERT of a transaction, with the flush or commit that raises IntegrityError if it is taken.
unfoldable pub add_transaction : Transaction → Action (Unit {0})
add_transaction t db =
    if is_taken t.id t.reference db
    then (err (Error.system_error "duplicate key value violates unique constraint"), db)
    else (ok tt, with_transaction t db)

-- How an INSERT and what follows it end.
pub add_transaction-cases {ℓ κ} :
    {A : Type ℓ} (P : Result A × Db → Type κ) (t : Transaction) (k : Action A) (db : Db)
    → ((e : Error) → P (err e, db))
    → (is_taken t.id t.reference db ≡ false → P (k (with_transaction t db)))
    → P ((add_transaction t >> k) db)
unfolding add_transaction
add_transaction-cases P t k db refused added =
    >>=-cases P (add_transaction t) (λ _. k) db
      (λ a db' e.
        let free : is_taken t.id t.reference db ≡ false = ground arith in
        let new : with_transaction t db ≡ db' = ground arith in
        subst (λ d. P (k d)) new (added free))
      (λ x db' e. let old : db ≡ db' = ground arith in subst (λ d. P (err x, d)) old (refused x))

pub add_transaction-free {ℓ} :
    {A : Type ℓ} (t : Transaction) (k : Action A) (db : Db)
    → is_taken t.id t.reference db ≡ false
    → (add_transaction t >> k) db ≡ k (with_transaction t db)
unfolding add_transaction
add_transaction-free t k db free =
    >>=-cases (λ x. x ≡ k (with_transaction t db)) (add_transaction t) (λ _. k) db
      (λ a db' e. let new : db' ≡ with_transaction t db = ground (arith, free) in ap k new)
      (λ x db' e. ground (arith, free))

abbrev pub set_balance : ℤ → BankAccount → BankAccount
set_balance v a = record a { balance = v }

-- Returns the new transaction's id; the account and its owner are in the tables.
unfoldable pub process_deposit : Context → ℕ → ℕ → ℕ → String → Action ℕ
process_deposit ctx amount account_id teller_id description = do
  account ← or_raise (Error.not_found "Account not found") (← gets (get_account account_id))
  owner ← or_raise (Error.not_found "Account not found") (← gets (get_user account.user_id))
  raise_if (not (is_active account.account_status))
      (Error.account_not_active "Account is not active")
  teller ← gets (get_user teller_id)
  let balance_after = account.balance +ℤ pos amount
  raise_if (not (ctx.fits balance_after)) (Error.system_error "numeric field overflow")
  add_transaction (deposit_row ctx amount account owner teller_id description teller)
  change (update_account account.id (set_balance balance_after))
  pure ctx.new_id
