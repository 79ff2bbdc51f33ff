-- ===== src/Transaction/Accounting/Withdrawals.antt =====
-- The critical section of `process_withdrawal` and the sum of the balances.
use bank_fastapi.Prelude.{ℕ, ◌≡◌, Bool, true, false, some, arith, not, ◌&&◌}
use bank_fastapi.Prelude.Int.{pos, ◌+ℤ◌, ◌-ℤ◌, int_laws, parts_of_eq, ltb_ℤ}
use bank_fastapi.Prelude.Rows.{total-modify, find-modify_self}
use bank_fastapi.Models.{BankAccount, is_active}
use bank_fastapi.Core.{Db, Context, Result, ok, err, get_account, account_key, update_account}
use bank_fastapi.Transaction.Deposit.{set_balance}
use bank_fastapi.Transaction.Failure.{mark_transaction_failed}
use bank_fastapi.Transaction.Funds.{total_balance, balance_of, get_account_self}
use bank_fastapi.Transaction.Withdrawal.{account_view, settle_withdrawal, debit_account}

-- The conditions under which the money leaves the account, at the locked row.
abbrev pub can_withdraw : Context → ℕ → BankAccount → Bool
can_withdraw ctx amount a =
    is_active a.account_status
    && (not (ltb_ℤ a.balance (pos amount)) && ctx.fits (a.balance -ℤ pos amount))

abbrev pub Debits : Context → ℕ → BankAccount → Db → Result ℕ × Db → Type 0
Debits ctx amount a db (ok id, db') =
    (can_withdraw ctx amount a ≡ true) × (total_balance db' +ℤ pos amount ≡ total_balance db)
Debits ctx amount a db (err e, db') =
    (can_withdraw ctx amount a ≡ false) × (db'.accounts ≡ db.accounts)

pub debit-total :
    (amount : ℕ) (db : Db) (id : ℕ) (a : BankAccount)
    → get_account id db ≡ some a
    → total_balance (update_account a.id (set_balance (a.balance -ℤ pos amount)) db) +ℤ pos amount
      ≡ total_balance db
debit-total amount db id a e = omega (
  int_laws,
  parts_of_eq _ _ (
      total-modify account_key balance_of a.id (set_balance (a.balance -ℤ pos amount)) db.accounts a
        (get_account_self id db a e)),
)

-- What the session holds after the locked SELECT, where its copy is the row of the table.
pub account_view-same : (ctx : Context) (a : BankAccount) → account_view ctx a a ≡ a
account_view-same ctx a = ground arith

-- For a copy of an account that is still the row of the table when the lock is taken: the amount
-- leaves the sum of the balances exactly when the account is active, covers it and the rest fits
-- its column; otherwise the call raises and no account has changed.
pub settle_withdrawal-Debits :
    (ctx : Context) (id amount : ℕ) (seen : BankAccount) (db : Db)
    → get_account seen.id db ≡ some seen
    → Debits ctx amount seen db (settle_withdrawal ctx id amount seen db)
unfolding settle_withdrawal debit_account mark_transaction_failed
settle_withdrawal-Debits ctx id amount seen db current =
    rw (current, settle_withdrawal, account_view-same ctx seen)
      (ground (arith, debit-total amount db seen.id seen current))

-- For an account of the table, if the locked SELECT leaves the session's copy of it as it is: a
-- withdrawal that returns leaves the account at the balance that the session had read before the
-- scoring, less the amount, whatever was paid in or out of the locked row since.
pub settle_withdrawal-stale :
    (ctx : Context) (id amount : ℕ) (seen row : BankAccount) (db db' : Db)
    → ctx.populates_existing ≡ false
    → get_account seen.id db ≡ some row
    → settle_withdrawal ctx id amount seen db ≡ (ok id, db')
    → get_account seen.id db' ≡ some (set_balance (seen.balance -ℤ pos amount) row)
unfolding settle_withdrawal debit_account mark_transaction_failed
settle_withdrawal-stale ctx id amount seen row db db' stale e = ground (
  arith,
  find-modify_self account_key seen.id (set_balance (seen.balance -ℤ pos amount)) db.accounts row,
)
