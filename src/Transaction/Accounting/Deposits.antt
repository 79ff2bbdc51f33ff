-- ===== src/Transaction/Accounting/Deposits.antt =====
-- `process_deposit`, on every branch.
use Prim.Native.String
use bank_fastapi.Prelude.{not, ◌&&◌, ℕ, ◌≡◌, Bool, true, false, none, some, String, is_some}
use bank_fastapi.Prelude.Int.{pos, ◌+ℤ◌}
use bank_fastapi.Models.{is_active}
use bank_fastapi.Core.{Db, Context, Result, ok, err, get_account, get_user}
use bank_fastapi.Transaction.Deposit.{is_taken}
use bank_fastapi.Transaction.Funds.{has_transaction, total_balance}

-- The conditions under which a deposit goes through.
abbrev pub can_deposit : Context → ℕ → ℕ → Db → Bool
can_deposit ctx amount id db = elim (get_account id db) [
  | none ↦ false
  | some a ↦
      is_some (get_user a.user_id db)
      && (is_active a.account_status
          && (ctx.fits (a.balance +ℤ pos amount)
              && not (is_taken ctx.new_id (String.◌++◌ "DEP" ctx.hex) db)))
]

abbrev pub Deposits : Context → ℕ → ℕ → Db → Result ℕ × Db → Type 0
Deposits ctx amount id db (ok t, db') =
    (can_deposit ctx amount id db ≡ true)
    × (total_balance db' ≡ total_balance db +ℤ pos amount)
    × (has_transaction t db' ≡ true)
Deposits ctx amount id db (err e, db') = (can_deposit ctx amount id db ≡ false) × (db' ≡ db)
