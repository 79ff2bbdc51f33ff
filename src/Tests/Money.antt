-- ===== src/Tests/Money.antt =====
-- Deposits and withdrawals: the theorems at the small bank.
use bank_fastapi.Prelude.{◌≡◌, refl, some}
use bank_fastapi.Prelude.Int.{pos, ◌-ℤ◌}
use bank_fastapi.Models.{BankAccount}
use bank_fastapi.Core.{Db, get_account, update_account}
use bank_fastapi.Transaction.Deposit.{set_balance}
use bank_fastapi.Transaction.Withdrawal.{settle_withdrawal, debit_account}
use bank_fastapi.Transaction.Accounting.Deposits.{Deposits}
use bank_fastapi.Transaction.Accounting.Withdrawals.{
  Debits, settle_withdrawal-Debits, settle_withdrawal-stale,
}
use bank_fastapi.Tests.Fixtures.{ctx, ctx_stale, ann_account, bank}

settle_withdrawal-Debits_example :
    Debits ctx 700 ann_account bank (settle_withdrawal ctx 100 700 ann_account bank)
settle_withdrawal-Debits_example = settle_withdrawal-Debits ctx 100 700 ann_account bank refl

-- Ann's account after a deposit of 500 that another request made during the scoring.
abbrev row : BankAccount
row = record ann_account { balance = pos 10500 }

abbrev deposited : Db
deposited = update_account 10 (λ _. row) bank

settle_withdrawal-stale_example :
    get_account 10 (settle_withdrawal ctx_stale 100 700 ann_account deposited).1
    ≡ some (set_balance (pos 10000 -ℤ pos 700) row)
unfolding settle_withdrawal debit_account
settle_withdrawal-stale_example =
    settle_withdrawal-stale ctx_stale 100 700 ann_account row deposited
      (settle_withdrawal ctx_stale 100 700 ann_account deposited).1 refl refl refl
