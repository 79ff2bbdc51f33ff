-- ===== src/Transaction/Ledger/Postings.antt =====
-- The writes of the services as postings.
use bank_fastapi.Prelude.{ℕ, ◌≡◌, refl, some, arith, ◌==◌, if◌then◌else◌}
use bank_fastapi.Prelude.Int.{ℤ, pos, ◌+ℤ◌, ◌-ℤ◌, ◌≤ℤ◌}
use bank_fastapi.Prelude.Rows.{find-modify}
use bank_fastapi.Models.{BankAccount}
use bank_fastapi.Core.{Db, get_account, account_key, update_account}
use bank_fastapi.Transaction.Deposit.{set_balance}
use bank_fastapi.Transaction.Transfer.Complete.{take_balance, add_balance, move_balances}
use bank_fastapi.Transaction.Ledger.{receive_at, spend_at, Covers, LedgerStep, book}

pub add_balance-book :
    (k : ℕ) (v : ℤ) (db : Db) (j : ℕ)
    → book (update_account k (add_balance v) db) j ≡ receive_at k v (book db) j
add_balance-book k v db j =
    ground (arith, find-modify account_key j k (add_balance v) db.accounts (λ r. refl))

pub take_balance-book :
    (k amount : ℕ) (db : Db) (j : ℕ)
    → book (update_account k (take_balance amount) db) j ≡ spend_at k amount (book db) j
take_balance-book k amount db j =
    ground (arith, find-modify account_key j k (take_balance amount) db.accounts (λ r. refl))

pub move_balances-book :
    (s r amount : ℕ) (v : ℤ) (db : Db) (j : ℕ)
    → book (move_balances s r amount v db) j ≡ receive_at r v (spend_at s amount (book db)) j
move_balances-book s r amount v db j = ground (
  arith,
  add_balance-book r v (update_account s (take_balance amount) db) j,
  take_balance-book s amount db j,
)

pub set_balance-book :
    (k : ℕ) (v : ℤ) (db : Db) (a : BankAccount) (j : ℕ)
    → get_account k db ≡ some a
    → book (update_account k (set_balance v) db) j ≡ (if k == j then some v else book db j)
set_balance-book k v db a j e =
    ground (arith, find-modify account_key j k (set_balance v) db.accounts (λ r. refl))

pub deposit-book :
    (k amount : ℕ) (db : Db) (a : BankAccount) (j : ℕ)
    → get_account k db ≡ some a
    → book (update_account k (set_balance (a.balance +ℤ pos amount)) db) j
      ≡ receive_at k (pos amount) (book db) j
deposit-book k amount db a j e =
    ground (arith, set_balance-book k (a.balance +ℤ pos amount) db a j e)

pub debit-book :
    (k amount : ℕ) (db : Db) (a : BankAccount) (j : ℕ)
    → get_account k db ≡ some a
    → book (update_account k (set_balance (a.balance -ℤ pos amount)) db) j
      ≡ spend_at k amount (book db) j
debit-book k amount db a j e = ground (arith, set_balance-book k (a.balance -ℤ pos amount) db a j e)

-- A row that covers an amount.
pub row-Covers :
    (k amount : ℕ) (db : Db) (a : BankAccount)
    → get_account k db ≡ some a
    → pos amount ≤ℤ a.balance
    → Covers (book db) k amount
row-Covers k amount db a e h = (a.balance, rw (book, e) refl, h)

-- The same rows of accounts are the same ledger.
pub same-book : (db db' : Db) → db'.accounts ≡ db.accounts → LedgerStep (book db) (book db')
same-book db db' same = LedgerStep.idle (λ j. rw (book, same) refl)
