-- ===== src/Transaction/Funds.antt =====
-- The money in the accounts: the sum of the balances, and no balance below zero. `move_balances`
-- is the pair of writes that both ways of completing a transfer make.
use bank_fastapi.Prelude.{
  is_some, true, List, [], ◌∷◌, ◌++◌, ℕ, ◌≡◌, ◌≢◌, refl, ◌∙◌, sym, subst, Bool, some, arith, ◌==◌,
  if◌then◌else◌,
}
use bank_fastapi.Prelude.Int.{ℤ, pos, ◌+ℤ◌, ◌≤ℤ◌, int_laws, parts_of_eq}
use bank_fastapi.Prelude.Rows.{
  find, All, All-first, All-modify, find-modify, find-modify_ne, total, total-modify,
}
use bank_fastapi.Models.{Transaction, BankAccount}
use bank_fastapi.Core.{
  transaction_key, get_transaction, Db, account_key, get_account, update_account,
}
use bank_fastapi.Transaction.Deposit.{set_balance, with_transaction}
use bank_fastapi.Transaction.Locks.Order.{get_account-key}
use bank_fastapi.Transaction.Transfer.Complete.{move_balances, add_balance, take_balance}

abbrev pub balance_of : BankAccount → ℤ
balance_of a = a.balance

-- The sum of all balances.
abbrev pub total_balance : Db → ℤ
total_balance db = total account_key balance_of db.accounts

-- No balance is below zero.
abbrev pub IsSolvent : Db → Type 0
IsSolvent db = All (λ a. pos 0 ≤ℤ a.balance) db.accounts

pub take_balance-total :
    (id amount : ℕ) (db : Db) (a : BankAccount)
    → get_account id db ≡ some a
    → total_balance (update_account id (take_balance amount) db) +ℤ pos amount ≡ total_balance db
take_balance-total id amount db a e = omega (
  int_laws,
  parts_of_eq _ _ (total-modify account_key balance_of id (take_balance amount) db.accounts a e),
)

pub add_balance-total :
    (id : ℕ) (m : ℤ) (db : Db) (a : BankAccount)
    → get_account id db ≡ some a
    → total_balance (update_account id (add_balance m) db) ≡ total_balance db +ℤ m
add_balance-total id m db a e = omega (
  int_laws,
  parts_of_eq _ _ (total-modify account_key balance_of id (add_balance m) db.accounts a e),
)

-- The receiver's row after the debit, also where it is the sender's.
debited_row :
    (s r amount : ℕ) (db : Db) (b : BankAccount)
    → get_account r db ≡ some b
    → get_account r (update_account s (take_balance amount) db)
      ≡ some (if s == r then take_balance amount b else b)
debited_row s r amount db b e =
    ground (arith, find-modify account_key r s (take_balance amount) db.accounts (λ _. refl))

-- The sum changes by what is credited less what is debited, whether or not the two accounts are
-- one.
pub move_balances-total :
    (s r amount : ℕ) (m : ℤ) (db : Db) (a b : BankAccount)
    → get_account s db ≡ some a
    → get_account r db ≡ some b
    → total_balance (move_balances s r amount m db) +ℤ pos amount ≡ total_balance db +ℤ m
move_balances-total s r amount m db a b ea eb = omega (
  int_laws,
  parts_of_eq _ _ (take_balance-total s amount db a ea),
  parts_of_eq _ _ (
      add_balance-total r m (update_account s (take_balance amount) db) _
        (debited_row s r amount db b eb)),
)

pub take_balance-IsSolvent :
    (id amount : ℕ) (db : Db) (a : BankAccount)
    → IsSolvent db
    → get_account id db ≡ some a
    → pos amount ≤ℤ a.balance
    → IsSolvent (update_account id (take_balance amount) db)
take_balance-IsSolvent id amount db a h e cover =
    All-modify account_key _ id (take_balance amount) db.accounts a h e (omega int_laws)

pub add_balance-IsSolvent :
    (id : ℕ) (m : ℤ) (db : Db) (a : BankAccount)
    → IsSolvent db
    → get_account id db ≡ some a
    → pos 0 ≤ℤ m
    → IsSolvent (update_account id (add_balance m) db)
add_balance-IsSolvent id m db a h e p =
    let old : pos 0 ≤ℤ a.balance = All-first _ (λ x. x.id == id) db.accounts a h e in
    All-modify account_key _ id (add_balance m) db.accounts a h e (omega int_laws)

-- A covered debit and a credit that is not negative leave no balance below zero.
pub move_balances-IsSolvent :
    (s r amount : ℕ) (m : ℤ) (db : Db) (a b : BankAccount)
    → IsSolvent db
    → get_account s db ≡ some a
    → get_account r db ≡ some b
    → pos amount ≤ℤ a.balance
    → pos 0 ≤ℤ m
    → IsSolvent (move_balances s r amount m db)
move_balances-IsSolvent s r amount m db a b h ea eb cover p =
    add_balance-IsSolvent r m (update_account s (take_balance amount) db) _
      (take_balance-IsSolvent s amount db a h ea cover) (debited_row s r amount db b eb) p

-- No third account changes.
pub move_balances-others :
    (s r k amount : ℕ) (m : ℤ) (db : Db)
    → k ≢ s
    → k ≢ r
    → get_account k (move_balances s r amount m db) ≡ get_account k db
move_balances-others s r k amount m db ns nr =
    find-modify_ne account_key k r (add_balance m) _ nr (λ _. refl)
    ∙ find-modify_ne account_key k s (take_balance amount) db.accounts ns (λ _. refl)

-- A row is found under its own id.
pub get_account_self :
    (id : ℕ) (db : Db) (a : BankAccount) → get_account id db ≡ some a → get_account a.id db ≡ some a
get_account_self id db a e =
    subst (λ k. get_account k db ≡ some a) (sym (get_account-key id db a e)) e

pub set_balance-IsSolvent :
    (id : ℕ) (v : ℤ) (db : Db) (a : BankAccount)
    → IsSolvent db
    → get_account id db ≡ some a
    → pos 0 ≤ℤ v
    → IsSolvent (update_account id (set_balance v) db)
set_balance-IsSolvent id v db a h e p =
    All-modify account_key _ id (set_balance v) db.accounts a h e p

-- The balance of a row of a solvent table.
pub solvent_row :
    (id : ℕ) (db : Db) (a : BankAccount)
    → IsSolvent db
    → get_account id db ≡ some a
    → pos 0 ≤ℤ a.balance
solvent_row id db a h e = All-first _ (λ x. x.id == id) db.accounts a h e

-- A transaction has this id.
abbrev pub has_transaction : ℕ → Db → Bool
has_transaction id db = is_some (get_transaction id db)

pub has_transaction-add :
    (t : Transaction) (db : Db) → has_transaction t.id (with_transaction t db) ≡ true
has_transaction-add t db = go db.transactions
  where
    go : (rows : List Transaction) → is_some (find transaction_key t.id (rows ++ t ∷ [])) ≡ true
    go [] = ground arith
    go (x ∷ rows) = ground (arith, go rows)
