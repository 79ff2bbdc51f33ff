-- ===== src/Transaction/Transfer/Parties.antt =====
-- The rows that a transfer locks are the rows of its accounts.
use bank_fastapi.Prelude.{◌∙◌, ℕ, sym, ◌≡◌, Option, none, some, arith}
use bank_fastapi.Models.{User, BankAccount, Transaction}
use bank_fastapi.Core.{Db, get_account, get_account?, get_user?}
use bank_fastapi.Transaction.Locks.Order.{locked_account-sender, locked_account-receiver}
use bank_fastapi.Transaction.Funds.{get_account_self}
use bank_fastapi.Transaction.Transfer.Complete.{locked_parties, Parties, all_found, find_parties}

pub find_parties-all_found :
    (t : Transaction) (db : Db)
    → find_parties t db
      ≡ all_found
          (get_account? t.sender_account_id db)
          (get_account? t.receiver_account_id db)
          (get_user? t.sender_id db)
          (get_user? t.receiver_id db)
unfolding find_parties
find_parties-all_found t db = rw (
  locked_account-sender t.sender_account_id t.receiver_account_id db,
  locked_account-receiver t.sender_account_id t.receiver_account_id db,
)

pub get_account?-self :
    (id : Option ℕ) (db : Db) (a : BankAccount)
    → get_account? id db ≡ some a
    → get_account a.id db ≡ some a
get_account?-self none db a e = ground arith
get_account?-self (some k) db a e = get_account_self k db a e

all_found-accounts :
    (a b : Option BankAccount) (u v : Option User) (p : Parties)
    → all_found a b u v ≡ some p
    → (a ≡ some p.sender_account) × (b ≡ some p.receiver_account)
all_found-accounts a b u v p e = ground arith

-- The accounts of the parties are rows of the table, whichever users go with them.
pub locked_parties-rows :
    (t : Transaction) (sender receiver : Option User) (db : Db) (p : Parties)
    → locked_parties t sender receiver db ≡ some p
    → (get_account p.sender_account.id db ≡ some p.sender_account)
      × (get_account p.receiver_account.id db ≡ some p.receiver_account)
locked_parties-rows t sender receiver db p e =
    let rows = all_found-accounts _ _ sender receiver p e in
    (
      get_account?-self t.sender_account_id db p.sender_account
          (sym (locked_account-sender t.sender_account_id t.receiver_account_id db) ∙ rows.0),
      get_account?-self t.receiver_account_id db p.receiver_account
          (sym (locked_account-receiver t.sender_account_id t.receiver_account_id db) ∙ rows.1),
    )

pub find_parties-rows :
    (t : Transaction) (db : Db) (p : Parties)
    → find_parties t db ≡ some p
    → (get_account p.sender_account.id db ≡ some p.sender_account)
      × (get_account p.receiver_account.id db ≡ some p.receiver_account)
unfolding find_parties
find_parties-rows t db p e =
    locked_parties-rows t (get_user? t.sender_id db) (get_user? t.receiver_id db) db p e
