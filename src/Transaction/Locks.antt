-- ===== src/Transaction/Locks.antt =====
-- transaction/service.py: `_lock_account` and `_lock_accounts`. A lock is held until the commit
-- that ends the critical section, so a section is one step on the tables.
pub mod Order
pub mod Waiting
use bank_fastapi.Prelude.{
  ℕ, Bool, true, false, Option, none, some, List, [], ◌∷◌, leb, if◌then◌else◌,
}
use bank_fastapi.Prelude.Rows.{find}
use bank_fastapi.Models.{BankAccount, Transaction}
use bank_fastapi.Core.{Db, get_account, account_key}

-- Python's `sorted`
abbrev pub insert_sorted : ℕ → List ℕ → List ℕ
insert_sorted k [] = k ∷ []
insert_sorted k (j ∷ js) = if leb k j then k ∷ j ∷ js else j ∷ insert_sorted k js

abbrev pub sorted : List ℕ → List ℕ
sorted [] = []
sorted (k ∷ ks) = insert_sorted k (sorted ks)

-- `[id for id in (a, b) if id is not None]`
abbrev pub present_ids : Option ℕ → Option ℕ → List ℕ
present_ids none none = []
present_ids none (some b) = b ∷ []
present_ids (some a) none = a ∷ []
present_ids (some a) (some b) = a ∷ b ∷ []

-- The rows that are locked, in the order in which they are locked.
unfoldable pub fetch_locked : List ℕ → Db → List BankAccount
fetch_locked [] db = []
fetch_locked (k ∷ ks) db = elim (get_account k db) [
  | none ↦ fetch_locked ks db
  | some a ↦ a ∷ fetch_locked ks db
]

unfoldable pub lock_accounts : List ℕ → Db → List BankAccount
lock_accounts ids db = fetch_locked (sorted ids) db

-- `locked_accounts.get(id)`
abbrev pub locked_account : Option ℕ → List BankAccount → Option BankAccount
locked_account none rows = none
locked_account (some k) rows = find account_key k rows
