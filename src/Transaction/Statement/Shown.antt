-- ===== src/Transaction/Statement/Shown.antt =====
-- What a statement shows: prepare_statement_data (transaction/service.py) through the request of
-- routes/statement.py.
use bank_fastapi.Prelude.{ℕ, ◌≡◌, Bool, true, false, ◌&&◌, ◌||◌, Option, none, some, String, ◌==◌}
use bank_fastapi.Prelude.Rows.{any_row}
use bank_fastapi.Models.{BankAccount, Transaction}
use bank_fastapi.Core.{Db}
use bank_fastapi.Transaction.Transfer.Plan.{has_number}
use bank_fastapi.Transaction.Statement.{
  Statement, StatementRow, given_number, statement_row, is_completed, is_between,
}

-- Whether an account has the number that a request names, when it names one.
abbrev is_named : Option String → BankAccount → Bool
is_named number a = elim (given_number number) [ none ↦ true | some n ↦ has_number n a ]

-- Whether an id is that of an account of the user, the one that the request names if it names one.
abbrev is_users : ℕ → Option String → Db → Option ℕ → Bool
is_users user_id number db none = false
is_users user_id number db (some j) =
    any_row (λ a. a.id == j && (a.user_id == user_id && is_named number a)) db.accounts

-- A completed transaction of the table and of the time, from or to such an account.
abbrev pub is_shown : ℕ → Option String → ℕ → ℕ → Db → Transaction → Bool
is_shown user_id number start_date end_date db t =
    (is_users user_id number db t.sender_account_id
      || is_users user_id number db t.receiver_account_id)
    && (is_between start_date end_date t && is_completed t.status)
    && any_row (λ u. u.id == t.id) db.transactions

-- The row of a statement is that of a transaction that may be shown.
abbrev pub Shows : ℕ → Option String → ℕ → ℕ → Db → StatementRow → Type 0
Shows user_id number start_date end_date db r =
    (t : Transaction) × (r ≡ statement_row db t)
    × (is_shown user_id number start_date end_date db t ≡ true)
