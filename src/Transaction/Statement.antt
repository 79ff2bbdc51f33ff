-- ===== src/Transaction/Statement.antt =====
-- transaction/service.py: the statements (`get_user_statement_data`, `prepare_statement_data`,
-- `generate_user_statement`) and the request of routes/statement.py. ORDER BY is a parameter, as in
-- History; the rendering task is Celery's, and only its id comes back.
pub mod Contents
pub mod Shown
use Prim.Native.String
use bank_fastapi.Prelude.{
  ℕ, Bool, true, false, not, ◌&&◌, ◌||◌, Option, none, some, List, [], ◌∷◌, ◌++◌, map, String,
  str_eq, leb, ltb, ◌==◌, is_some, points_to, if◌then◌else◌, ◌/◌,
}
use bank_fastapi.Prelude.Int.{ℤ}
use bank_fastapi.Prelude.Rows.{first, rows_where}
use bank_fastapi.Models.{
  User, BankAccount, Transaction, TransactionType, TransactionCategory, TransactionStatus, Currency,
  is_active,
}
use bank_fastapi.Models.Metadata.{Fields}
use bank_fastapi.Core.{Db, Context, Action, Error, Result, ok, err, get_user, get_account?}
use bank_fastapi.Core.Results.{◌>>=◌, ◌>>◌, refuse_if, or_refuse}
use bank_fastapi.Transaction.Deposit.{currency_value}
use bank_fastapi.Transaction.Transfer.Plan.{has_number}
use bank_fastapi.Transaction.History.{accounts_of, in_accounts, status_index}

pub record AccountDetails : Type 0 where
  pub account_number : String
  pub account_name : String
  pub currency : String
  pub balance : ℤ

pub record StatementRow : Type 0 where
  pub reference : String
  pub amount : ℕ
  pub description : String
  pub created_on : ℕ
  pub transaction_type : TransactionType
  pub transaction_category : TransactionCategory
  pub balance_after : ℤ
  pub sender_account : Option String
  pub receiver_account : Option String
  pub metadata : Option Fields

pub record Statement : Type 0 where
  pub username : String
  pub email : String
  pub first_name : String
  pub last_name : String
  pub accounts : List AccountDetails
  pub transactions : List StatementRow
  pub start_on : ℕ
  pub end_on : ℕ
  pub is_single_account : Bool

-- `strftime("%Y-%m-%d")`: the day of a time in seconds.
abbrev pub day_of : ℕ → ℕ
day_of t = t / 86400

abbrev pub is_between : ℕ → ℕ → Transaction → Bool
is_between start_date end_date t = leb start_date t.created_at && leb t.created_at end_date

pub record UserInfo : Type 0 where
  pub username : String
  pub email : String
  pub full_name : String

abbrev pub own_rows : ℕ → ℕ → ℕ → Db → List Transaction
own_rows user_id start_date end_date db =
    rows_where
      (λ t.
        (points_to t.sender_id user_id || points_to t.receiver_id user_id)
        && is_between start_date end_date t)
      db.transactions

unfoldable pub get_user_statement_data :
    (List Transaction → List Transaction) → ℕ → ℕ → ℕ → Db → Result (UserInfo × List Transaction)
get_user_statement_data order user_id start_date end_date db = do
  user ← or_refuse (Error.value_error "User not found") (get_user user_id db)
  ok (
    record { username = user.username; email = user.email; full_name = user.full_name },
    order (own_rows user_id start_date end_date db),
  )

-- The account with a number, if it is the user's.
abbrev pub own_account : ℕ → String → Db → Option BankAccount
own_account user_id number db = first (λ a. has_number number a && a.user_id == user_id) db.accounts

-- `if account_number:`, where the empty text is no number either.
abbrev pub given_number : Option String → Option String
given_number none = none
given_number (some s) = if str_eq s "" then none else some s

abbrev pub statement_accounts : ℕ → Option String → Db → Result (List BankAccount)
statement_accounts user_id number db = elim (given_number number) [
  | none ↦ ok (accounts_of user_id db)
  | some n ↦ elim (own_account user_id n db) [
    | none ↦ err (Error.value_error "Account not found or does not belong to user")
    | some a ↦ ok (a ∷ [])
  ]
]

-- An account without a number, or with an empty one, has no details.
abbrev pub account_details : List BankAccount → List AccountDetails
account_details [] = []
account_details (a ∷ rest) = elim (given_number a.account_number) [
  | none ↦ account_details rest
  | some n ↦
      (record {
        account_number = n;
        account_name = a.account_name;
        currency = currency_value a.currency;
        balance = a.balance;
      })
      ∷ account_details rest
]

abbrev pub is_completed : TransactionStatus → Bool
is_completed TransactionStatus.completed = true
is_completed _ = false

abbrev pub statement_rows : List BankAccount → ℕ → ℕ → Db → List Transaction
statement_rows accounts start_date end_date db =
    rows_where
      (λ t.
        (in_accounts accounts t.sender_account_id || in_accounts accounts t.receiver_account_id)
        && (is_between start_date end_date t && is_completed t.status))
      db.transactions

abbrev pub number_of : Option BankAccount → Option String
number_of none = none
number_of (some a) = a.account_number

abbrev pub statement_row : Db → Transaction → StatementRow
statement_row db t = record {
  reference = t.reference;
  amount = t.amount;
  description = t.description;
  created_on = day_of t.created_at;
  transaction_type = t.transaction_type;
  transaction_category = t.transaction_category;
  balance_after = t.balance_after;
  sender_account = number_of (get_account? t.sender_account_id db);
  receiver_account = number_of (get_account? t.receiver_account_id db);
  metadata = t.transaction_metadata;
}

unfoldable pub prepare_statement_data :
    (List Transaction → List Transaction) → ℕ → ℕ → ℕ → Option String → Db → Result Statement
prepare_statement_data order user_id start_date end_date number db = do
  user ← or_refuse (Error.value_error "User not found") (get_user user_id db)
  accounts ← statement_accounts user_id number db
  ok (record {
    username = user.username;
    email = user.email;
    first_name = user.first_name;
    last_name = user.last_name;
    accounts = account_details accounts;
    transactions = map (statement_row db) (order (statement_rows accounts start_date end_date db));
    start_on = day_of start_date;
    end_on = day_of end_date;
    is_single_account = is_some (given_number number);
  })

-- `except ValueError as e: raise ValidationFailedError(str(e))`
abbrev pub as_validation {ℓ} : {A : Type ℓ} → Result A → Result A
as_validation (ok a) = ok a
as_validation (err (Error.value_error m)) = err (Error.validation_failed m)
as_validation (err e) = err e

-- What is handed to the task, with the id of the statement and the id that `delay` answers with.
pub record Queued : Type 0 where
  pub statement : Statement
  pub statement_id : ℕ
  pub task_id : ℕ

unfoldable pub generate_user_statement :
    (List Transaction → List Transaction)
    → Context
    → (Statement → ℕ)
    → ℕ
    → ℕ
    → ℕ
    → Option String
    → Db
    → Result Queued
generate_user_statement order ctx delay user_id start_date end_date number db = do
  statement ← as_validation (prepare_statement_data order user_id start_date end_date number db)
  ok (record { statement = statement; statement_id = ctx.new_id; task_id = delay statement })

-- The route's own checks of an account that is named.
abbrev pub check_account : ℕ → Option String → Db → Result (Unit {0})
check_account user_id number db = elim (given_number number) [
  | none ↦ ok tt
  | some n ↦ elim (own_account user_id n db) [
    | none ↦ err (Error.not_found "Account not found or does not belong to you")
    | some a ↦
        refuse_if (not (is_active a.account_status))
          (Error.validation_failed "Cannot generate statement for inactive account")
  ]
]

unfoldable pub generate_statement :
    (List Transaction → List Transaction)
    → Context
    → (Statement → ℕ)
    → ℕ
    → ℕ
    → ℕ
    → Option String
    → Db
    → Result Queued
generate_statement order ctx delay user_id start_date end_date number db = do
  refuse_if (ltb end_date start_date) (Error.validation_failed "Start date must be before end date")
  check_account user_id number db
  generate_user_statement order ctx delay user_id start_date end_date number db
