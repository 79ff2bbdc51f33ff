-- ===== src/Transaction/Statement/Contents.antt =====
-- When a statement is made, and how it agrees with the history.
use bank_fastapi.Prelude.{
  sym, suc, ℕ, ◌≤◌, ◌≡◌, refl, ◌∙◌, ap, Bool, true, false, ◌&&◌, ◌||◌, inl, inr, Bool-cases,
  Option-cases, Option, none, some, List, [], ◌∷◌, map, String, arith, leb, ◌==◌, is_some,
}
use bank_fastapi.Prelude.Rows.{
  length, rows_where, count_where, first, any_row, no_rows, first-holds,
}
use bank_fastapi.Prelude.Rows.Pages.{length-map}
use bank_fastapi.Models.{BankAccount, Transaction, TransactionStatus, is_active}
use bank_fastapi.Core.{Result-cases, Db, Context, Result, ok, err, get_user}
use bank_fastapi.Transaction.History.{
  status_index, Filters, accounts_of, in_accounts, involves, meets, user_rows,
  get_user_transactions,
}
use bank_fastapi.Transaction.Transfer.Plan.{has_number}
use bank_fastapi.Transaction.History.Pages.{IsOrder}
use bank_fastapi.Transaction.Statement.{
  Statement, Queued, own_account, given_number, statement_accounts, statement_rows, statement_row,
  is_completed, is_between, prepare_statement_data, generate_user_statement, generate_statement,
}

abbrev pub is_ok {ℓ} : {A : Type ℓ} → Result A → Bool
is_ok (ok a) = true
is_ok (err e) = false

-- No account is named, or one that is the user's and active.
abbrev pub is_allowed : ℕ → Option String → Db → Bool
is_allowed user_id number db = elim (given_number number) [
  | none ↦ true
  | some n ↦ elim (own_account user_id n db) [ none ↦ false | some a ↦ is_active a.account_status ]
]

-- A statement is queued exactly if the dates are in order, the account that is named, if any, is an
-- active one of the user, and the user exists.
pub generate_statement-Queues :
    (order : List Transaction → List Transaction) (ctx : Context) (delay : Statement → ℕ)
    (user_id start_date end_date : ℕ) (number : Option String) (db : Db)
    → is_ok (generate_statement order ctx delay user_id start_date end_date number db)
      ≡ (leb start_date end_date && (is_allowed user_id number db && is_some (get_user user_id db)))
unfolding generate_statement generate_user_statement prepare_statement_data
generate_statement-Queues order ctx delay user_id start_date end_date number db = ground arith

-- The history's filters for the completed transactions of a time.
abbrev pub completed_between : ℕ → ℕ → Filters
completed_between start_date end_date = record {
  start_date = some start_date;
  end_date = some end_date;
  transaction_type = none;
  transaction_category = none;
  transaction_status = some TransactionStatus.completed;
  min_amount = none;
  max_amount = none;
}

module _ {ℓ} {A : Type ℓ} where
  rows_where_mono :
      (p q : A → Bool) (xs : List A)
      → ((x : A) → p x ≡ true → q x ≡ true)
      → length (rows_where p xs) ≤ length (rows_where q xs)
  rows_where_mono p q [] h = omega arith
  rows_where_mono p q (x ∷ xs) h = ground (arith, h x, rows_where_mono p q xs h)

  count-all : (xs : List A) → count_where (λ x. true) xs ≡ length xs
  count-all [] = refl
  count-all (x ∷ xs) = ap suc (count-all xs)

  none-where : (xs : List A) → length (rows_where (λ x. false) xs) ≡ 0
  none-where [] = refl
  none-where (x ∷ xs) = none-where xs

  pub order-length :
      (order : List A → List A) → IsOrder order → (xs : List A) → length (order xs) ≡ length xs
  order-length order places xs = sym (count-all (order xs)) ∙ places (λ x. true) xs ∙ count-all xs

  any-where :
      (p q r : A → Bool) (xs : List A) (x : A)
      → first p xs ≡ some x
      → q x ≡ true
      → r x ≡ true
      → any_row r (rows_where q xs) ≡ true
  any-where p q r [] x e hq hr = ground arith
  any-where p q r (y ∷ xs) x e hq hr = ground (arith, any-where p q r xs x)

named-own :
    (user_id j : ℕ) (n : String) (db : Db) (a : BankAccount)
    → own_account user_id n db ≡ some a
    → (a.id == j) ≡ true
    → in_accounts (accounts_of user_id db) (some j) ≡ true
named-own user_id j n db a e h =
    let holds : (has_number n a && a.user_id == user_id) ≡ true =
      first-holds (λ b. has_number n b && b.user_id == user_id) db.accounts a e in
    any-where (λ b. has_number n b && b.user_id == user_id) (λ b. b.user_id == user_id)
      (λ b. b.id == j) db.accounts a e (ground arith) h

-- The accounts of a statement are found among the user's accounts.
statement_accounts-own :
    (user_id : ℕ) (number : Option String) (db : Db) (accounts : List BankAccount) (k : Option ℕ)
    → statement_accounts user_id number db ≡ ok accounts
    → in_accounts accounts k ≡ true
    → in_accounts (accounts_of user_id db) k ≡ true
statement_accounts-own user_id number db accounts none e h = ground arith
statement_accounts-own user_id number db accounts (some j) e h =
    elim (Option-cases (given_number number)) [
      | inl g ↦ ground arith
      | inr (n, g) ↦ elim (Option-cases (own_account user_id n db)) [
        | inl o ↦ ground arith
        | inr (a, o) ↦ ground (arith, named-own user_id j n db a o)
      ]
    ]

completed-index : (s : TransactionStatus) → is_completed s ≡ true → (status_index s == 1) ≡ true
completed-index s h = ground arith

statement-in_history :
    (user_id start_date end_date : ℕ) (number : Option String) (db : Db)
    (accounts : List BankAccount)
    → statement_accounts user_id number db ≡ ok accounts
    → length (statement_rows accounts start_date end_date db)
      ≤ length (user_rows user_id (completed_between start_date end_date) db)
statement-in_history user_id start_date end_date number db accounts e =
    rows_where_mono
      (λ t.
        (in_accounts accounts t.sender_account_id || in_accounts accounts t.receiver_account_id)
        && (is_between start_date end_date t && is_completed t.status))
      (λ t.
        involves user_id (accounts_of user_id db) t
        && meets (completed_between start_date end_date) t)
      db.transactions
      (λ t h. ground (
        arith,
        completed-index t.status,
        statement_accounts-own user_id number db accounts t.sender_account_id e,
        statement_accounts-own user_id number db accounts t.receiver_account_id e,
      ))

-- Without an account of the user there is nothing in a statement.
statement-empty :
    (user_id start_date end_date : ℕ) (number : Option String) (db : Db)
    (accounts : List BankAccount)
    → statement_accounts user_id number db ≡ ok accounts
    → no_rows (accounts_of user_id db) ≡ true
    → length (statement_rows accounts start_date end_date db) ≤ 0
statement-empty user_id start_date end_date number db accounts e owner =
    let fewer : length (statement_rows accounts start_date end_date db)
        ≤ length (rows_where (λ t. false) db.transactions) =
      rows_where_mono
        (λ t.
          (in_accounts accounts t.sender_account_id || in_accounts accounts t.receiver_account_id)
          && (is_between start_date end_date t && is_completed t.status))
        (λ t. false) db.transactions
        (λ t h. ground (
          arith,
          nobody t.sender_account_id,
          nobody t.receiver_account_id,
          statement_accounts-own user_id number db accounts t.sender_account_id e,
          statement_accounts-own user_id number db accounts t.receiver_account_id e,
        )) in
    omega (arith, none-where db.transactions)
  where
    nobody : (k : Option ℕ) → in_accounts (accounts_of user_id db) k ≡ false
    nobody none = refl
    nobody (some j) = ground arith

prepared-length :
    (order : List Transaction → List Transaction) (user_id start_date end_date : ℕ)
    (number : Option String) (db : Db) (accounts : List BankAccount) (s : Statement)
    → IsOrder order
    → statement_accounts user_id number db ≡ ok accounts
    → prepare_statement_data order user_id start_date end_date number db ≡ ok s
    → length s.transactions ≡ length (statement_rows accounts start_date end_date db)
unfolding prepare_statement_data
prepared-length order user_id start_date end_date number db accounts s places e h =
    let counted : length
          (map (statement_row db) (order (statement_rows accounts start_date end_date db)))
        ≡ length (statement_rows accounts start_date end_date db) =
      length-map (statement_row db) (order (statement_rows accounts start_date end_date db))
      ∙ order-length order places (statement_rows accounts start_date end_date db) in
    elim (Option-cases (get_user user_id db)) [
      | inl u ↦ ground arith
      | inr (user, u) ↦ ground arith
    ]

pub queued-prepared :
    (order : List Transaction → List Transaction) (ctx : Context) (delay : Statement → ℕ)
    (user_id start_date end_date : ℕ) (number : Option String) (db : Db) (q : Queued)
    → generate_statement order ctx delay user_id start_date end_date number db ≡ ok q
    → prepare_statement_data order user_id start_date end_date number db ≡ ok q.statement
unfolding generate_statement generate_user_statement
queued-prepared order ctx delay user_id start_date end_date number db q e =
    elim (Result-cases (prepare_statement_data order user_id start_date end_date number db)) [
      | inl (x, p) ↦ ground arith
      | inr (s, p) ↦ ground arith
    ]

pub prepared-accounts :
    (order : List Transaction → List Transaction) (user_id start_date end_date : ℕ)
    (number : Option String) (db : Db) (s : Statement)
    → prepare_statement_data order user_id start_date end_date number db ≡ ok s
    → (accounts : List BankAccount) × (statement_accounts user_id number db ≡ ok accounts)
unfolding prepare_statement_data
prepared-accounts order user_id start_date end_date number db s e =
    elim (Result-cases (statement_accounts user_id number db)) [
      | inl (x, a) ↦ ground arith
      | inr found ↦ found
    ]

-- Where ORDER BY only places rows anew: a statement that is queued holds no more transactions than
-- the history counts as completed in its time, whatever page of the history is asked for.
pub generate_statement-in_history :
    (order : List Transaction → List Transaction) (ctx : Context) (delay : Statement → ℕ)
    (user_id start_date end_date skip limit : ℕ) (number : Option String) (db : Db) (q : Queued)
    → IsOrder order
    → generate_statement order ctx delay user_id start_date end_date number db ≡ ok q
    → length q.statement.transactions
      ≤ (get_user_transactions order user_id skip limit
          (completed_between start_date end_date)
          db).1
unfolding get_user_transactions
generate_statement-in_history order ctx delay user_id start_date end_date skip limit number db q
      places e =
    let prepared = queued-prepared order ctx delay user_id start_date end_date number db q e in
    let (accounts, a) =
      prepared-accounts order user_id start_date end_date number db q.statement prepared in
    let rows = user_rows user_id (completed_between start_date end_date) db in
    let counted =
      prepared-length order user_id start_date end_date number db accounts q.statement places a
        prepared in
    elim (Bool-cases (no_rows (accounts_of user_id db))) [
      | inl owner ↦
          rw (owner, counted)
            (statement-empty user_id start_date end_date number db accounts a owner)
      | inr owner ↦
          rw (owner, counted, order-length order places rows)
            (statement-in_history user_id start_date end_date number db accounts a)
    ]
