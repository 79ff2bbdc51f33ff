-- ===== src/Transaction/History.antt =====
-- transaction/service.py: `get_user_transactions` and `get_user_risk_history`, the paginated
-- queries. ORDER BY is the database's: `order` is a parameter, since SQL leaves open how rows of
-- one time are placed.
pub mod Pages
use bank_fastapi.Prelude.{
  ℕ, Bool, true, false, ◌&&◌, ◌||◌, Option, none, some, List, [], ◌∷◌, ◌++◌, map, String, leb, ◌==◌,
  is_some, points_to, if◌then◌else◌,
}
use bank_fastapi.Prelude.Rows.{no_rows, length, rows_where, any_row}
use bank_fastapi.Prelude.Rows.Pages.{page}
use bank_fastapi.Models.{
  User, BankAccount, Transaction, TransactionType, TransactionCategory, TransactionStatus,
  RiskScore, AiReviewStatus,
}
use bank_fastapi.Models.Metadata.{Value, Fields, end, set_field, get_field, is_blank, or_empty}
use bank_fastapi.Core.{Db, get_user?, get_account?}
use bank_fastapi.Transaction.Deposit.{text_or_null}

abbrev pub type_index : TransactionType → ℕ
type_index TransactionType.deposit = 0
type_index TransactionType.withdrawal = 1
type_index TransactionType.transfer = 2
type_index TransactionType.reversal = 3
type_index TransactionType.fee_charged = 4
type_index TransactionType.loan_disbursement = 5
type_index TransactionType.loan_repayment = 6
type_index TransactionType.interest_credited = 7

abbrev pub category_index : TransactionCategory → ℕ
category_index TransactionCategory.credit = 0
category_index TransactionCategory.debit = 1

abbrev pub status_index : TransactionStatus → ℕ
status_index TransactionStatus.pending = 0
status_index TransactionStatus.completed = 1
status_index TransactionStatus.failed = 2
status_index TransactionStatus.reversed = 3
status_index TransactionStatus.cancelled = 4

-- The optional arguments of a query.
pub record Filters : Type 0 where
  pub start_date : Option ℕ
  pub end_date : Option ℕ
  pub transaction_type : Option TransactionType
  pub transaction_category : Option TransactionCategory
  pub transaction_status : Option TransactionStatus
  pub min_amount : Option ℕ
  pub max_amount : Option ℕ

-- `if bound: query = query.where(...)`
abbrev pub where_given {ℓ} : {A : Type ℓ} → Option A → (A → Bool) → Bool
where_given none p = true
where_given (some a) p = p a

abbrev pub meets : Filters → Transaction → Bool
meets f t =
    where_given f.start_date (λ d. leb d t.created_at)
    && (where_given f.end_date (λ d. leb t.created_at d)
        && (where_given f.transaction_type (λ x. type_index t.transaction_type == type_index x)
            && (where_given f.transaction_category
                  (λ x. category_index t.transaction_category == category_index x)
                && (where_given f.transaction_status (λ x. status_index t.status == status_index x)
                    && (where_given f.min_amount (λ a. leb a t.amount)
                        && where_given f.max_amount (λ a. leb t.amount a))))))

-- The accounts of a user.
abbrev pub accounts_of : ℕ → Db → List BankAccount
accounts_of user_id db = rows_where (λ a. a.user_id == user_id) db.accounts

-- `column == any_(account_ids)`; a NULL is in no list.
abbrev pub in_accounts : List BankAccount → Option ℕ → Bool
in_accounts accounts none = false
in_accounts accounts (some k) = any_row (λ a. a.id == k) accounts

-- The condition of `or_(...)`: the user or an account of the user is a party.
abbrev pub involves : ℕ → List BankAccount → Transaction → Bool
involves user_id accounts t =
    points_to t.sender_id user_id
    || (points_to t.receiver_id user_id
        || (in_accounts accounts t.sender_account_id || in_accounts accounts t.receiver_account_id))

abbrev pub put_name : Option User → Fields → Fields
put_name none d = d
put_name (some u) d = set_field "counterparty_name" (Value.text u.full_name) d

abbrev pub put_account : Option BankAccount → Fields → Fields
put_account none d = d
put_account (some a) d = set_field "counterparty_account" (text_or_null a.account_number) d

-- The metadata that the answer shows: the other party's name and account. The change is made on the
-- session's object and nothing commits it.
abbrev pub counterparty_metadata : ℕ → Db → Transaction → Fields
counterparty_metadata user_id db t =
    let d = or_empty t.transaction_metadata in
    if points_to t.sender_id user_id
    then put_account (get_account? t.receiver_account_id db)
        (put_name (get_user? t.receiver_id db) d)
    else put_account (get_account? t.sender_account_id db) (put_name (get_user? t.sender_id db) d)

abbrev pub with_counterparty : ℕ → Db → Transaction → Transaction
with_counterparty user_id db t = record t {
  transaction_metadata = some (counterparty_metadata user_id db t);
}

-- The rows of `base_query`, before they are ordered.
abbrev pub user_rows : ℕ → Filters → Db → List Transaction
user_rows user_id f db =
    rows_where (λ t. involves user_id (accounts_of user_id db) t && meets f t) db.transactions

-- The page and the count of all rows.
unfoldable pub get_user_transactions :
    (List Transaction → List Transaction) → ℕ → ℕ → ℕ → Filters → Db → List Transaction × ℕ
get_user_transactions order user_id skip limit f db =
    if no_rows (accounts_of user_id db)
    then ([], 0)
    else (let rows = order (user_rows user_id f db) in
        (map (with_counterparty user_id db) (page skip limit rows), length rows))

-- A row of the risk history; the stored risk factors are left out.
pub record RiskRow : Type 0 where
  pub transaction_id : ℕ
  pub reference : String
  pub amount : ℕ
  pub created_at : ℕ
  pub risk_score : ℕ
  pub review_status : Option AiReviewStatus
  pub is_confirmed_fraud : Option Bool
  pub reviewed_by : Option ℕ
  pub review_details : Option Value

abbrev pub review_details_of : Option Fields → Option Value
review_details_of d = if is_blank d then none else get_field "fraud_review" (or_empty d)

abbrev pub risk_row : Transaction × RiskScore → RiskRow
risk_row (t, s) = record {
  transaction_id = t.id;
  reference = t.reference;
  amount = t.amount;
  created_at = t.created_at;
  risk_score = s.risk_score;
  review_status = t.ai_review_status;
  is_confirmed_fraud = s.is_confirmed_fraud;
  reviewed_by = s.reviewed_by;
  review_details = review_details_of t.transaction_metadata;
}

-- `select(A, B).join(B)` on the foreign key of B
abbrev pub join_scores : List Transaction → List RiskScore → List (Transaction × RiskScore)
join_scores [] scores = []
join_scores (t ∷ ts) scores =
    map (λ s. (t, s)) (rows_where (λ s. s.transaction_id == t.id) scores) ++ join_scores ts scores

abbrev pub is_risk_row : ℕ → Option ℕ → Option ℕ → Option ℕ → Transaction × RiskScore → Bool
is_risk_row user_id start_date end_date min_risk_score (t, s) =
    points_to t.sender_id user_id
    && (where_given start_date (λ d. leb d t.created_at)
        && (where_given end_date (λ d. leb t.created_at d)
            && where_given min_risk_score (λ m. leb m s.risk_score)))

abbrev pub risk_rows : ℕ → Option ℕ → Option ℕ → Option ℕ → Db → List (Transaction × RiskScore)
risk_rows user_id start_date end_date min_risk_score db =
    rows_where (is_risk_row user_id start_date end_date min_risk_score)
      (join_scores db.transactions db.risk_scores)

unfoldable pub get_user_risk_history :
    (List (Transaction × RiskScore) → List (Transaction × RiskScore))
    → ℕ
    → Option ℕ
    → Option ℕ
    → Option ℕ
    → ℕ
    → ℕ
    → Db
    → List RiskRow × ℕ
get_user_risk_history order user_id start_date end_date min_risk_score skip limit db =
    let rows = order (risk_rows user_id start_date end_date min_risk_score db) in
    (map risk_row (page skip limit rows), length rows)
