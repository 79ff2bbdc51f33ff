-- ===== src/Transaction/Review.antt =====
-- transaction/service.py: `review_flagged_transaction` and the movements that an approval makes.
-- The decision is uncommitted while an approved movement runs: `base` is the committed state that
-- a rollback restores, and the state that an action starts from holds the pending changes.
use bank_fastapi.Prelude.{
  ℕ, Bool, true, false, ◌&&◌, Option, none, some, String, str_eq, ◌==◌, if◌then◌else◌,
}
use bank_fastapi.Prelude.Int.{ℤ, pos, ltb_ℤ}
use bank_fastapi.Prelude.Rows.{first, modify}
use bank_fastapi.Models.{
  BankAccount, Transaction, TransactionStatus, TransactionType, RiskScore, AiReviewStatus,
}
use bank_fastapi.Models.Metadata.{Value, end, field, get_field, set_field, is_blank, or_empty}
use bank_fastapi.Core.{
  Db, Context, Action, Error, Result, ok, err, ◌>>◌, change, get_user?, get_account?,
  get_transaction, update_account, update_transaction, score_key, mutate_in_place,
}
use bank_fastapi.Transaction.Locks.{lock_accounts, locked_account, present_ids}
use bank_fastapi.Transaction.Transfer.Complete.{
  completed_row, take_balance, move_balances, row_fits,
}

-- How `Decimal(x)` ends at the value under "converted_amount": the clause that catches TypeError
-- and ValueError does not catch decimal.InvalidOperation. The keys are written only by
-- `initiate_transfer`, as amounts.
pub data Parsed : Type 0 where
  parsed : ℤ → Parsed
  missing invalid_type invalid_operation : Parsed

-- `if not s: raise ValueError`, then `Decimal(s)`
abbrev pub parse_converted : Option Value → Parsed
parse_converted none = missing
parse_converted (some (Value.amount n)) = parsed (pos n)
parse_converted (some (Value.money m)) = parsed m
parse_converted (some Value.null) = missing
parse_converted (some (Value.dict end)) = missing
parse_converted (some (Value.dict (field k v d))) = invalid_type
parse_converted (some (Value.text s)) = if str_eq s "" then missing else invalid_operation
parse_converted (some _) = invalid_operation

abbrev pub rejected_row : Context → String → Transaction → Transaction
rejected_row ctx reason t = record t {
  status = TransactionStatus.failed;
  transaction_metadata = some (
      set_field "failed_at" (Value.time ctx.now)
        (set_field "failure_reason" (Value.text reason) (or_empty t.transaction_metadata)));
}

-- The `except ValueError` clause: rollback, mark failed, raise again.
unfoldable pub reject_approval : Context → ℕ → Db → String → Result (Unit {0}) × Db
reject_approval ctx id base reason =
    if ctx.reloads_expired
    then (err (Error.value_error reason), update_transaction id (rejected_row ctx reason) base)
    else (err (Error.system_error "MissingGreenlet"), base)

-- The writes and the commit of an approved transfer; a failing commit is turned into a ValueError.
unfoldable pub settle_approved_transfer :
    Context → Db → Transaction → BankAccount → BankAccount → ℤ → Action (Unit {0})
settle_approved_transfer ctx base t sender_account receiver_account converted db =
    let moved = move_balances sender_account.id receiver_account.id t.amount converted db in
    if row_fits ctx sender_account.id moved && row_fits ctx receiver_account.id moved
    then (ok tt, update_transaction t.id (completed_row ctx) moved)
    else reject_approval ctx t.id base "Failed to process transfer"

unfoldable pub approve_funds :
    Context → Db → Transaction → BankAccount → BankAccount → Action (Unit {0})
approve_funds ctx base t sender_account receiver_account db =
    if is_blank t.transaction_metadata
    then reject_approval ctx t.id base "Transaction metadata is missing"
    else elim (parse_converted (get_field "converted_amount" (or_empty t.transaction_metadata))) [
      | missing ↦ reject_approval ctx t.id base "Converted amount is missing from metadata"
      | invalid_type ↦ reject_approval ctx t.id base "Invalid converted amount format"
      | invalid_operation ↦ (err (Error.system_error "InvalidOperation"), base)
      | parsed converted ↦
          if ltb_ℤ sender_account.balance (pos t.amount)
          then reject_approval ctx t.id base "Insufficient balance for transfer"
          else settle_approved_transfer ctx base t sender_account receiver_account converted db
    ]

-- `_complete_approved_transfer`
unfoldable pub complete_approved_transfer : Context → Db → Transaction → Action (Unit {0})
complete_approved_transfer ctx base t db =
    let locked = lock_accounts (present_ids t.sender_account_id t.receiver_account_id) db in
    elim (get_user? t.sender_id db) [
      | none ↦ reject_approval ctx t.id base "Sender not found"
      | some sender ↦ elim (get_user? t.receiver_id db) [
        | none ↦ reject_approval ctx t.id base "Receiver not found"
        | some receiver ↦ elim (locked_account t.sender_account_id locked) [
          | none ↦ reject_approval ctx t.id base "Sender account not found"
          | some a ↦ elim (locked_account t.receiver_account_id locked) [
            | none ↦ reject_approval ctx t.id base "Receiver account not found"
            | some b ↦ approve_funds ctx base t a b db
          ]
        ]
      ]
    ]

-- `_complete_approved_withdrawal`
unfoldable pub complete_approved_withdrawal : Context → Db → Transaction → Action (Unit {0})
complete_approved_withdrawal ctx base t db = elim (get_user? t.sender_id db) [
  | none ↦ reject_approval ctx t.id base "User not found"
  | some user ↦ elim (get_account? t.sender_account_id db) [
    | none ↦ reject_approval ctx t.id base "Account not found"
    | some a ↦
        let moved = update_account a.id (take_balance t.amount) db in
        if ltb_ℤ a.balance (pos t.amount)
        then reject_approval ctx t.id base "Insufficient balance for withdrawal"
        else (if row_fits ctx a.id moved
            then (ok tt, update_transaction t.id (completed_row ctx) moved)
            else reject_approval ctx t.id base "Failed to process withdrawal")
  ]
]

abbrev pub is_flagged : Option AiReviewStatus → Bool
is_flagged (some AiReviewStatus.flagged) = true
is_flagged _ = false

-- `if is_fraud: ... else: ...`
abbrev pub decided_row : Bool → Transaction → Transaction
decided_row true t = record t {
  ai_review_status = some AiReviewStatus.confirmed_fraud;
  status = TransactionStatus.failed;
}
decided_row false t = record t { ai_review_status = some AiReviewStatus.cleared }

abbrev pub decided_score : Bool → ℕ → RiskScore → RiskScore
decided_score true reviewer s = record s {
  is_confirmed_fraud = some true;
  reviewed_by = some reviewer;
}
decided_score false reviewer s = s

abbrev pub decide : Bool → ℕ → Transaction → RiskScore → Db → Db
decide is_fraud reviewer t s db = record (update_transaction t.id (decided_row is_fraud) db) {
  risk_scores = modify score_key s.id (decided_score is_fraud reviewer) db.risk_scores;
}

-- `if approve_transaction: ...`
unfoldable pub run_approval : Context → Bool → Db → Transaction → Action (Unit {0})
run_approval ctx false base t db = (ok tt, db)
run_approval ctx true base t db = elim t.transaction_type [
  | TransactionType.transfer ↦ complete_approved_transfer ctx base t db
  | TransactionType.withdrawal ↦ complete_approved_withdrawal ctx base t db
  | _ ↦ (ok tt, db)
]

abbrev pub review_note : Context → ℕ → Bool → Option String → Value
review_note ctx reviewer is_fraud notes = Value.dict (
    field "reviewed_at" (Value.time ctx.now) (
      field "reviewed_by" (Value.number reviewer) (
        field "is_fraud" (Value.flag is_fraud)
          (field "notes" (elim notes [ none ↦ Value.null | some s ↦ Value.text s ]) end))))

-- `if not metadata: metadata = {}`, then `metadata["fraud_review"] = ...` inside the dict. The column
-- gets the note only if it was empty before, or if changes inside a dict are tracked; otherwise the
-- note stays in the session and the row keeps its metadata.
abbrev pub annotated_row : Context → Value → Transaction → Transaction
annotated_row ctx note t = record t {
  transaction_metadata =
      mutate_in_place ctx t.transaction_metadata
        (set_field "fraud_review" note (or_empty t.transaction_metadata));
}

-- `select(Transaction, TransactionRiskScore).join(TransactionRiskScore)`
abbrev pub score_of : ℕ → Db → Option RiskScore
score_of id db = first (λ s. s.transaction_id == id) db.risk_scores

-- At a transaction that is flagged.
unfoldable pub decide_flagged :
    Context → ℕ → Bool → Bool → Option String → Transaction → RiskScore → Action (Unit {0})
decide_flagged ctx reviewer is_fraud approve notes t s db =
    (run_approval ctx approve db t
        >> change
            (update_transaction t.id (annotated_row ctx (review_note ctx reviewer is_fraud notes))))
      (decide is_fraud reviewer t s db)

unfoldable pub review_flagged_transaction :
    Context → ℕ → ℕ → Bool → Bool → Option String → Action (Unit {0})
review_flagged_transaction ctx id reviewer is_fraud approve notes db =
    elim (get_transaction id db) [
      | none ↦ (err (Error.not_found "Transaction not found"), db)
      | some t ↦ elim (score_of id db) [
        | none ↦ (err (Error.not_found "Transaction not found"), db)
        | some s ↦
            if is_flagged t.ai_review_status
            then decide_flagged ctx reviewer is_fraud approve notes t s db
            else (err (Error.validation_failed "Transaction is not flagged for review"), db)
      ]
    ]
