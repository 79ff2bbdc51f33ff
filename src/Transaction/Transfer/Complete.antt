-- ===== src/Transaction/Transfer/Complete.antt =====
-- transaction/service.py: `complete_transfer`. The rows are read under their locks and nothing is
-- written before the single commit, so the call is one step on the tables.
use bank_fastapi.Prelude.{
  ℕ, Bool, true, not, ◌&&◌, ◌||◌, Option, none, some, String, str_eq, ltb, is_some, if◌then◌else◌,
}
use bank_fastapi.Prelude.Int.{ℤ, pos, ◌+ℤ◌, ◌-ℤ◌, ltb_ℤ}
use bank_fastapi.Prelude.Rows.{first}
use bank_fastapi.Models.{
  User, BankAccount, Transaction, TransactionStatus, FailureReason, is_active, is_pending,
}
use bank_fastapi.Models.Metadata.{Value, Fields, end, field, get_field, is_blank, or_empty}
use bank_fastapi.Core.{
  Db, Context, Action, Error, ok, err, ◌>>◌, raise, get_user?, get_account, update_user,
  update_account, update_transaction,
}
use bank_fastapi.Transaction.Failure.{mark_transaction_failed, fail_if}
use bank_fastapi.Transaction.Locks.{lock_accounts, locked_account, present_ids}
use bank_fastapi.Transaction.Transfer.Plan.{is_empty}

-- `Decimal(x)` at a stored value: `none` stands for the exception that it raises.
abbrev pub to_decimal : Value → Option ℤ
to_decimal (Value.amount n) = some (pos n)
to_decimal (Value.money m) = some m
to_decimal _ = none

-- `Decimal(metadata["converted_amount"])`; a missing key raises too.
abbrev pub decimal_of : Option Value → Option ℤ
decimal_of none = none
decimal_of (some v) = to_decimal v

abbrev pub converted_amount : Transaction → Option ℤ
converted_amount t = decimal_of (get_field "converted_amount" (or_empty t.transaction_metadata))

-- The pending transaction with a reference.
abbrev pub pending_with : String → Transaction → Bool
pending_with reference t = str_eq t.reference reference && is_pending t.status

-- The four rows that a transfer is about.
pub record Parties : Type 0 where
  pub sender_account : BankAccount
  pub receiver_account : BankAccount
  pub sender : User
  pub receiver : User

-- `all([sender_account, receiver_account, sender, receiver])`
abbrev pub all_found :
    Option BankAccount → Option BankAccount → Option User → Option User → Option Parties
all_found (some a) (some b) (some s) (some r) =
    some (record { sender_account = a; receiver_account = b; sender = s; receiver = r })
all_found _ _ _ _ = none

-- The accounts come from the dict of locked rows, the users from the reads before the locks.
abbrev pub locked_parties : Transaction → Option User → Option User → Db → Option Parties
locked_parties t sender receiver db =
    let locked = lock_accounts (present_ids t.sender_account_id t.receiver_account_id) db in
    all_found (locked_account t.sender_account_id locked)
      (locked_account t.receiver_account_id locked) sender receiver

-- Where no other commit falls between the reads and the locks.
unfoldable pub find_parties : Transaction → Db → Option Parties
find_parties t db = locked_parties t (get_user? t.sender_id db) (get_user? t.receiver_id db) db

abbrev pub found_details : Transaction → Db → Fields
found_details t db =
    let locked = lock_accounts (present_ids t.sender_account_id t.receiver_account_id) db in
    field "sender_account_found" (Value.flag (is_some (locked_account t.sender_account_id locked)))
      (field "receiver_account_found"
        (Value.flag (is_some (locked_account t.receiver_account_id locked)))
        (field "sender_found" (Value.flag (is_some (get_user? t.sender_id db)))
          (field "receiver_found" (Value.flag (is_some (get_user? t.receiver_id db))) end)))

-- `not sender.otp_expiry_time or now > sender.otp_expiry_time`
abbrev pub is_expired : ℕ → Option ℕ → Bool
is_expired now none = true
is_expired now (some time) = ltb time now

abbrev pub time_or_null : Option ℕ → Value
time_or_null none = Value.null
time_or_null (some time) = Value.time time

abbrev pub add_balance : ℤ → BankAccount → BankAccount
add_balance v a = record a { balance = a.balance +ℤ v }

abbrev pub take_balance : ℕ → BankAccount → BankAccount
take_balance amount a = record a { balance = a.balance -ℤ pos amount }

abbrev pub completed_row : Context → Transaction → Transaction
completed_row ctx t = record t { status = TransactionStatus.completed; completed_at = some ctx.now }

abbrev pub clear_otp : User → User
clear_otp u = record u { otp = ""; otp_expiry_time = none }

-- The debit, then the credit; where both are of one row, the credit sees the debit.
abbrev pub move_balances : ℕ → ℕ → ℕ → ℤ → Db → Db
move_balances sender receiver amount converted db =
    update_account receiver (add_balance converted) (update_account sender (take_balance amount) db)

-- Whether the commit takes the balance of a row.
abbrev pub row_fits : Context → ℕ → Db → Bool
row_fits ctx id db = elim (get_account id db) [ none ↦ true | some a ↦ ctx.fits a.balance ]

-- The `except Exception` clause: rollback, mark the transaction failed, raise again. Where an
-- expired attribute is not loaded again, the marking raises instead and nothing is written.
unfoldable pub system_failure {ℓ} : {A : Type ℓ} → Context → ℕ → Action A
system_failure ctx id =
    if ctx.reloads_expired
    then (mark_transaction_failed ctx id FailureReason.system_error end "A system error occurred"
        >> raise (Error.system_error "transfer"))
    else raise (Error.system_error "MissingGreenlet")

-- The writes and the commit.
unfoldable pub settle_transfer : Context → Transaction → Parties → ℤ → Action ℕ
settle_transfer ctx t p converted db =
    let moved = move_balances p.sender_account.id p.receiver_account.id t.amount converted db in
    if row_fits ctx p.sender_account.id moved && row_fits ctx p.receiver_account.id moved
    then (
      ok t.id,
      update_user p.sender.id clear_otp (update_transaction t.id (completed_row ctx) moved),
    )
    else system_failure ctx t.id db

-- The checks under the locks, in their order.
unfoldable pub check_transfer : Context → String → Transaction → Parties → Action (Unit {0})
check_transfer ctx otp t p = do
  fail_if ctx t.id (is_empty p.sender.otp || not (str_eq p.sender.otp otp))
      FailureReason.invalid_otp (field "provided_otp" (Value.text otp) end) "Invalid OTP"
      (Error.unauthorized "Invalid OTP")
  fail_if ctx t.id (is_expired ctx.now p.sender.otp_expiry_time) FailureReason.otp_expired
      (field "expiry_time" (time_or_null p.sender.otp_expiry_time)
        (field "current_time" (Value.time ctx.now) end))
      "OTP has expired" (Error.unauthorized "OTP has expired")
  fail_if ctx t.id (not (is_active p.sender_account.account_status)) FailureReason.account_inactive
      (field "account" (Value.text "sender") end) "Sender account is no longer active"
      (Error.account_not_active "Sender account is no longer active")
  fail_if ctx t.id (not (is_active p.receiver_account.account_status))
      FailureReason.account_inactive (field "account" (Value.text "receiver") end)
      "Receiver account is no longer active"
      (Error.account_not_active "Receiver account is no longer active")
  fail_if ctx t.id (ltb_ℤ p.sender_account.balance (pos t.amount))
      FailureReason.insufficient_balance
      (field "required_amount" (Value.amount t.amount) (
        field "available_balance" (Value.money p.sender_account.balance)
          (field "shortfall" (Value.money (pos t.amount -ℤ p.sender_account.balance)) end)))
      "Insufficient balance" (Error.insufficient_balance "Insufficient balance")
  fail_if ctx t.id (is_blank t.transaction_metadata) FailureReason.system_error
      (field "error" (Value.text "Missing transaction metadata") end)
      "System error: Missing transaction metadata"
      (Error.validation_failed "System error: Missing transaction metadata")

-- From the converted amount on.
unfoldable pub apply_transfer : Context → Transaction → Parties → Action ℕ
apply_transfer ctx t p = elim (converted_amount t) [
  | none ↦ system_failure ctx t.id
  | some converted ↦ settle_transfer ctx t p converted
]

-- From the locks on, at the transaction that the session has read.
abbrev pub complete_locked : Context → String → Transaction → Option Parties → Action ℕ
complete_locked ctx otp t parties db = elim parties [
  | none ↦
      (mark_transaction_failed ctx t.id FailureReason.invalid_account (found_details t db)
            "Account information not found"
          >> raise (Error.not_found "Account information not found"))
        db
  | some p ↦ (check_transfer ctx otp t p >> apply_transfer ctx t p) db
]

-- The `try` block at a pending transaction.
unfoldable pub complete_pending : Context → String → Transaction → Action ℕ
complete_pending ctx otp t db = complete_locked ctx otp t (find_parties t db) db

unfoldable pub complete_transfer : Context → String → String → Action ℕ
complete_transfer ctx reference otp db = elim (first (pending_with reference) db.transactions) [
  | none ↦ (err (Error.not_found "Transfer not found"), db)
  | some t ↦ complete_pending ctx otp t db
]
