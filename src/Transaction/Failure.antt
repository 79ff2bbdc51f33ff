-- ===== src/Transaction/Failure.antt =====
-- transaction/utils.py: `mark_transaction_failed`.
use bank_fastapi.Prelude.{ℕ, Bool, true, false, some, String}
use bank_fastapi.Models.{FailureReason, Transaction, TransactionStatus}
use bank_fastapi.Models.Metadata.{Value, Fields, end, field, set_field, merge, or_empty}
use bank_fastapi.Core.{Context, Action, Error, Result, change, raise, ◌>>◌, update_transaction}

-- `reason.value`
abbrev pub reason_value : FailureReason → String
reason_value FailureReason.insufficient_balance = "insufficient_balance"
reason_value FailureReason.invalid_otp = "invalid_otp"
reason_value FailureReason.otp_expired = "otp_expired"
reason_value FailureReason.currency_conversion_failed = "currency_conversion_failed"
reason_value FailureReason.account_inactive = "account_inactive"
reason_value FailureReason.system_error = "system_error"
reason_value FailureReason.invalid_amount = "invalid_amount"
reason_value FailureReason.invalid_account = "invalid_account"
reason_value FailureReason.self_transfer = "self_transfer"
reason_value FailureReason.suspicious_activity = "suspicious_activity"

abbrev pub failure_details : Context → FailureReason → Fields → String → Fields
failure_details ctx reason details message =
    merge
      (field "reason" (Value.text (reason_value reason))
        (field "timestamp" (Value.time ctx.now) (field "error_message" (Value.text message) end)))
      details

-- The columns that are written. The session's copy of the transaction is the row: each caller has
-- just read or refreshed it.
abbrev pub failed_row : Context → FailureReason → Fields → String → Transaction → Transaction
failed_row ctx reason details message t = record t {
  status = TransactionStatus.failed;
  failed_reason = some reason;
  transaction_metadata = some (
      set_field "failure_details" (Value.dict (failure_details ctx reason details message))
        (or_empty t.transaction_metadata));
}

unfoldable pub mark_transaction_failed :
    Context → ℕ → FailureReason → Fields → String → Action (Unit {0})
mark_transaction_failed ctx id reason details message =
    change (update_transaction id (failed_row ctx reason details message))

-- The failing branches of the services: `if c: await mark_transaction_failed(...); raise e`.
abbrev pub fail_if :
    Context → ℕ → Bool → FailureReason → Fields → String → Error → Action (Unit {0})
fail_if ctx id c reason details message e db = elim c [
  | true ↦ (mark_transaction_failed ctx id reason details message >> raise e) db
  | false ↦ (Result.ok tt, db)
]
