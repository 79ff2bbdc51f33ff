-- ===== src/Transaction/Transfer/Initiate.antt =====
-- transaction/service.py: `initiate_transfer`. No balance changes here.
use bank_fastapi.Prelude.{ℕ, String}
use bank_fastapi.Models.{User, Transaction}
use bank_fastapi.Core.{Context, Action, ok, err, ◌>>=◌, ◌>>◌, pure, change, update_user}
use bank_fastapi.Transaction.Deposit.{add_transaction}
use bank_fastapi.Transaction.Fraud.{analyze_transaction, flag_if}
use bank_fastapi.Transaction.Transfer.Plan.{Plan, plan_transfer, transfer_row, issue_otp}

-- Scoring, then the OTP. The transaction has been committed as pending before.
unfoldable pub score_transfer : Context → Transaction → User → Action ℕ
score_transfer ctx t sender = do
  analysis ← analyze_transaction ctx t
  flag_if ctx t.id analysis
  change (update_user sender.id (issue_otp ctx))
  pure t.id

abbrev pub planned_row : Context → ℕ → String → Plan → Transaction
planned_row ctx amount description p =
    transfer_row ctx amount description p.conversion p.sender_account p.sender p.receiver_account
      p.receiver

-- Returns the id of the pending transaction.
unfoldable pub initiate_transfer : Context → ℕ → ℕ → String → ℕ → String → String → Action ℕ
initiate_transfer ctx sender_id sender_account_id receiver_number amount description answer db =
    elim (plan_transfer ctx sender_id sender_account_id receiver_number amount answer db) [
      | err e ↦ (err e, db)
      | ok p ↦
          let t = planned_row ctx amount description p in
          (add_transaction t >> score_transfer ctx t p.sender) db
    ]
