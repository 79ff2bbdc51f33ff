-- ===== src/Transaction/Ledger/Calls.antt =====
-- The calls of the money services, one after another, implement the ledger.
use bank_fastapi.Prelude.{ℕ, ◌≡◌, Bool, Option, some, String}
use bank_fastapi.Prelude.Rows.{Distinct}
use bank_fastapi.Models.{Transaction, BankAccount}
use bank_fastapi.Core.{get_account, Db, Context, transaction_key}
use bank_fastapi.Transaction.Deposit.{process_deposit}
use bank_fastapi.Transaction.Transfer.Initiate.{initiate_transfer}
use bank_fastapi.Transaction.Transfer.Plan.{Plan}
use bank_fastapi.Transaction.Transfer.Complete.{complete_transfer}
use bank_fastapi.Transaction.Withdrawal.{settle_withdrawal}
use bank_fastapi.Transaction.Review.{review_flagged_transaction}

-- One call at committed tables. Before the second step of a withdrawal no other call has changed
-- the account that the session has read.
pub data Call (db : Db) : Db → Type 0 where
  deposit :
      (ctx : Context) (amount id teller_id : ℕ) (description : String)
      → Call db (process_deposit ctx amount id teller_id description db).1
  initiate :
      (ctx : Context) (sender_id account_id : ℕ) (number : String) (amount : ℕ)
      (description answer : String)
      → Call db (initiate_transfer ctx sender_id account_id number amount description answer db).1
  complete :
      (ctx : Context) (reference otp : String)
      → Distinct transaction_key db.transactions
      → Call db (complete_transfer ctx reference otp db).1
  withdraw :
      (ctx : Context) (id amount : ℕ) (seen : BankAccount)
      → get_account seen.id db ≡ some seen
      → Call db (settle_withdrawal ctx id amount seen db).1
  review :
      (ctx : Context) (id reviewer : ℕ) (is_fraud approve : Bool) (notes : Option String)
      → Call db (review_flagged_transaction ctx id reviewer is_fraud approve notes db).1
