-- ===== src/Transaction/Schedule.antt =====
-- Concurrent requests. A request holds its row locks until its commit, so the sections under locks
-- are steps one after another, in any order. What a request reads before its locks may be old by
-- then: the second step of a withdrawal starts with any copy of the account, and a completion with
-- any copy of the transaction and of the users. A review and an initiation are one step each.
use bank_fastapi.Prelude.{ℕ, Bool, Option, String}
use bank_fastapi.Models.{BankAccount, Transaction, User}
use bank_fastapi.Core.{Db, Context}
use bank_fastapi.Transaction.Deposit.{process_deposit}
use bank_fastapi.Transaction.Transfer.Initiate.{initiate_transfer}
use bank_fastapi.Transaction.Transfer.Complete.{complete_locked, locked_parties}
use bank_fastapi.Transaction.Withdrawal.{request_withdrawal, settle_withdrawal}
use bank_fastapi.Transaction.Review.{review_flagged_transaction}
use bank_fastapi.Transaction.Invariant.{Inv, HasCredit}
use bank_fastapi.Transaction.Preservation.Transfers.{IsFresh, initiate_transfer-Inv}
use bank_fastapi.Transaction.Preservation.Completions.{complete_locked-Inv}
use bank_fastapi.Transaction.Preservation.Deposits.{process_deposit-Inv}
use bank_fastapi.Transaction.Preservation.Withdrawals.{
  request_withdrawal-Inv, settle_withdrawal-Inv,
}
use bank_fastapi.Transaction.Preservation.Reviews.{review_flagged_transaction-Inv}

pub data Step (db : Db) : Db → Type 0 where
  deposits :
      (ctx : Context) (amount account_id teller_id : ℕ) (description : String)
      → IsFresh ctx db
      → Step db (process_deposit ctx amount account_id teller_id description db).1
  initiates :
      (ctx : Context) (sender_id account_id : ℕ) (number : String) (amount : ℕ)
      (description answer : String)
      → IsFresh ctx db
      → Step db (initiate_transfer ctx sender_id account_id number amount description answer db).1
  completes :
      (ctx : Context) (otp : String) (t : Transaction) (sender receiver : Option User)
      → HasCredit t
      → Step db (complete_locked ctx otp t (locked_parties t sender receiver db) db).1
  requests :
      (ctx : Context) (number : String) (amount : ℕ) (username description : String)
      → IsFresh ctx db
      → Step db (request_withdrawal ctx number amount username description db).1
  settles :
      (ctx : Context) (id amount : ℕ) (seen : BankAccount)
      → Step db (settle_withdrawal ctx id amount seen db).1
  reviews :
      (ctx : Context) (id reviewer : ℕ) (is_fraud approve : Bool) (notes : Option String)
      → Step db (review_flagged_transaction ctx id reviewer is_fraud approve notes db).1

pub data Reach (start : Db) : Db → Type 0 where
  here : Reach start start
  next : {db db' : Db} → Reach start db → Step db db' → Reach start db'

Step-Inv : {db db' : Db} → Step db db' → Inv db → Inv db'
Step-Inv {db} (deposits ctx amount account_id teller_id description fresh) v =
    process_deposit-Inv ctx amount account_id teller_id description db fresh v
Step-Inv {db} (initiates ctx sender_id account_id number amount description answer fresh) v =
    initiate_transfer-Inv ctx sender_id account_id number amount description answer db fresh v
Step-Inv {db} (completes ctx otp t sender receiver credit) v =
    complete_locked-Inv ctx otp t sender receiver db credit v
Step-Inv {db} (requests ctx number amount username description fresh) v =
    request_withdrawal-Inv ctx number amount username description db fresh v
Step-Inv {db} (settles ctx id amount seen) v = settle_withdrawal-Inv ctx id amount seen db v
Step-Inv {db} (reviews ctx id reviewer is_fraud approve notes) v =
    review_flagged_transaction-Inv ctx id reviewer is_fraud approve notes db v

-- From tables that meet the invariant, every interleaving of deposits, initiations, completions,
-- withdrawal steps and reviews, each ending as it may, each insert under an unused id and each
-- completion at a copy of a transaction whose credit is not negative, leads to tables that meet
-- it: no balance is below zero, no transaction would credit a negative amount, and the ids of the
-- transactions are distinct.
pub Reach-Inv : {start db : Db} → Reach start db → Inv start → Inv db
Reach-Inv here v = v
Reach-Inv (next r s) v = Step-Inv s (Reach-Inv r v)
