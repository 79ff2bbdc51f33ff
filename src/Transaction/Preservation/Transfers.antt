-- ===== src/Transaction/Preservation/Transfers.antt =====
-- `initiate_transfer`, `complete_transfer` and the invariant.
use bank_fastapi.Prelude.{ℕ, ◌≡◌, refl, inl, inr, none, String, arith, Bool-cases, Option-cases}
use bank_fastapi.Models.{User, Transaction, FailureReason}
use bank_fastapi.Models.Metadata.{Fields}
use bank_fastapi.Core.{pure, Result-cases, Db, Context, get_transaction, update_user, change, ◌>>◌}
use bank_fastapi.Core.Ends.{Ends, keep_then}
use bank_fastapi.Transaction.Failure.{mark_transaction_failed, failed_row}
use bank_fastapi.Transaction.Deposit.{add_transaction-cases, with_transaction}
use bank_fastapi.Transaction.Fraud.{
  flag_message, flag_details, Analysis, analyze_transaction, handle_flagged_transaction, flag_if,
  assessed_row, flagged_row,
}
use bank_fastapi.Transaction.Transfer.Initiate.{initiate_transfer, score_transfer, planned_row}
use bank_fastapi.Transaction.Transfer.Plan.{plan_transfer, issue_otp}
use bank_fastapi.Transaction.Invariant.{
  Inv, accounts-Inv, with_transaction-Inv, update_transaction-Inv, failed_row-KeepsCredit,
  flagged_row-KeepsCredit, assessed_row-KeepsCredit,
}

pub mark-Inv :
    (ctx : Context) (id : ℕ) (reason : FailureReason) (details : Fields) (message : String)
    → Ends Inv Inv (mark_transaction_failed ctx id reason details message)
unfolding mark_transaction_failed
mark-Inv ctx id reason details message db v =
    update_transaction-Inv id (failed_row ctx reason details message) db
      (failed_row-KeepsCredit ctx reason details message) v

pub analyze-Inv : (ctx : Context) (t : Transaction) → Ends Inv Inv (analyze_transaction ctx t)
unfolding analyze_transaction
analyze-Inv ctx t db v = elim (Option-cases (ctx.predict t)) [
  | inl e ↦ rw (e, analyze_transaction) v
  | inr (score, e) ↦
      rw (e, analyze_transaction)
        (update_transaction-Inv t.id (assessed_row ctx score) _ (assessed_row-KeepsCredit ctx score)
          (accounts-Inv db _ v.solvent refl v))
]

pub flag_if-Inv : (ctx : Context) (id : ℕ) (a : Analysis) → Ends Inv Inv (flag_if ctx id a)
unfolding handle_flagged_transaction mark_transaction_failed
flag_if-Inv ctx id a db v = elim (Bool-cases a.needs_review) [
  | inl flagged ↦
      rw (flagged, flag_if)
        (update_transaction-Inv id flagged_row _ flagged_row-KeepsCredit
          (mark-Inv ctx id FailureReason.suspicious_activity (flag_details a) flag_message db v))
  | inr clean ↦ rw (clean, flag_if) v
]

score-Inv :
    (ctx : Context) (t : Transaction) (sender : User) → Ends Inv Inv (score_transfer ctx t sender)
unfolding score_transfer
score-Inv ctx t sender =
    let finish = change (update_user sender.id (issue_otp ctx)) >> pure t.id in
    keep_then Inv (analyze_transaction ctx t) (λ a. flag_if ctx t.id a >> finish)
      (analyze-Inv ctx t)
      λ a.
        keep_then Inv (flag_if ctx t.id a) (λ _. finish) (flag_if-Inv ctx t.id a)
          λ _ db v. accounts-Inv db (update_user sender.id (issue_otp ctx) db) v.solvent refl v

-- The id that `uuid4` gives is not in use.
abbrev pub IsFresh : Context → Db → Type 0
IsFresh ctx db = get_transaction ctx.new_id db ≡ none

-- `initiate_transfer` keeps the invariant, whether it returns or raises.
pub initiate_transfer-Inv :
    (ctx : Context) (sender_id account_id : ℕ) (number : String) (amount : ℕ)
    (description answer : String) (db : Db)
    → IsFresh ctx db
    → Inv db
    → Inv (initiate_transfer ctx sender_id account_id number amount description answer db).1
unfolding initiate_transfer
initiate_transfer-Inv ctx sender_id account_id number amount description answer db fresh v =
    elim (Result-cases (plan_transfer ctx sender_id account_id number amount answer db)) [
      | inl (e, refused) ↦ rw (refused, initiate_transfer) v
      | inr (p, planned) ↦
          let t = planned_row ctx amount description p in
          rw (planned, initiate_transfer)
            (add_transaction-cases (λ x. Inv x.1) t (score_transfer ctx t p.sender) db (λ e. v)
              (λ free.
                score-Inv ctx t p.sender (with_transaction t db)
                  (with_transaction-Inv t db (omega arith) fresh v)))
    ]
