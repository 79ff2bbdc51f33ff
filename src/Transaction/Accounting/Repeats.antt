-- ===== src/Transaction/Accounting/Repeats.antt =====
-- The second approval of a flagged transfer: `review_flagged_transaction` (transaction/service.py)
-- does not read the transaction again under the locks of the accounts.
use bank_fastapi.Prelude.{
  ◌&&◌, false, ℕ, ◌+◌, ◌≡◌, refl, sym, ap, ◌∙◌, Option, none, some, String, arith, subst, Bool,
  true,
}
use bank_fastapi.Prelude.Int.{ltb_ℤ, ℤ, pos, ◌+ℤ◌}
use bank_fastapi.Models.Metadata.{is_blank, get_field, or_empty}
use bank_fastapi.Models.{TransactionType, BankAccount, Transaction, User, RiskScore}
use bank_fastapi.Core.{
  update_transaction, get_account?, get_user?, Db, Context, Action, ok, err, change, ◌>>◌,
  >>=-cases,
}
use bank_fastapi.Transaction.Locks.Order.{locked_account-sender, locked_account-receiver}
use bank_fastapi.Transaction.Funds.{total_balance}
use bank_fastapi.Transaction.Transfer.Complete.{row_fits, move_balances, completed_row}
use bank_fastapi.Transaction.Review.{
  decide, parsed, parse_converted, settle_approved_transfer, approve_funds,
  complete_approved_transfer, run_approval, decide_flagged, review_note, annotated_row,
}
use bank_fastapi.Transaction.Accounting.Reviews.{debit_of, credit_of}
use bank_fastapi.Transaction.Accounting.Races.{decide_flagged-twice}

abbrev fits_both : Context → Transaction → BankAccount → BankAccount → ℤ → Db → Bool
fits_both ctx t a b m db =
    let moved = move_balances a.id b.id t.amount m db in
    row_fits ctx a.id moved && row_fits ctx b.id moved

-- An approved transfer whose users and accounts are there, whose converted amount is stored, and
-- that the sender's balance covers goes through.
approved :
    (ctx : Context) (base : Db) (t : Transaction) (m : ℤ) (u v : User) (a b : BankAccount) (db : Db)
    → parse_converted (get_field "converted_amount" (or_empty t.transaction_metadata)) ≡ parsed m
    → get_user? t.sender_id db ≡ some u
    → get_user? t.receiver_id db ≡ some v
    → get_account? t.sender_account_id db ≡ some a
    → get_account? t.receiver_account_id db ≡ some b
    → ltb_ℤ a.balance (pos t.amount) ≡ false
    → fits_both ctx t a b m db ≡ true
    → complete_approved_transfer ctx base t db
      ≡ (ok tt, update_transaction t.id (completed_row ctx) (move_balances a.id b.id t.amount m db))
unfolding complete_approved_transfer approve_funds settle_approved_transfer
approved ctx base t m u v a b db h eu ev ea eb covers fits =
    let kept : is_blank t.transaction_metadata ≡ false = ground (arith, h) in
    rw
      (
        complete_approved_transfer,
        eu,
        ev,
        locked_account-sender t.sender_account_id t.receiver_account_id db ∙ ea,
        locked_account-receiver t.sender_account_id t.receiver_account_id db ∙ eb,
        approve_funds,
        kept,
        h,
        covers,
        settle_approved_transfer,
        fits,
      )
      refl

decided-user :
    (is_fraud : Bool) (reviewer : ℕ) (t : Transaction) (s : RiskScore) (db : Db) (k : Option ℕ)
    → get_user? k (decide is_fraud reviewer t s db) ≡ get_user? k db
decided-user is_fraud reviewer t s db none = refl
decided-user is_fraud reviewer t s db (some k) = refl

decided-account :
    (is_fraud : Bool) (reviewer : ℕ) (t : Transaction) (s : RiskScore) (db : Db) (k : Option ℕ)
    → get_account? k (decide is_fraud reviewer t s db) ≡ get_account? k db
decided-account is_fraud reviewer t s db none = refl
decided-account is_fraud reviewer t s db (some k) = refl

after :
    (m k : Action (Unit {0})) (db db' : Db) (a : Unit {0})
    → m db ≡ (ok a, db')
    → (m >> k) db ≡ k db'
after m k db db' a e =
    >>=-cases (λ x. x ≡ k db') m (λ _. k) db (λ b d f. ap k (ap (λ x. x.1) (sym f ∙ e)))
      (λ x d f. let clash : err x ≡ ok a = ap (λ y. y.0) (sym f ∙ e) in ground arith)

-- Two approvals of one flagged transfer that have both read it, with its risk score, before either
-- has changed it, the first of which has returned: if the users and accounts are there, the converted
-- amount is stored, the sender's balance covers the amount again and both balances fit their columns,
-- then the second returns as well, and the debit and the credit have both been made twice.
pub decide_flagged-repeats :
    (ctx later : Context) (reviewer second_reviewer : ℕ) (is_fraud is_fraud_too : Bool)
    (notes second_notes : Option String) (t : Transaction) (s : RiskScore) (db db' : Db) (m : ℤ)
    (u v : User) (a b : BankAccount)
    → t.transaction_type ≡ TransactionType.transfer
    → parse_converted (get_field "converted_amount" (or_empty t.transaction_metadata)) ≡ parsed m
    → decide_flagged ctx reviewer is_fraud true notes t s db ≡ (ok tt, db')
    → get_user? t.sender_id db' ≡ some u
    → get_user? t.receiver_id db' ≡ some v
    → get_account? t.sender_account_id db' ≡ some a
    → get_account? t.receiver_account_id db' ≡ some b
    → ltb_ℤ a.balance (pos t.amount) ≡ false
    → fits_both later t a b m db' ≡ true
    → (db'' : Db) × (decide_flagged later second_reviewer is_fraud_too true second_notes t s db'
        ≡ (ok tt, db''))
      × (total_balance db'' +ℤ pos (t.amount + t.amount) ≡ total_balance db +ℤ (m +ℤ m))
unfolding decide_flagged run_approval
decide_flagged-repeats ctx later reviewer second_reviewer is_fraud is_fraud_too notes second_notes t
      s db db' m u v a b type h once eu ev ea eb covers fits =
    let again : run_approval later true db' t (decide is_fraud_too second_reviewer t s db') ≡ (
      ok tt,
      update_transaction t.id (completed_row later)
          (move_balances a.id b.id t.amount m (decide is_fraud_too second_reviewer t s db')),
    ) =
      rw (run_approval, type)
        (approved later db' t m u v a b (decide is_fraud_too second_reviewer t s db') h
          (decided-user is_fraud_too second_reviewer t s db' t.sender_id ∙ eu)
          (decided-user is_fraud_too second_reviewer t s db' t.receiver_id ∙ ev)
          (decided-account is_fraud_too second_reviewer t s db' t.sender_account_id ∙ ea)
          (decided-account is_fraud_too second_reviewer t s db' t.receiver_account_id ∙ eb) covers
          fits) in
    let note = review_note later second_reviewer is_fraud_too second_notes in
    let last = update_transaction t.id (annotated_row later note) (
      update_transaction t.id (completed_row later)
        (move_balances a.id b.id t.amount m (decide is_fraud_too second_reviewer t s db'))) in
    let returns : decide_flagged later second_reviewer is_fraud_too true second_notes t s db'
        ≡ (ok tt, last) =
      after (run_approval later true db' t)
        (change (update_transaction t.id (annotated_row later note)))
        (decide is_fraud_too second_reviewer t s db') _ tt again in
    let twice =
      decide_flagged-twice ctx later reviewer second_reviewer is_fraud is_fraud_too notes
        second_notes t s db db' last once returns in
    let debited : debit_of true t ≡ t.amount = rw type refl in
    let credited : credit_of true t ≡ m = ground (arith, type, h) in
    (
      last,
      returns,
      subst (λ x. total_balance last +ℤ pos (x + x) ≡ total_balance db +ℤ (m +ℤ m)) debited
          (subst
            (λ x.
              total_balance last +ℤ pos (debit_of true t + debit_of true t)
              ≡ total_balance db +ℤ (x +ℤ x))
            credited twice),
    )
