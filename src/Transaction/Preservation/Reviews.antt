-- ===== src/Transaction/Preservation/Reviews.antt =====
-- `review_flagged_transaction` and the invariant.
use bank_fastapi.Prelude.{
  ℕ, ◌≡◌, refl, inl, inr, Bool, true, false, ◌&&◌, Option, none, some, String, arith, Bool-cases,
  Option-cases, subst, ◌==◌,
}
use bank_fastapi.Prelude.Int.{ℤ, pos, ◌≤ℤ◌, ltb_ℤ}
use bank_fastapi.Prelude.Rows.{All-first}
use bank_fastapi.Models.{BankAccount, Transaction, RiskScore}
use bank_fastapi.Models.Metadata.{Value, end, field, get_field, or_empty}
use bank_fastapi.Core.{
  Db, Context, get_account, get_transaction, update_transaction, update_account, change, >>=-cases,
}
use bank_fastapi.Transaction.Locks.Order.{locked_account-sender, locked_account-receiver}
use bank_fastapi.Transaction.Funds.{move_balances-IsSolvent, take_balance-IsSolvent}
use bank_fastapi.Transaction.Transfer.Complete.{
  completed_row, move_balances, take_balance, row_fits, decimal_of,
}
use bank_fastapi.Transaction.Transfer.Parties.{get_account?-self}
use bank_fastapi.Transaction.Review.{
  parsed, parse_converted, rejected_row, reject_approval, settle_approved_transfer, approve_funds,
  complete_approved_transfer, complete_approved_withdrawal, decide, decided_row, run_approval,
  review_note, annotated_row, score_of, decide_flagged, review_flagged_transaction,
}
use bank_fastapi.Transaction.Invariant.{
  Inv, HasCredit, accounts-Inv, update_transaction-Inv, rejected_row-KeepsCredit,
  completed_row-KeepsCredit, decided_row-KeepsCredit, annotated_row-KeepsCredit,
}

-- What an approval starts from: the committed tables and those with the pending decision.
abbrev Both : Db → Db → Type 0
Both base db = Inv base × Inv db

reject_approval-Inv :
    (ctx : Context) (id : ℕ) (base : Db) (reason : String)
    → Inv base
    → Inv (reject_approval ctx id base reason).1
unfolding reject_approval
reject_approval-Inv ctx id base reason v = elim (Bool-cases ctx.reloads_expired) [
  | inl e ↦
      rw (e, reject_approval)
        (update_transaction-Inv id (rejected_row ctx reason) base
          (rejected_row-KeepsCredit ctx reason) v)
  | inr e ↦ rw (e, reject_approval) v
]

settle_approved-Inv :
    (ctx : Context) (base : Db) (t : Transaction) (a b : BankAccount) (m : ℤ) (db : Db)
    → Both base db
    → get_account a.id db ≡ some a
    → get_account b.id db ≡ some b
    → pos t.amount ≤ℤ a.balance
    → pos 0 ≤ℤ m
    → Inv (settle_approved_transfer ctx base t a b m db).1
unfolding settle_approved_transfer
settle_approved-Inv ctx base t a b m db v ea eb cover credit =
    let moved = move_balances a.id b.id t.amount m db in
    let w : Inv moved =
      accounts-Inv db moved
        (move_balances-IsSolvent a.id b.id t.amount m db a b v.1.solvent ea eb cover credit) refl
        v.1 in
    elim (Bool-cases (row_fits ctx a.id moved && row_fits ctx b.id moved)) [
      | inl fits ↦
          rw (fits, settle_approved_transfer)
            (update_transaction-Inv t.id (completed_row ctx) moved (completed_row-KeepsCredit ctx)
              w)
      | inr full ↦
          rw (full, settle_approved_transfer)
            (reject_approval-Inv ctx t.id base "Failed to process transfer" v.0)
    ]

-- A credit that parses is the one that the invariant speaks of.
parsed-decimal : (v : Option Value) (m : ℤ) → parse_converted v ≡ parsed m → decimal_of v ≡ some m
parsed-decimal none m e = ground arith
parsed-decimal (some (Value.amount n)) m e = ground arith
parsed-decimal (some (Value.money n)) m e = ground arith
parsed-decimal (some (Value.text s)) m e = ground arith
parsed-decimal (some (Value.dict end)) m e = ground arith
parsed-decimal (some (Value.dict (field k w d))) m e = ground arith
parsed-decimal (some _) m e = ground arith

approve_funds-Inv :
    (ctx : Context) (base : Db) (t : Transaction) (a b : BankAccount) (db : Db)
    → Both base db
    → get_account a.id db ≡ some a
    → get_account b.id db ≡ some b
    → HasCredit t
    → Inv (approve_funds ctx base t a b db).1
unfolding approve_funds
approve_funds-Inv ctx base t a b db v ea eb credit = grind (
  arith,
  reject_approval-Inv,
  settle_approved-Inv,
  parsed-decimal (get_field "converted_amount" (or_empty t.transaction_metadata)),
)

approved_transfer-Inv :
    (ctx : Context) (base : Db) (t : Transaction) (db : Db)
    → Both base db
    → HasCredit t
    → Inv (complete_approved_transfer ctx base t db).1
unfolding complete_approved_transfer
approved_transfer-Inv ctx base t db v credit = grind (
  arith,
  reject_approval-Inv,
  approve_funds-Inv,
  locked_account-sender t.sender_account_id t.receiver_account_id db,
  locked_account-receiver t.sender_account_id t.receiver_account_id db,
  get_account?-self t.sender_account_id db,
  get_account?-self t.receiver_account_id db,
)

withdrawn-Inv :
    (ctx : Context) (t : Transaction) (a : BankAccount) (db : Db)
    → get_account a.id db ≡ some a
    → ltb_ℤ a.balance (pos t.amount) ≡ false
    → Inv db
    → Inv (
        update_transaction t.id
          (completed_row ctx)
          (update_account a.id (take_balance t.amount) db))
withdrawn-Inv ctx t a db e cover v =
    let covered : pos t.amount ≤ℤ a.balance = ground arith in
    let moved = update_account a.id (take_balance t.amount) db in
    update_transaction-Inv t.id (completed_row ctx) moved (completed_row-KeepsCredit ctx)
      (accounts-Inv db moved (take_balance-IsSolvent a.id t.amount db a v.solvent e covered) refl v)

approved_withdrawal-Inv :
    (ctx : Context) (base : Db) (t : Transaction) (db : Db)
    → Both base db
    → Inv (complete_approved_withdrawal ctx base t db).1
unfolding complete_approved_withdrawal
approved_withdrawal-Inv ctx base t db v =
    grind (arith, reject_approval-Inv, withdrawn-Inv, get_account?-self t.sender_account_id db)

-- `if approve_transaction: ...` keeps the invariant.
run_approval-Inv :
    (ctx : Context) (approve : Bool) (base : Db) (t : Transaction) (db : Db)
    → Both base db
    → HasCredit t
    → Inv (run_approval ctx approve base t db).1
unfolding run_approval
run_approval-Inv ctx false base t db v credit = v.1
run_approval-Inv ctx true base t db v credit = ground (
  arith,
  v.1,
  approved_transfer-Inv ctx base t db v credit,
  approved_withdrawal-Inv ctx base t db v,
)

decide-Inv :
    (is_fraud : Bool) (reviewer : ℕ) (t : Transaction) (s : RiskScore) (db : Db)
    → Inv db
    → Inv (decide is_fraud reviewer t s db)
decide-Inv is_fraud reviewer t s db v =
    let w =
      update_transaction-Inv t.id (decided_row is_fraud) db (decided_row-KeepsCredit is_fraud) v in
    record { solvent = w.solvent; credits = w.credits; keys = w.keys }

decide_flagged-Inv :
    (ctx : Context) (reviewer : ℕ) (is_fraud approve : Bool) (notes : Option String)
    (t : Transaction) (s : RiskScore) (db : Db)
    → HasCredit t
    → Inv db
    → Inv (decide_flagged ctx reviewer is_fraud approve notes t s db).1
unfolding decide_flagged
decide_flagged-Inv ctx reviewer is_fraud approve notes t s db credit v =
    let pending = decide is_fraud reviewer t s db in
    let note = review_note ctx reviewer is_fraud notes in
    let w =
      run_approval-Inv ctx approve db t pending (v, decide-Inv is_fraud reviewer t s db v) credit in
    >>=-cases (λ x. Inv x.1) (run_approval ctx approve db t)
      (λ _. change (update_transaction t.id (annotated_row ctx note))) pending
      (λ a db' e.
        update_transaction-Inv t.id (annotated_row ctx note) db'
          (annotated_row-KeepsCredit ctx note) (subst (λ y. Inv y.1) e w))
      (λ x db' e. subst (λ y. Inv y.1) e w)

-- `review_flagged_transaction` keeps the invariant, whether it returns or raises.
pub review_flagged_transaction-Inv :
    (ctx : Context) (id reviewer : ℕ) (is_fraud approve : Bool) (notes : Option String) (db : Db)
    → Inv db
    → Inv (review_flagged_transaction ctx id reviewer is_fraud approve notes db).1
unfolding review_flagged_transaction
review_flagged_transaction-Inv ctx id reviewer is_fraud approve notes db v =
    elim (Option-cases (get_transaction id db)) [
      | inl gone ↦ rw (gone, review_flagged_transaction) v
      | inr (t, e) ↦
          let credit : HasCredit t =
            All-first HasCredit (λ x. x.id == id) db.transactions t v.credits e in
          elim (Option-cases (score_of id db)) [
            | inl unscored ↦ ground arith
            | inr (s, f) ↦
                ground
                  (arith, decide_flagged-Inv ctx reviewer is_fraud approve notes t s db credit v)
          ]
    ]
