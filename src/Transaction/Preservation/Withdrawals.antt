-- ===== src/Transaction/Preservation/Withdrawals.antt =====
-- The two steps of `process_withdrawal` and the invariant. The second step may start from tables
-- that others have changed since the first.
use bank_fastapi.Prelude.{subst, ℕ, ◌≡◌, refl, inl, inr, false, some, String, arith, Option-cases}
use bank_fastapi.Prelude.Int.{pos, ◌-ℤ◌, ◌≤ℤ◌, ltb_ℤ, int_laws}
use bank_fastapi.Models.{BankAccount, Transaction}
use bank_fastapi.Core.{
  Db, Context, Result-cases, get_account, update_transaction, update_account, pure, ◌>>◌, >>=-cases,
}
use bank_fastapi.Core.Ends.{Ends, keep_then}
use bank_fastapi.Transaction.Failure.{mark_transaction_failed}
use bank_fastapi.Transaction.Deposit.{add_transaction-cases, with_transaction, set_balance}
use bank_fastapi.Transaction.Fraud.{analyze_transaction, flag_if}
use bank_fastapi.Transaction.Funds.{set_balance-IsSolvent, get_account_self}
use bank_fastapi.Transaction.Withdrawal.{
  withdrawal_row, plan_withdrawal, score_withdrawal, request_withdrawal, settled_row, account_view,
  debit_account, settle_withdrawal, process_withdrawal,
}
use bank_fastapi.Transaction.Invariant.{
  Inv, accounts-Inv, with_transaction-Inv, update_transaction-Inv, settled_row-KeepsCredit,
}
use bank_fastapi.Transaction.Preservation.Transfers.{IsFresh, analyze-Inv, flag_if-Inv}
use bank_fastapi.Transaction.Preservation.Completions.{failed-Inv}

score_withdrawal-Inv :
    (ctx : Context) (t : Transaction) (a : BankAccount) → Ends Inv Inv (score_withdrawal ctx t a)
unfolding score_withdrawal
score_withdrawal-Inv ctx t a =
    keep_then Inv (analyze_transaction ctx t) (λ x. flag_if ctx t.id x >> pure a)
      (analyze-Inv ctx t)
      λ x. keep_then Inv (flag_if ctx t.id x) (λ _. pure a) (flag_if-Inv ctx t.id x) λ _ db v. v

pub request_withdrawal-Inv :
    (ctx : Context) (number : String) (amount : ℕ) (username description : String) (db : Db)
    → IsFresh ctx db
    → Inv db
    → Inv (request_withdrawal ctx number amount username description db).1
unfolding request_withdrawal
request_withdrawal-Inv ctx number amount username description db fresh v =
    elim (Result-cases (plan_withdrawal number amount username db)) [
      | inl (e, refused) ↦ rw (refused, request_withdrawal) v
      | inr ((a, u), planned) ↦
          let t = withdrawal_row ctx amount description a u in
          rw (planned, request_withdrawal)
            (add_transaction-cases (λ x. Inv x.1) t (score_withdrawal ctx t a) db (λ e. v)
              (λ free.
                score_withdrawal-Inv ctx t a (with_transaction t db)
                  (with_transaction-Inv t db tt fresh v)))
    ]

-- The writes of the critical section.
abbrev debited : Context → ℕ → ℕ → BankAccount → Db → Db
debited ctx id amount a db =
    update_account a.id (set_balance (a.balance -ℤ pos amount))
      (update_transaction id (settled_row ctx a.balance (a.balance -ℤ pos amount)) db)

debited-Inv :
    (ctx : Context) (id amount : ℕ) (a row : BankAccount) (db : Db)
    → get_account a.id db ≡ some row
    → ltb_ℤ a.balance (pos amount) ≡ false
    → Inv db
    → Inv (debited ctx id amount a db)
debited-Inv ctx id amount a row db e cover v =
    let after = a.balance -ℤ pos amount in
    let settled = update_transaction id (settled_row ctx a.balance after) db in
    let w : Inv settled =
      update_transaction-Inv id (settled_row ctx a.balance after) db
        (settled_row-KeepsCredit ctx a.balance after) v in
    let covered : pos amount ≤ℤ a.balance = ground arith in
    accounts-Inv settled _
      (set_balance-IsSolvent a.id after settled row w.solvent e (omega int_laws)) refl w

pub debit_account-Inv :
    (ctx : Context) (id amount : ℕ) (a row : BankAccount) (db : Db)
    → get_account a.id db ≡ some row
    → Inv db
    → Inv (debit_account ctx id amount a db).1
unfolding debit_account mark_transaction_failed
debit_account-Inv ctx id amount a row db e v =
    grind (arith, failed-Inv, debited-Inv ctx id amount a row db e)

view-row :
    (ctx : Context) (seen row : BankAccount) (db : Db)
    → get_account seen.id db ≡ some row
    → get_account row.id db ≡ some row
    → get_account (account_view ctx seen row).id db ≡ some row
view-row ctx seen row db e f = ground arith

-- The second step keeps the invariant from any tables, whatever copy of the account the session
-- holds: a debit writes a balance that is not below zero.
pub settle_withdrawal-Inv :
    (ctx : Context) (id amount : ℕ) (seen : BankAccount) (db : Db)
    → Inv db
    → Inv (settle_withdrawal ctx id amount seen db).1
unfolding settle_withdrawal
settle_withdrawal-Inv ctx id amount seen db v = elim (Option-cases (get_account seen.id db)) [
  | inl gone ↦ rw (gone, settle_withdrawal) v
  | inr (row, e) ↦
      rw (e, settle_withdrawal)
        (debit_account-Inv ctx id amount (account_view ctx seen row) row db
          (view-row ctx seen row db e (get_account_self seen.id db row e)) v)
]

-- `process_withdrawal` keeps the invariant, whether it returns or raises.
pub process_withdrawal-Inv :
    (ctx : Context) (number : String) (amount : ℕ) (username description : String) (db : Db)
    → IsFresh ctx db
    → Inv db
    → Inv (process_withdrawal ctx number amount username description db).1
unfolding process_withdrawal
process_withdrawal-Inv ctx number amount username description db fresh v =
    let w = request_withdrawal-Inv ctx number amount username description db fresh v in
    >>=-cases (λ x. Inv x.1) (request_withdrawal ctx number amount username description)
      (settle_withdrawal ctx ctx.new_id amount) db
      (λ seen db' e.
        settle_withdrawal-Inv ctx ctx.new_id amount seen db' (subst (λ y. Inv y.1) e w))
      (λ x db' e. subst (λ y. Inv y.1) e w)
