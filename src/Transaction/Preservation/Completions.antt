-- ===== src/Transaction/Preservation/Completions.antt =====
-- `complete_transfer` and the invariant.
use bank_fastapi.Prelude.{
  ℕ, ◌≡◌, refl, inl, inr, ◌&&◌, Option, some, String, arith, Bool-cases, Option-cases, subst,
}
use bank_fastapi.Prelude.Int.{ℤ, pos, ◌≤ℤ◌}
use bank_fastapi.Prelude.Rows.{first, All-first}
use bank_fastapi.Models.{User, Transaction, FailureReason}
use bank_fastapi.Models.Metadata.{Fields}
use bank_fastapi.Core.{get_user?, ◌>>◌, Db, Context, get_account, update_transaction, >>=-cases}
use bank_fastapi.Core.Ends.{Ends}
use bank_fastapi.Transaction.Failure.{mark_transaction_failed, failed_row}
use bank_fastapi.Transaction.Funds.{move_balances-IsSolvent}
use bank_fastapi.Transaction.Transfer.Complete.{
  locked_parties, complete_locked, found_details, Parties, find_parties, check_transfer,
  settle_transfer, apply_transfer, complete_pending, complete_transfer, system_failure,
  converted_amount, move_balances, row_fits, completed_row, pending_with,
}
use bank_fastapi.Transaction.Transfer.Outcome.{check_transfer-Clears, Clears}
use bank_fastapi.Transaction.Transfer.Parties.{locked_parties-rows}
use bank_fastapi.Transaction.Invariant.{
  Inv, HasCredit, IsCredit, accounts-Inv, update_transaction-Inv, failed_row-KeepsCredit,
  completed_row-KeepsCredit,
}

pub failed-Inv :
    (ctx : Context) (id : ℕ) (reason : FailureReason) (details : Fields) (message : String)
    (db : Db)
    → Inv db
    → Inv (update_transaction id (failed_row ctx reason details message) db)
failed-Inv ctx id reason details message db v =
    update_transaction-Inv id (failed_row ctx reason details message) db
      (failed_row-KeepsCredit ctx reason details message) v

check_transfer-Inv :
    (ctx : Context) (otp : String) (t : Transaction) (p : Parties)
    → Ends Inv Inv (check_transfer ctx otp t p)
unfolding check_transfer mark_transaction_failed
check_transfer-Inv ctx otp t p db v = grind (arith, failed-Inv)

system_failure-Inv : (ctx : Context) (id : ℕ) → Ends Inv Inv (system_failure {A = ℕ} ctx id)
unfolding system_failure mark_transaction_failed
system_failure-Inv ctx id db v = grind (arith, failed-Inv)

-- What is known when the balances are about to move.
abbrev HasRows : Parties → Db → Type 0
HasRows p db =
    (get_account p.sender_account.id db ≡ some p.sender_account)
    × (get_account p.receiver_account.id db ≡ some p.receiver_account)

settle_transfer-Inv :
    (ctx : Context) (t : Transaction) (p : Parties) (m : ℤ) (db : Db)
    → HasRows p db
    → pos t.amount ≤ℤ p.sender_account.balance
    → pos 0 ≤ℤ m
    → Inv db
    → Inv (settle_transfer ctx t p m db).1
unfolding settle_transfer
settle_transfer-Inv ctx t p m db rows cover credit v =
    let s = p.sender_account.id in
    let r = p.receiver_account.id in
    let moved = move_balances s r t.amount m db in
    let w : Inv moved =
      accounts-Inv db moved
        (move_balances-IsSolvent s r t.amount m db p.sender_account p.receiver_account v.solvent
          rows.0 rows.1 cover credit)
        refl v in
    elim (Bool-cases (row_fits ctx s moved && row_fits ctx r moved)) [
      | inl fits ↦
          rw (fits, settle_transfer)
            (let done =
                update_transaction-Inv t.id (completed_row ctx) moved
                  (completed_row-KeepsCredit ctx) w in
              record { solvent = done.solvent; credits = done.credits; keys = done.keys })
      | inr full ↦ rw (full, settle_transfer) (system_failure-Inv ctx t.id db v)
    ]

apply_transfer-Inv :
    (ctx : Context) (t : Transaction) (p : Parties) (db : Db)
    → HasRows p db
    → pos t.amount ≤ℤ p.sender_account.balance
    → HasCredit t
    → Inv db
    → Inv (apply_transfer ctx t p db).1
unfolding apply_transfer
apply_transfer-Inv ctx t p db rows cover credit v = elim (Option-cases (converted_amount t)) [
  | inl e ↦ rw (e, apply_transfer) (system_failure-Inv ctx t.id db v)
  | inr (m, e) ↦
      rw (e, apply_transfer)
        (settle_transfer-Inv ctx t p m db rows cover (subst IsCredit e credit) v)
]

complete_checked-Inv :
    (ctx : Context) (otp : String) (t : Transaction) (p : Parties) (db : Db)
    → HasRows p db
    → HasCredit t
    → Inv db
    → Inv ((check_transfer ctx otp t p >> apply_transfer ctx t p) db).1
complete_checked-Inv ctx otp t p db rows credit v =
    >>=-cases (λ x. Inv x.1) (check_transfer ctx otp t p) (λ _. apply_transfer ctx t p) db
      (λ a db' e.
        let c = subst (Clears ctx otp t p db) e (check_transfer-Clears ctx otp t p db) in
        rw (c.0) (apply_transfer-Inv ctx t p db rows c.1.4 credit v))
      (λ x db' e. subst (λ y. Inv y.1) e (check_transfer-Inv ctx otp t p db v))

-- From the locks on, whatever the session has read of the transaction and of the users.
pub complete_locked-Inv :
    (ctx : Context) (otp : String) (t : Transaction) (sender receiver : Option User) (db : Db)
    → HasCredit t
    → Inv db
    → Inv (complete_locked ctx otp t (locked_parties t sender receiver db) db).1
unfolding mark_transaction_failed
complete_locked-Inv ctx otp t sender receiver db credit v =
    elim (Option-cases (locked_parties t sender receiver db)) [
      | inl gone ↦ rw gone (
          failed-Inv ctx t.id FailureReason.invalid_account (found_details t db)
            "Account information not found" db v)
      | inr (p, e) ↦ rw e (
          complete_checked-Inv ctx otp t p db (locked_parties-rows t sender receiver db p e) credit
            v)
    ]

-- `complete_transfer` keeps the invariant, whether it returns or raises: no call leaves an account
-- below zero.
pub complete_transfer-Inv :
    (ctx : Context) (reference otp : String) (db : Db)
    → Inv db
    → Inv (complete_transfer ctx reference otp db).1
unfolding complete_transfer complete_pending find_parties
complete_transfer-Inv ctx reference otp db v =
    elim (Option-cases (first (pending_with reference) db.transactions)) [
      | inl gone ↦ rw (gone, complete_transfer) v
      | inr (t, e) ↦
          rw (e, complete_transfer)
            (complete_locked-Inv ctx otp t (get_user? t.sender_id db) (get_user? t.receiver_id db)
              db (All-first HasCredit (pending_with reference) db.transactions t v.credits e) v)
    ]
