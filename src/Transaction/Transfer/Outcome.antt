-- ===== src/Transaction/Transfer/Outcome.antt =====
-- How `complete_transfer` ends, on every branch.
use bank_fastapi.Prelude.{
  ℕ, ◌≡◌, refl, inl, inr, Bool, true, false, ◌||◌, ◌&&◌, not, Option, none, some, String, str_eq,
  arith, Option-cases, Bool-cases, subst,
}
use bank_fastapi.Prelude.Int.{ℤ, pos, ◌≤ℤ◌}
use bank_fastapi.Prelude.Rows.{Distinct, first, find-first, find-modify_self}
use bank_fastapi.Models.{Transaction, TransactionStatus, FailureReason, is_active}
use bank_fastapi.Models.Metadata.{Fields}
use bank_fastapi.Core.{
  Db, Context, Error, raise, Result, ok, err, update_user, update_transaction, get_transaction,
  ◌>>◌, >>=-cases, transaction_key,
}
use bank_fastapi.Transaction.Failure.{mark_transaction_failed, failed_row}
use bank_fastapi.Transaction.Transfer.Complete.{
  Parties, find_parties, check_transfer, settle_transfer, apply_transfer, complete_pending,
  complete_transfer, system_failure, converted_amount, move_balances, row_fits, completed_row,
  clear_otp, is_expired, found_details, pending_with,
}

-- Nothing but transactions has changed.
abbrev pub SameFunds : Db → Db → Type 0
SameFunds db db' = (db'.accounts ≡ db.accounts) × (db'.users ≡ db.users) × (db'.cards ≡ db.cards)

-- What the checks establish.
abbrev pub IsCleared : Context → String → Transaction → Parties → Type 0
IsCleared ctx otp t p =
    (str_eq p.sender.otp otp ≡ true)
    × (is_expired ctx.now p.sender.otp_expiry_time ≡ false)
    × (is_active p.sender_account.account_status ≡ true)
    × (is_active p.receiver_account.account_status ≡ true)
    × (pos t.amount ≤ℤ p.sender_account.balance)

-- The transaction with an id is marked failed.
abbrev pub is_failed : TransactionStatus → Bool
is_failed TransactionStatus.failed = true
is_failed _ = false

unfoldable pub has_failed : ℕ → Db → Bool
has_failed id db = elim (get_transaction id db) [ none ↦ false | some r ↦ is_failed r.status ]

pub has_failed-failed_row :
    (ctx : Context) (id : ℕ) (reason : FailureReason) (details : Fields) (message : String)
    (db : Db) (t : Transaction)
    → get_transaction id db ≡ some t
    → has_failed id (update_transaction id (failed_row ctx reason details message) db) ≡ true
unfolding has_failed
has_failed-failed_row ctx id reason details message db t e = rw (
  find-modify_self transaction_key id (failed_row ctx reason details message) db.transactions t e
      refl,
  has_failed,
)

abbrev pub Checks : Context → String → Transaction → Parties → Db → Result (Unit {0}) × Db → Type 0
Checks ctx otp t p db (ok _, db') = (db' ≡ db) × IsCleared ctx otp t p
Checks ctx otp t p db (err e, db') = SameFunds db db' × (has_failed t.id db' ≡ true)

pub check_transfer-Checks :
    (ctx : Context) (otp : String) (t : Transaction) (p : Parties) (db : Db)
    → get_transaction t.id db ≡ some t
    → Checks ctx otp t p db (check_transfer ctx otp t p db)
unfolding check_transfer mark_transaction_failed
check_transfer-Checks ctx otp t p db h = grind (arith, has_failed-failed_row)

-- What a check that passes shows, at a transaction that the session may have read long before.
abbrev pub Clears : Context → String → Transaction → Parties → Db → Result (Unit {0}) × Db → Type 0
Clears ctx otp t p db (ok _, db') = (db' ≡ db) × IsCleared ctx otp t p
Clears ctx otp t p db (err e, db') = SameFunds db db'

pub check_transfer-Clears :
    (ctx : Context) (otp : String) (t : Transaction) (p : Parties) (db : Db)
    → Clears ctx otp t p db (check_transfer ctx otp t p db)
unfolding check_transfer mark_transaction_failed
check_transfer-Clears ctx otp t p db = grind arith

-- The state after a transfer of `converted` for `t`.
abbrev pub transferred : Context → Transaction → Parties → ℤ → Db → Db
transferred ctx t p converted db = update_user p.sender.id clear_otp (
    update_transaction t.id (completed_row ctx)
      (move_balances p.sender_account.id p.receiver_account.id t.amount converted db))

-- A call that began at `db`, by how it ended, where `t` is the pending transaction and `p` its
-- rows.
abbrev pub Settles : Context → String → Transaction → Option Parties → Db → Result ℕ × Db → Type 0
Settles ctx otp t none db (ok _, db') = ⊥
Settles ctx otp t (some p) db (ok id, db') =
    (id ≡ t.id)
    × IsCleared ctx otp t p
    × ((converted : ℤ) × (converted_amount t ≡ some converted)
        × (db' ≡ transferred ctx t p converted db))
Settles ctx otp t _ db (err e, db') =
    SameFunds db db' × ((has_failed t.id db' || not ctx.reloads_expired) ≡ true)

settle_transfer-Settles :
    (ctx : Context) (otp : String) (t : Transaction) (p : Parties) (m : ℤ) (db : Db)
    → get_transaction t.id db ≡ some t
    → IsCleared ctx otp t p
    → converted_amount t ≡ some m
    → Settles ctx otp t (some p) db (settle_transfer ctx t p m db)
unfolding settle_transfer system_failure mark_transaction_failed
settle_transfer-Settles ctx otp t p m db h c e =
    let moved = move_balances p.sender_account.id p.receiver_account.id t.amount m db in
    elim (Bool-cases
      (row_fits ctx p.sender_account.id moved && row_fits ctx p.receiver_account.id moved)) [
        | inl fits ↦ rw (fits, settle_transfer) (refl, c, (m, e, refl))
        | inr full ↦ rw (full, settle_transfer) (grind (arith, has_failed-failed_row))
      ]

apply_transfer-Settles :
    (ctx : Context) (otp : String) (t : Transaction) (p : Parties) (db : Db)
    → get_transaction t.id db ≡ some t
    → IsCleared ctx otp t p
    → Settles ctx otp t (some p) db (apply_transfer ctx t p db)
unfolding apply_transfer system_failure mark_transaction_failed
apply_transfer-Settles ctx otp t p db h c = elim (Option-cases (converted_amount t)) [
  | inl e ↦ rw (e, apply_transfer) (grind (arith, has_failed-failed_row))
  | inr (m, e) ↦ rw (e, apply_transfer) (settle_transfer-Settles ctx otp t p m db h c e)
]

complete_checked :
    (ctx : Context) (otp : String) (t : Transaction) (p : Parties) (db : Db)
    → get_transaction t.id db ≡ some t
    → Settles ctx otp t (some p) db ((check_transfer ctx otp t p >> apply_transfer ctx t p) db)
complete_checked ctx otp t p db h =
    >>=-cases (Settles ctx otp t (some p) db) (check_transfer ctx otp t p)
      (λ _. apply_transfer ctx t p) db
      (λ a db' e.
        let c = subst (Checks ctx otp t p db) e (check_transfer-Checks ctx otp t p db h) in
        rw (c.0) (apply_transfer-Settles ctx otp t p db h c.1))
      (λ x db' e.
        let c = subst (Checks ctx otp t p db) e (check_transfer-Checks ctx otp t p db h) in
        (c.0, rw (c.1)))

missing_party :
    (ctx : Context) (otp : String) (t : Transaction) (db : Db)
    → get_transaction t.id db ≡ some t
    → Settles ctx otp t none db (
        (mark_transaction_failed ctx t.id FailureReason.invalid_account
              (found_details t db)
              "Account information not found"
            >> raise (Error.not_found "Account information not found"))
          db)
unfolding mark_transaction_failed
missing_party ctx otp t db h = (
  (refl, refl, refl),
  rw (
      has_failed-failed_row ctx t.id FailureReason.invalid_account (found_details t db)
        "Account information not found" db t h),
)

-- Where the ids of the transactions are distinct, a call of `complete_transfer` at a pending
-- transaction ends in one of two ways. It returns the transaction's id, and then the OTP was the
-- sender's and had not expired, both accounts were active, the sender's balance covered the amount,
-- and the new state is the old one with the debit, the credit, the transaction completed and the
-- OTP cleared. Or it raises, and then no account, user or card has changed, and the transaction is
-- marked failed (where the session does not reload expired rows, it may stay as it was). Where a
-- party is missing it never returns.
pub complete_transfer-Settles :
    (ctx : Context) (reference otp : String) (db : Db) (t : Transaction)
    → Distinct transaction_key db.transactions
    → first (pending_with reference) db.transactions ≡ some t
    → Settles ctx otp t (find_parties t db) db (complete_transfer ctx reference otp db)
unfolding complete_transfer complete_pending
complete_transfer-Settles ctx reference otp db t d e =
    let h = find-first transaction_key (pending_with reference) db.transactions t d e in
    rw (e, complete_transfer)
      (elim (Option-cases (find_parties t db)) [
        | inl gone ↦ rw (gone, complete_pending) (missing_party ctx otp t db h)
        | inr (p, found) ↦ rw (found, complete_pending) (complete_checked ctx otp t p db h)
      ])
