-- ===== src/Transaction/Accounting/Races.antt =====
-- Calls that have read the same row before either of them has changed it: the second approval of a
-- flagged transaction, and the second completion of a transfer, since
-- `complete_transfer` does not read the transaction again under the locks.
use bank_fastapi.Prelude.{
  false, ℕ, ◌+◌, ◌≡◌, inl, inr, Option, some, String, arith, Option-cases, subst, Bool, true,
}
use bank_fastapi.Prelude.Int.{ltb_ℤ, ℤ, pos, ◌+ℤ◌, int_laws, parts_of_eq}
use bank_fastapi.Models.{is_active, BankAccount, Transaction, User, RiskScore}
use bank_fastapi.Core.{Db, Context, Result, ok, err, >>=-cases}
use bank_fastapi.Transaction.Failure.{mark_transaction_failed}
use bank_fastapi.Transaction.Funds.{total_balance, move_balances-total}
use bank_fastapi.Transaction.Transfer.Complete.{
  all_found, is_expired, Parties, locked_parties, converted_amount, check_transfer, apply_transfer,
  settle_transfer, system_failure, complete_locked,
}
use bank_fastapi.Transaction.Transfer.Outcome.{Clears, check_transfer-Clears, transferred}
use bank_fastapi.Transaction.Transfer.Parties.{locked_parties-rows}
use bank_fastapi.Transaction.Transfer.Progress.{passes, both_fit, applied}
use bank_fastapi.Transaction.Review.{decide_flagged}
use bank_fastapi.Transaction.Accounting.Reviews.{Moves, debit_of, credit_of, decide_flagged-Moves}

-- What a completion that returns does to the sum of the balances.
abbrev pub Pays : ℕ → ℤ → Db → Result ℕ × Db → Type 0
Pays amount m db (ok id, db') = total_balance db' +ℤ pos amount ≡ total_balance db +ℤ m
Pays amount m db (err e, db') = Unit {0}

apply_transfer-Pays :
    (ctx : Context) (t : Transaction) (p : Parties) (m : ℤ) (sender receiver : Option User)
    (db : Db)
    → locked_parties t sender receiver db ≡ some p
    → converted_amount t ≡ some m
    → Pays t.amount m db (apply_transfer ctx t p db)
unfolding apply_transfer settle_transfer system_failure
apply_transfer-Pays ctx t p m sender receiver db e h =
    let rows = locked_parties-rows t sender receiver db p e in
    rw (h, apply_transfer)
      (ground (
        arith,
        move_balances-total p.sender_account.id p.receiver_account.id t.amount m db p.sender_account
            p.receiver_account rows.0 rows.1,
      ))

complete_locked-Pays :
    (ctx : Context) (otp : String) (t : Transaction) (m : ℤ) (sender receiver : Option User)
    (db : Db)
    → converted_amount t ≡ some m
    → Pays t.amount m db (complete_locked ctx otp t (locked_parties t sender receiver db) db)
unfolding mark_transaction_failed
complete_locked-Pays ctx otp t m sender receiver db h =
    elim (Option-cases (locked_parties t sender receiver db)) [
      | inl gone ↦ rw gone tt
      | inr (p, e) ↦ rw e (
          >>=-cases (Pays t.amount m db) (check_transfer ctx otp t p) (λ _. apply_transfer ctx t p)
            db
            (λ a db' f.
              let c = subst (Clears ctx otp t p db) f (check_transfer-Clears ctx otp t p db) in
              rw (c.0) (apply_transfer-Pays ctx t p m sender receiver db e h))
            (λ x db' f. tt))
    ]

-- Two completions that have both read the same transaction and users before their locks: if both
-- return, the debit and the credit have both been made twice.
pub complete_locked-twice :
    (ctx later : Context) (otp : String) (t : Transaction) (m : ℤ) (sender receiver : Option User)
    (db db' db'' : Db) (id id' : ℕ)
    → converted_amount t ≡ some m
    → complete_locked ctx otp t (locked_parties t sender receiver db) db ≡ (ok id, db')
    → complete_locked later otp t (locked_parties t sender receiver db') db' ≡ (ok id', db'')
    → total_balance db'' +ℤ pos (t.amount + t.amount) ≡ total_balance db +ℤ (m +ℤ m)
complete_locked-twice ctx later otp t m sender receiver db db' db'' id id' h once again = omega (
  int_laws,
  parts_of_eq _ _
      (subst (Pays t.amount m db) once (complete_locked-Pays ctx otp t m sender receiver db h)),
  parts_of_eq _ _ (
      subst (Pays t.amount m db') again (complete_locked-Pays later otp t m sender receiver db' h)),
)

-- Two approvals of one flagged transaction that have both read it, with its risk score, before
-- either has changed it: if both return, the debit and the credit of the approval have both been
-- made twice.
pub decide_flagged-twice :
    (ctx later : Context) (reviewer second_reviewer : ℕ) (is_fraud is_fraud_too : Bool)
    (notes second_notes : Option String) (t : Transaction) (s : RiskScore) (db db' db'' : Db)
    → decide_flagged ctx reviewer is_fraud true notes t s db ≡ (ok tt, db')
    → decide_flagged later second_reviewer is_fraud_too true second_notes t s db' ≡ (ok tt, db'')
    → total_balance db'' +ℤ pos (debit_of true t + debit_of true t)
      ≡ total_balance db +ℤ (credit_of true t +ℤ credit_of true t)
decide_flagged-twice ctx later reviewer second_reviewer is_fraud is_fraud_too notes second_notes t s
      db db' db'' once again =
    omega (
      int_laws,
      parts_of_eq _ _ (
          subst (Moves (debit_of true t) (credit_of true t) db) once
            (decide_flagged-Moves ctx reviewer is_fraud true notes t s db)),
      parts_of_eq _ _ (
          subst (Moves (debit_of true t) (credit_of true t) db') again
            (decide_flagged-Moves later second_reviewer is_fraud_too true second_notes t s db')),
    )

-- The checks under the locks, as far as they concern what was read before the locks.
cleared-passes :
    (ctx later : Context) (otp : String) (t : Transaction) (q p : Parties) (db db' : Db)
    → check_transfer ctx otp t q db ≡ (ok tt, db')
    → q.sender ≡ p.sender
    → is_expired later.now p.sender.otp_expiry_time ≡ false
    → is_active p.sender_account.account_status ≡ true
    → is_active p.receiver_account.account_status ≡ true
    → ltb_ℤ p.sender_account.balance (pos t.amount) ≡ false
    → passes later otp t p ≡ true
unfolding check_transfer
cleared-passes ctx later otp t q p db db' c same soon sender receiver covers = ground (arith, c)

all_found-sender :
    (a b c d : Option BankAccount) (u v : Option User) (q p : Parties)
    → all_found a b u v ≡ some q
    → all_found c d u v ≡ some p
    → q.sender ≡ p.sender
all_found-sender a b c d u v q p e f = ground arith

-- Two completions of a transfer that have both read it and its users before their locks, the first
-- of which has returned: if the users and accounts are all found again, the OTP that was read is
-- still in time, both accounts are active, what the first has left covers the amount again, the
-- converted amount is stored and both balances fit their columns, then the second returns as well,
-- and the debit and the credit have both been made twice.
pub complete_locked-repeats :
    (ctx later : Context) (otp : String) (t : Transaction) (m : ℤ) (sender receiver : Option User)
    (db db' : Db) (id : ℕ) (p : Parties)
    → converted_amount t ≡ some m
    → complete_locked ctx otp t (locked_parties t sender receiver db) db ≡ (ok id, db')
    → locked_parties t sender receiver db' ≡ some p
    → is_expired later.now p.sender.otp_expiry_time ≡ false
    → is_active p.sender_account.account_status ≡ true
    → is_active p.receiver_account.account_status ≡ true
    → ltb_ℤ p.sender_account.balance (pos t.amount) ≡ false
    → both_fit later t p m db' ≡ true
    → (complete_locked later otp t (locked_parties t sender receiver db') db'
        ≡ (ok t.id, transferred later t p m db'))
      × (total_balance (transferred later t p m db') +ℤ pos (t.amount + t.amount)
          ≡ total_balance db +ℤ (m +ℤ m))
unfolding mark_transaction_failed
complete_locked-repeats ctx later otp t m sender receiver db db' id p h once e soon sends receives
      covers fits =
    let again : complete_locked later otp t (locked_parties t sender receiver db') db'
        ≡ (ok t.id, transferred later t p m db') =
      rw e (applied later otp t p m db' first-passes h fits) in
    (
      again,
      complete_locked-twice ctx later otp t m sender receiver db db' (transferred later t p m db')
          id t.id h once again,
    )
  where
    first-passes : passes later otp t p ≡ true
    first-passes = elim (Option-cases (locked_parties t sender receiver db)) [
      | inl gone ↦
          let raised = subst (λ o. complete_locked ctx otp t o db ≡ (ok id, db')) gone once in
          ground (arith, raised)
      | inr (q, f) ↦
          >>=-cases (λ x. x ≡ (ok id, db') → passes later otp t p ≡ true)
            (check_transfer ctx otp t q) (λ _. apply_transfer ctx t q) db
            (λ a mid c _.
              cleared-passes ctx later otp t q p db mid c
                (all_found-sender _ _ _ _ sender receiver q p f e) soon sends receives covers)
            (λ x mid c clash. ground arith)
            (subst (λ o. complete_locked ctx otp t o db ≡ (ok id, db')) f once)
    ]
