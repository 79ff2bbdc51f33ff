-- ===== src/Transaction/Ledger/Refinement.antt =====
-- Every call of the money services is a step of the ledger.
use bank_fastapi.Prelude.{
  ℕ, ◌≡◌, refl, subst, sym, ap, ◌∙◌, inl, inr, false, Option, none, some, String, arith,
  Option-cases, Bool-cases,
}
use bank_fastapi.Prelude.Int.{pos, ◌+ℤ◌, ◌-ℤ◌, ◌≤ℤ◌, ltb_ℤ}
use bank_fastapi.Models.{BankAccount, Transaction, is_active}
use bank_fastapi.Core.{
  change, pure, ◌>>◌, update_account, Db, Context, Result, ok, err, get_account, get_user,
}
use bank_fastapi.Transaction.Deposit.{
  add_transaction-cases, deposit_row, set_balance, process_deposit,
}
use bank_fastapi.Transaction.Withdrawal.{settle_withdrawal, debit_account}
use bank_fastapi.Transaction.Failure.{mark_transaction_failed}
use bank_fastapi.Transaction.Transfer.Complete.{Parties, find_parties}
use bank_fastapi.Transaction.Transfer.Outcome.{Settles}
use bank_fastapi.Transaction.Transfer.Parties.{find_parties-rows}
use bank_fastapi.Transaction.Accounting.Withdrawals.{account_view-same}
use bank_fastapi.Transaction.Funds.{get_account_self}
use bank_fastapi.Transaction.Ledger.{LedgerStep, book}
use bank_fastapi.Transaction.Ledger.Postings.{
  deposit-book, debit-book, move_balances-book, row-Covers, same-book,
}

-- The call took the ledger from `db` to where it ended by one step.
abbrev pub Refines {ℓ} : {A : Type ℓ} → Db → Result A × Db → Type 0
Refines db x = LedgerStep (book db) (book x.1)

pub process_deposit-Refines :
    (ctx : Context) (amount id teller_id : ℕ) (description : String) (db : Db)
    → Refines db (process_deposit ctx amount id teller_id description db)
unfolding process_deposit
process_deposit-Refines ctx amount id teller_id description db =
    elim (Option-cases (get_account id db)) [
      | inl gone ↦ rw (process_deposit, gone) (LedgerStep.idle (λ j. refl))
      | inr (a, e) ↦ elim (Option-cases (get_user a.user_id db)) [
        | inl gone ↦ rw (process_deposit, e, gone, gone) (LedgerStep.idle (λ j. refl))
        | inr (u, f) ↦ elim (Bool-cases (is_active a.account_status)) [
          | inr off ↦ rw (process_deposit, e, f, f, off) (LedgerStep.idle (λ j. refl))
          | inl on ↦ elim (Bool-cases (ctx.fits (a.balance +ℤ pos amount))) [
            | inr full ↦ rw (process_deposit, e, f, f, on, full) (LedgerStep.idle (λ j. refl))
            | inl fits ↦
                let t = deposit_row ctx amount a u teller_id description (get_user teller_id db) in
                rw (process_deposit, e, f, f, on, fits)
                  (add_transaction-cases (Refines db) t
                    (change (update_account a.id (set_balance (a.balance +ℤ pos amount)))
                      >> pure ctx.new_id)
                    db (λ x. LedgerStep.idle (λ j. refl))
                    (λ free.
                      LedgerStep.receives a.id (pos amount)
                        (λ j. deposit-book a.id amount db a j (get_account_self id db a e))))
          ]
        ]
      ]
    ]

pub covered :
    (a : BankAccount) (amount : ℕ) → ltb_ℤ a.balance (pos amount) ≡ false → pos amount ≤ℤ a.balance
covered a amount h = ground arith

debit_account-Refines :
    (ctx : Context) (id amount : ℕ) (a : BankAccount) (db : Db)
    → get_account a.id db ≡ some a
    → Refines db (debit_account ctx id amount a db)
unfolding debit_account mark_transaction_failed
debit_account-Refines ctx id amount a db e = elim (Bool-cases (is_active a.account_status)) [
  | inr off ↦ rw (debit_account, off) (LedgerStep.idle (λ j. refl))
  | inl on ↦ elim (Bool-cases (ltb_ℤ a.balance (pos amount))) [
    | inl poor ↦ rw (debit_account, on, poor) (LedgerStep.idle (λ j. refl))
    | inr rich ↦ elim (Bool-cases (ctx.fits (a.balance -ℤ pos amount))) [
      | inr full ↦ rw (debit_account, on, rich, full) (LedgerStep.idle (λ j. refl))
      | inl fits ↦
          rw (debit_account, on, rich, fits)
            (LedgerStep.spends a.id amount (row-Covers a.id amount db a e (covered a amount rich))
              (λ j. debit-book a.id amount db a j e))
    ]
  ]
]

pub settle_withdrawal-Refines :
    (ctx : Context) (id amount : ℕ) (seen : BankAccount) (db : Db)
    → get_account seen.id db ≡ some seen
    → Refines db (settle_withdrawal ctx id amount seen db)
unfolding settle_withdrawal
settle_withdrawal-Refines ctx id amount seen db current =
    rw (settle_withdrawal, current)
      (subst (λ a. Refines db (debit_account ctx id amount a db)) (sym (account_view-same ctx seen))
        (debit_account-Refines ctx id amount seen db current))

pub Settles-Refines :
    (ctx : Context) (otp : String) (t : Transaction) (p : Option Parties) (db : Db)
    (x : Result ℕ × Db)
    → find_parties t db ≡ p
    → Settles ctx otp t p db x
    → Refines db x
Settles-Refines ctx otp t none db (ok id, db') e s = absurd s
Settles-Refines ctx otp t (some p) db (ok id, db') e s =
    let (m, read, final) = s.2 in
    let rows = find_parties-rows t db p e in
    let cover = row-Covers p.sender_account.id t.amount db p.sender_account rows.0 s.1.4 in
    LedgerStep.moves p.sender_account.id p.receiver_account.id t.amount m cover (λ j.
      ap (λ d. book d j) final
      ∙ move_balances-book p.sender_account.id p.receiver_account.id t.amount m db j)
Settles-Refines ctx otp t none db (err x, db') e s = same-book db db' s.0.0
Settles-Refines ctx otp t (some p) db (err x, db') e s = same-book db db' s.0.0
