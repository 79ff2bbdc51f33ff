-- ===== src/Transaction/Preservation/Deposits.antt =====
-- `process_deposit` and the invariant.
use bank_fastapi.Prelude.{ℕ, ◌≡◌, refl, inl, inr, Option, none, some, String, arith, Option-cases}
use bank_fastapi.Prelude.Int.{pos, ◌+ℤ◌, ◌≤ℤ◌, int_laws}
use bank_fastapi.Models.{User, BankAccount}
use bank_fastapi.Core.{Db, Context, get_account, get_user, get_transaction, update_account}
use bank_fastapi.Transaction.Deposit.{
  add_transaction, process_deposit, deposit_row, with_transaction, set_balance, currency_value,
  text_or_null, teller_fields,
}
use bank_fastapi.Transaction.Invariant.{Inv, IsCredit, accounts-Inv, with_transaction-Inv}
use bank_fastapi.Models.Metadata.{Value, field, get_field}
use bank_fastapi.Transaction.Funds.{solvent_row, get_account_self, set_balance-IsSolvent}
use bank_fastapi.Transaction.Transfer.Complete.{decimal_of}

-- The two writes of a deposit.
abbrev deposited : Context → ℕ → BankAccount → User → ℕ → String → Db → Db
deposited ctx amount a owner teller_id description db =
    update_account a.id (set_balance (a.balance +ℤ pos amount)) (
      with_transaction
        (deposit_row ctx amount a owner teller_id description (get_user teller_id db)) db)

no-IsCredit :
    (a : BankAccount) (teller : Option User)
    → IsCredit (
        decimal_of (
          get_field "converted_amount" (
            field "currency"
              (Value.text (currency_value a.currency))
              (field "account_number" (text_or_null a.account_number) (teller_fields teller)))))
no-IsCredit a none = tt
no-IsCredit a (some u) = tt

deposited-Inv :
    (ctx : Context) (amount teller_id id : ℕ) (description : String) (db : Db) (a : BankAccount)
    (owner : User)
    → get_account id db ≡ some a
    → get_transaction ctx.new_id db ≡ none
    → Inv db
    → Inv (deposited ctx amount a owner teller_id description db)
deposited-Inv ctx amount teller_id id description db a owner e fresh v =
    let t = deposit_row ctx amount a owner teller_id description (get_user teller_id db) in
    let added = with_transaction t db in
    let w : Inv added = with_transaction-Inv t db (no-IsCredit a (get_user teller_id db)) fresh v in
    let old : pos 0 ≤ℤ a.balance = solvent_row id db a v.solvent e in
    accounts-Inv added _
      (set_balance-IsSolvent a.id (a.balance +ℤ pos amount) added a w.solvent
        (get_account_self id db a e) (omega int_laws))
      refl w

-- A deposit keeps the invariant, whether it returns or raises.
pub process_deposit-Inv :
    (ctx : Context) (amount account_id teller_id : ℕ) (description : String) (db : Db)
    → get_transaction ctx.new_id db ≡ none
    → Inv db
    → Inv (process_deposit ctx amount account_id teller_id description db).1
unfolding process_deposit add_transaction
process_deposit-Inv ctx amount account_id teller_id description db fresh v =
    elim (Option-cases (get_account account_id db)) [
      | inl gone ↦ rw (gone, process_deposit) v
      | inr (a, e) ↦ elim (Option-cases (get_user a.user_id db)) [
        | inl gone ↦ ground arith
        | inr (u, f) ↦
            ground
              (arith, deposited-Inv ctx amount teller_id account_id description db a u e fresh v)
      ]
    ]
