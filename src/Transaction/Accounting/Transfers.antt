-- ===== src/Transaction/Accounting/Transfers.antt =====
-- `complete_transfer` and the sum of the balances; what `initiate_transfer` fixes for it.
use bank_fastapi.Prelude.{
  ℕ, ◌≡◌, inl, inr, true, none, some, String, arith, Option-cases, subst, ap,
}
use bank_fastapi.Prelude.Int.{ℤ, pos, ◌+ℤ◌}
use bank_fastapi.Prelude.Rows.{total, Distinct, first}
use bank_fastapi.Models.{Currency, Transaction, same_currency}
use bank_fastapi.Core.{account_key, Db, Context, Result, ok, err, get_account, transaction_key}
use bank_fastapi.Account.Conversion.{Conversion}
use bank_fastapi.Transaction.Funds.{balance_of, total_balance, move_balances-total}
use bank_fastapi.Transaction.Transfer.Plan.{Plan, plan_transfer, convert}
use bank_fastapi.Transaction.Transfer.Initiate.{planned_row}
use bank_fastapi.Transaction.Transfer.Complete.{
  Parties, find_parties, complete_transfer, converted_amount, pending_with,
}
use bank_fastapi.Transaction.Transfer.Outcome.{Settles, complete_transfer-Settles}
use bank_fastapi.Transaction.Transfer.Parties.{find_parties-rows}

-- The sum after a call, by how it ended.
abbrev pub Balances : Transaction → Db → Result ℕ × Db → Type 0
Balances t db (ok id, db') =
    (m : ℤ) × (converted_amount t ≡ some m)
    × (total_balance db' +ℤ pos t.amount ≡ total_balance db +ℤ m)
Balances t db (err e, db') = total_balance db' ≡ total_balance db

Settles-Balances :
    (ctx : Context) (otp : String) (t : Transaction) (db : Db) (r : Result ℕ × Db)
    → Settles ctx otp t (find_parties t db) db r
    → Balances t db r
Settles-Balances ctx otp t db r s = elim (Option-cases (find_parties t db)) [
  | inl gone ↦ no_parties r (subst (λ o. Settles ctx otp t o db r) gone s)
  | inr (p, e) ↦
      some_parties p (find_parties-rows t db p e) r (subst (λ o. Settles ctx otp t o db r) e s)
]
  where
    same : (db' : Db) → db'.accounts ≡ db.accounts → total_balance db' ≡ total_balance db
    same db' e = ap (total account_key balance_of) e

    no_parties : (r : Result ℕ × Db) → Settles ctx otp t none db r → Balances t db r
    no_parties (ok id, db') h = absurd h
    no_parties (err e, db') h = same db' h.0.0

    some_parties :
        (p : Parties)
        → (get_account p.sender_account.id db ≡ some p.sender_account)
          × (get_account p.receiver_account.id db ≡ some p.receiver_account)
        → (r : Result ℕ × Db) → Settles ctx otp t (some p) db r
        → Balances t db r
    some_parties p rows (err e, db') h = same db' h.0.0
    some_parties p rows (ok id, db') h =
        let (m, e, moved) = h.2 in
        (
          m,
          e,
          rw moved (
              move_balances-total p.sender_account.id p.receiver_account.id t.amount m db
                p.sender_account p.receiver_account rows.0 rows.1),
        )

-- Where the ids of the transactions are distinct, completing a pending transfer changes the sum of
-- all balances by exactly its converted amount less its amount; a call that raises leaves the sum
-- as it was.
pub complete_transfer-Balances :
    (ctx : Context) (reference otp : String) (db : Db) (t : Transaction)
    → Distinct transaction_key db.transactions
    → first (pending_with reference) db.transactions ≡ some t
    → Balances t db (complete_transfer ctx reference otp db)
complete_transfer-Balances ctx reference otp db t d e =
    Settles-Balances ctx otp t db (complete_transfer ctx reference otp db)
      (complete_transfer-Settles ctx reference otp db t d e)

convert_same :
    (amount : ℕ) (s r : Currency) (c : Conversion)
    → convert amount s r ≡ ok c
    → same_currency s r ≡ true
    → c.converted_amount ≡ amount
unfolding convert
convert_same amount s r c e same = ground arith

planned-conversion :
    (ctx : Context) (sender_id account_id : ℕ) (number : String) (amount : ℕ) (answer : String)
    (db : Db) (p : Plan)
    → plan_transfer ctx sender_id account_id number amount answer db ≡ ok p
    → convert amount p.sender_account.currency p.receiver_account.currency ≡ ok p.conversion
unfolding plan_transfer
planned-conversion ctx sender_id account_id number amount answer db p e = ground arith

-- A transfer planned between accounts of one currency is inserted with the amount itself as its
-- converted amount.
pub plan_transfer-converted_amount :
    (ctx : Context) (sender_id account_id : ℕ) (number : String) (amount : ℕ)
    (answer description : String) (db : Db) (p : Plan)
    → plan_transfer ctx sender_id account_id number amount answer db ≡ ok p
    → same_currency p.sender_account.currency p.receiver_account.currency ≡ true
    → converted_amount (planned_row ctx amount description p) ≡ some (pos amount)
plan_transfer-converted_amount ctx sender_id account_id number amount answer description db p e
      same =
    ap (λ (n : ℕ). some (pos n))
      (convert_same amount p.sender_account.currency p.receiver_account.currency p.conversion
        (planned-conversion ctx sender_id account_id number amount answer db p e) same)
