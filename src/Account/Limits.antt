-- ===== src/Account/Limits.antt =====
-- The limits on a user's accounts, and who may activate one.
use bank_fastapi.Prelude.{
  [], ◌∷◌, ℕ, ◌≤◌, ◌≡◌, refl, inl, inr, Bool, true, false, none, some, String, arith, not, ◌&&◌,
  ◌==◌,
}
use bank_fastapi.Prelude.Rows.{count_where, find-modify_self, first-append}
use bank_fastapi.Prelude.Rows.Counts.{count-none, count_mono, count-add}
use bank_fastapi.Models.{BankAccount, is_active}
use bank_fastapi.Core.{Db, Context, Result, Result-cases, ok, err, account_key, get_account}
use bank_fastapi.Account.Number.{Settings, generate_account_number, number_text}
use bank_fastapi.Account.Service.{
  AccountRequest, is_account_of, is_primary_account_of, account_count, account_row, primary_flag,
  create_bank_account, activated_account, activate_bank_account,
}

abbrev pub primary_accounts : ℕ → Db → ℕ
primary_accounts user_id db = count_where (is_primary_account_of user_id) db.accounts

-- No user has more than three accounts, or more than one primary account.
pub record AccountInv (db : Db) : Type 0 where
  pub few : (user_id : ℕ) → account_count user_id db ≤ 3
  pub one_primary : (user_id : ℕ) → primary_accounts user_id db ≤ 1

primary_account : (user_id : ℕ) (db : Db) → primary_accounts user_id db ≤ account_count user_id db
primary_account user_id db =
    count_mono (is_primary_account_of user_id) (is_account_of user_id) db.accounts
      (λ k h. ground arith)

-- Opening an account keeps the limits, whether it returns or raises.
pub create_bank_account-AccountInv :
    (ctx : Context) (settings : Settings) (digit_at : ℕ → ℕ) (user_id : ℕ)
    (request : AccountRequest) (db : Db)
    → AccountInv db
    → AccountInv (create_bank_account ctx settings digit_at user_id request db).1
unfolding create_bank_account
create_bank_account-AccountInv ctx settings digit_at user_id request db v =
    elim (Result-cases (generate_account_number settings digit_at request.currency)) [
      | inl (e, failed) ↦ record {
        few = λ u. ground (arith, v.few u);
        one_primary = λ u. ground (arith, v.one_primary u);
      }
      | inr (number, made) ↦
          let rows = db.accounts in
          let a =
            account_row ctx user_id request
              (primary_flag request.is_primary (account_count user_id db)) (number_text number) in
          record {
            few = λ u. ground (arith, v.few u, v.few user_id, count-add (is_account_of u) rows a);
            one_primary = λ u. ground (
              arith,
              v.one_primary u,
              primary_account user_id db,
              count-none (is_primary_account_of user_id) rows,
              count-add (is_primary_account_of u) rows a,
            );
          }
    ]

-- An account that is opened under an unused id has the status, the balance and the verification
-- that the request asks for, and a user's first account is primary.
pub create_bank_account-row :
    (ctx : Context) (settings : Settings) (digit_at : ℕ → ℕ) (user_id id : ℕ)
    (request : AccountRequest) (db db' : Db)
    → get_account ctx.new_id db ≡ none
    → create_bank_account ctx settings digit_at user_id request db ≡ (ok id, db')
    → (number : String) × (get_account id db'
        ≡ some (
            account_row ctx user_id request
              (primary_flag request.is_primary (account_count user_id db))
              number))
unfolding create_bank_account
create_bank_account-row ctx settings digit_at user_id id request db db' fresh h =
    elim (Result-cases (generate_account_number settings digit_at request.currency)) [
      | inl (e, failed) ↦ ground arith
      | inr (number, made) ↦
          let a =
            account_row ctx user_id request
              (primary_flag request.is_primary (account_count user_id db)) (number_text number) in
          (
            number_text number,
            ground (
              arith,
              first-append (λ (r : BankAccount). account_key r == ctx.new_id) db.accounts (a ∷ []),
            ),
          )
    ]

-- What an activation does at an account: it goes through exactly under a condition.
abbrev pub Activates : ℕ → Bool → BankAccount → Db → Result ℕ × Db → Type 0
Activates id allowed after db (ok k, db') = (allowed ≡ true) × (get_account id db' ≡ some after)
Activates id allowed after db (err e, db') = (allowed ≡ false) × (db' ≡ db)

-- An account is activated exactly by someone else than its owner and if it is not active, whatever
-- other state it is in; a refusal changes nothing.
pub activate_bank_account-Activates :
    (ctx : Context) (id verified_by : ℕ) (db : Db) (a : BankAccount)
    → get_account id db ≡ some a
    → Activates id
        (not (a.user_id == verified_by) && not (is_active a.account_status))
        (activated_account ctx verified_by a)
        db
        (activate_bank_account ctx id verified_by db)
unfolding activate_bank_account
activate_bank_account-Activates ctx id verified_by db a e = ground (
  arith,
  find-modify_self account_key id (activated_account ctx verified_by) db.accounts a e refl,
)
