-- ===== src/Account/Service.antt =====
-- bank_account/service.py: opening and activating an account.
use bank_fastapi.Prelude.{
  ℕ, Bool, true, not, ◌&&◌, Option, none, some, [], ◌∷◌, ◌++◌, String, ◌==◌, leb, is_some,
  if◌then◌else◌,
}
use bank_fastapi.Prelude.Int.{ℤ}
use bank_fastapi.Prelude.Rows.{first, any_row, count_where}
use bank_fastapi.Models.{BankAccount, AccountStatus, Currency, is_active}
use bank_fastapi.Core.{
  Db, Context, Action, Error, Result, ◌>>=◌, ◌>>◌, pure, gets, or_raise, raise_if, change, get_user,
  get_account, update_account,
}
use bank_fastapi.Account.Number.{Settings, generate_account_number, number_text}

-- `settings.MAX_BANK_ACCOUNTS`
abbrev pub max_bank_accounts : ℕ
max_bank_accounts = 3

-- `BankAccountCreateSchema`, without the number, which the service drops.
pub record AccountRequest : Type 0 where
  pub account_name : String
  pub currency : Currency
  pub account_status : AccountStatus
  pub balance : ℤ
  pub is_primary : Bool
  pub kyc_submitted : Bool
  pub kyc_verified : Bool
  pub kyc_verified_by : Option ℕ

abbrev pub is_account_of : ℕ → BankAccount → Bool
is_account_of user_id a = a.user_id == user_id

abbrev pub is_primary_account_of : ℕ → BankAccount → Bool
is_primary_account_of user_id a = (a.user_id == user_id) && a.is_primary

abbrev pub account_count : ℕ → Db → ℕ
account_count user_id db = count_where (is_account_of user_id) db.accounts

-- The user has a profile and a next of kin.
abbrev pub validate_user_kyc : ℕ → Db → Bool
validate_user_kyc user_id db =
    is_some (first (λ p. p.user_id == user_id) db.profiles)
    && any_row (λ k. k.user_id == user_id) db.next_of_kins

abbrev pub account_row : Context → ℕ → AccountRequest → Bool → String → BankAccount
account_row ctx user_id request is_primary number = record {
  id = ctx.new_id;
  user_id = user_id;
  account_number = some number;
  account_name = request.account_name;
  currency = request.currency;
  account_status = request.account_status;
  balance = request.balance;
  is_primary = is_primary;
  kyc_submitted = request.kyc_submitted;
  kyc_verified = request.kyc_verified;
  kyc_verified_by = request.kyc_verified_by;
  kyc_verified_on = none;
}

abbrev pub add_account : BankAccount → Db → Db
add_account a db = record db { accounts = db.accounts ++ a ∷ [] }

abbrev pub from_result {ℓ} : {A : Type ℓ} → Result A → Action A
from_result r db = (r, db)

-- `elif len(existing_accounts) == 0: account_data.is_primary = True`
abbrev pub primary_flag : Bool → ℕ → Bool
primary_flag asked existing = if asked then true else existing == 0

unfoldable pub create_bank_account : Context → Settings → (ℕ → ℕ) → ℕ → AccountRequest → Action ℕ
create_bank_account ctx settings digit_at user_id request = do
  user ← or_raise (Error.not_found "User not found") (← gets (get_user user_id))
  verified ← gets (validate_user_kyc user_id)
  raise_if (not verified) (Error.validation_failed "KYC requirements not met")
  existing ← gets (account_count user_id)
  raise_if (leb max_bank_accounts existing)
      (Error.validation_failed "Maximum number of accounts reached")
  primary_exists ← gets (λ db. any_row (is_primary_account_of user_id) db.accounts)
  raise_if (request.is_primary && primary_exists)
      (Error.validation_failed "A primary account already exists")
  account_number ← from_result (generate_account_number settings digit_at request.currency)
  let is_primary = primary_flag request.is_primary existing
  change (add_account (account_row ctx user_id request is_primary (number_text account_number)))
  pure ctx.new_id

abbrev pub activated_account : Context → ℕ → BankAccount → BankAccount
activated_account ctx verified_by a = record a {
  kyc_submitted = true;
  kyc_verified = true;
  kyc_verified_on = some ctx.now;
  kyc_verified_by = some verified_by;
  account_status = AccountStatus.active;
}

-- `BankAccount.id == account_id, BankAccount.user_id != verified_by`; ids are a primary key.
abbrev pub verifiable_account : ℕ → ℕ → Db → Option BankAccount
verifiable_account id verified_by db = elim (get_account id db) [
  | none ↦ none
  | some a ↦ if a.user_id == verified_by then none else some a
]

unfoldable pub activate_bank_account : Context → ℕ → ℕ → Action ℕ
activate_bank_account ctx id verified_by = do
  account ←
      or_raise (Error.not_found "Bank account not found")
        (← gets (verifiable_account id verified_by))
  raise_if (is_active account.account_status)
      (Error.validation_failed "Account is already activated")
  change (update_account id (activated_account ctx verified_by))
  pure id
