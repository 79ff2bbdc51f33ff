-- ===== src/Tests/Users.antt =====
-- A user's accounts and next of kin: the theorems at the small bank.
use bank_fastapi.Prelude.{◌≡◌, refl, true, false, none, [], ◌∷◌, arith}
use bank_fastapi.Prelude.Int.{pos}
use bank_fastapi.Models.{AccountStatus, Currency}
use bank_fastapi.Core.{Db}
use bank_fastapi.Account.Number.{Settings}
use bank_fastapi.Account.Service.{AccountRequest, create_bank_account}
use bank_fastapi.Account.Limits.{AccountInv, create_bank_account-AccountInv}
use bank_fastapi.Kin.Service.{Patch, create_next_of_kin, update_next_of_kin, delete_next_of_kin}
use bank_fastapi.Kin.Limits.{
  KinInv, primary_count, create_next_of_kin-KinInv, update_next_of_kin-KinInv, Deletes,
  delete_next_of_kin-Deletes,
}
use bank_fastapi.Tests.Fixtures.{ctx, bank}

bank-KinInv : KinInv bank
bank-KinInv = record {
  few = λ u. ground arith;
  one_primary = λ u. ground arith;
  keys = ground arith;
}

bank-AccountInv : AccountInv bank
bank-AccountInv = record { few = λ u. ground arith; one_primary = λ u. ground arith }

create_next_of_kin-KinInv_example : KinInv (create_next_of_kin ctx 1 "cousin" false bank).1
create_next_of_kin-KinInv_example =
    create_next_of_kin-KinInv ctx 1 "cousin" false bank refl bank-KinInv

update_next_of_kin-KinInv_example :
    KinInv (update_next_of_kin 1 41 Patch.unset (Patch.set_to true) bank).1
update_next_of_kin-KinInv_example =
    update_next_of_kin-KinInv 1 41 Patch.unset (Patch.set_to true) bank bank-KinInv

delete_next_of_kin-Deletes_example : Deletes 1 bank (delete_next_of_kin 1 40 bank)
delete_next_of_kin-Deletes_example = delete_next_of_kin-Deletes 1 40 bank

-- Ann has a primary next of kin, and deletes it: none of hers is primary any more.
no_primary_left : primary_count 1 (delete_next_of_kin 1 40 bank).1 ≡ 0
unfolding delete_next_of_kin
no_primary_left = refl

-- An account that asks to be active and to hold a million.
abbrev request : AccountRequest
request = record {
  account_name = "savings";
  currency = Currency.eur;
  account_status = AccountStatus.active;
  balance = pos 100000000;
  is_primary = false;
  kyc_submitted = true;
  kyc_verified = true;
  kyc_verified_by = none;
}

abbrev pub settings : Settings
settings = record {
  bank_code = 1 ∷ 2 ∷ [];
  bank_branch_code = 3 ∷ 4 ∷ 5 ∷ [];
  currency_code = λ _. 0 ∷ 1 ∷ [];
}

abbrev opened : Db
opened = (create_bank_account ctx settings (λ i. 7) 1 request bank).1

create_bank_account-AccountInv_example : AccountInv opened
create_bank_account-AccountInv_example =
    create_bank_account-AccountInv ctx settings (λ i. 7) 1 request bank bank-AccountInv
