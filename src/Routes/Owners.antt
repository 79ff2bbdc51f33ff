-- ===== src/Routes/Owners.antt =====
-- What the services of the routes ask for before they change anything.
use bank_fastapi.Prelude.{
  ℕ, ◌≡◌, refl, ap, ◌⊎◌, inl, inr, Bool, true, Bool-cases, Option-cases, String, is_some, arith,
  ◌==◌, ◌&&◌,
}
use bank_fastapi.Prelude.Rows.{first}
use bank_fastapi.Models.{BankAccount}
use bank_fastapi.Core.{Context, Db, get_user}
use bank_fastapi.Account.Service.{
  AccountRequest, create_bank_account, activate_bank_account, verifiable_account,
}
use bank_fastapi.Account.Number.{Settings}
use bank_fastapi.Card.Service.{
  get_card, CardRequest, create_virtual_card, activate_virtual_card, delete_virtual_card,
  may_activate, owned_card,
}
use bank_fastapi.Kin.Service.{Patch, update_next_of_kin, delete_next_of_kin, get_user_next_of_kin}

pub create_bank_account-user :
    (ctx : Context) (settings : Settings) (digit_at : ℕ → ℕ) (user_id : ℕ) (r : AccountRequest)
    (db : Db)
    → ((create_bank_account ctx settings digit_at user_id r db).1 ≡ db)
      ⊎ (is_some (get_user user_id db) ≡ true)
unfolding create_bank_account
create_bank_account-user ctx settings digit_at user_id r db =
    elim (Option-cases (get_user user_id db)) [
      | inl e ↦ inl (rw (e) refl)
      | inr (u, e) ↦ inr (ap is_some e)
    ]

pub activate_bank_account-verifiable :
    (ctx : Context) (id user_id : ℕ) (db : Db)
    → ((activate_bank_account ctx id user_id db).1 ≡ db)
      ⊎ (is_some (verifiable_account id user_id db) ≡ true)
unfolding activate_bank_account
activate_bank_account-verifiable ctx id user_id db =
    elim (Option-cases (verifiable_account id user_id db)) [
      | inl e ↦ inl (rw (e) refl)
      | inr (a, e) ↦ inr (ap is_some e)
    ]

pub create_virtual_card-owned :
    (ctx : Context) (user_id id : ℕ) (r : CardRequest) (digit_at : ℕ → ℕ) (expiry : ℕ) (db : Db)
    → ((create_virtual_card ctx user_id id r digit_at expiry db).1 ≡ db)
      ⊎ (is_some (first (λ (a : BankAccount). (a.id == id) && (a.user_id == user_id)) db.accounts)
          ≡ true)
unfolding create_virtual_card
create_virtual_card-owned ctx user_id id r digit_at expiry db =
    elim (Option-cases
      (first (λ (a : BankAccount). (a.id == id) && (a.user_id == user_id)) db.accounts)) [
        | inl e ↦ inl (rw (e) refl)
        | inr (a, e) ↦ inr (ap is_some e)
      ]

pub activate_virtual_card-allowed :
    (ctx : Context) (id user_id : ℕ) (cvv_hash : String) (db : Db)
    → ((activate_virtual_card ctx id user_id cvv_hash db).1 ≡ db)
      ⊎ (may_activate (get_user user_id db) ≡ true)
unfolding activate_virtual_card
activate_virtual_card-allowed ctx id user_id cvv_hash db =
    elim (Bool-cases (may_activate (get_user user_id db))) [
      | inl e ↦ inr e
      | inr e ↦ elim (Option-cases (get_card id db)) [
        | inl c ↦ inl (rw (c) refl)
        | inr (card, c) ↦ inl (ground (arith, c, e))
      ]
    ]

pub delete_virtual_card-owned :
    (ctx : Context) (id user_id : ℕ) (db : Db)
    → ((delete_virtual_card ctx id user_id db).1 ≡ db) ⊎ (is_some (owned_card id user_id db) ≡ true)
unfolding delete_virtual_card
delete_virtual_card-owned ctx id user_id db = elim (Option-cases (owned_card id user_id db)) [
  | inl e ↦ inl (rw (e) refl)
  | inr (c, e) ↦ inr (ap is_some e)
]

pub update_next_of_kin-owned :
    (user_id id : ℕ) (name : Patch String) (primary : Patch Bool) (db : Db)
    → ((update_next_of_kin user_id id name primary db).1 ≡ db)
      ⊎ (is_some (get_user_next_of_kin user_id id db) ≡ true)
unfolding update_next_of_kin
update_next_of_kin-owned user_id id name primary db =
    elim (Option-cases (get_user_next_of_kin user_id id db)) [
      | inl e ↦ inl (rw (e) refl)
      | inr (k, e) ↦ inr (ap is_some e)
    ]

pub delete_next_of_kin-owned :
    (user_id id : ℕ) (db : Db)
    → ((delete_next_of_kin user_id id db).1 ≡ db)
      ⊎ (is_some (get_user_next_of_kin user_id id db) ≡ true)
unfolding delete_next_of_kin
delete_next_of_kin-owned user_id id db = elim (Option-cases (get_user_next_of_kin user_id id db)) [
  | inl e ↦ inl (ground (arith, e))
  | inr (k, e) ↦ inr (ap is_some e)
]
