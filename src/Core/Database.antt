-- ===== src/Core/Database.antt =====
-- The committed tables, and a service call as an action on them. What was committed stays
-- committed when a call raises; what was not is rolled back by `get_session`.
use bank_fastapi.Prelude.{◌≡◌, refl, ℕ, Bool, true, false, Option, none, some, List}
use bank_fastapi.Prelude.Rows.{find, modify}
use bank_fastapi.Models.{
  User, BankAccount, Transaction, RiskScore, VirtualCard, NextOfKin, Profile, IdempotencyKey,
}
use bank_fastapi.Core.Exceptions.{Error, Result, ok, err}

pub record Db : Type 0 where
  pub users : List User
  pub accounts : List BankAccount
  pub transactions : List Transaction
  pub risk_scores : List RiskScore
  pub cards : List VirtualCard
  pub next_of_kins : List NextOfKin
  pub profiles : List Profile
  pub idempotency_keys : List IdempotencyKey

abbrev pub user_key : User → ℕ
user_key u = u.id

abbrev pub account_key : BankAccount → ℕ
account_key a = a.id

abbrev pub transaction_key : Transaction → ℕ
transaction_key t = t.id

abbrev pub card_key : VirtualCard → ℕ
card_key c = c.id

abbrev pub kin_key : NextOfKin → ℕ
kin_key k = k.id

abbrev pub profile_key : Profile → ℕ
profile_key p = p.id

abbrev pub score_key : RiskScore → ℕ
score_key s = s.id

abbrev pub Action {ℓ} : Type ℓ → Type ℓ
Action A = Db → Result A × Db

infixl 5 ◌>>=◌ ◌>>◌
abbrev pub ◌>>=◌ {ℓ κ} : {A : Type ℓ} {B : Type κ} → Action A → (A → Action B) → Action B
◌>>=◌ m f db = let (r, db') = m db in elim r [ ok a ↦ f a db' | err e ↦ (err e, db') ]

abbrev pub ◌>>◌ {ℓ κ} : {A : Type ℓ} {B : Type κ} → Action A → Action B → Action B
m >> k = m >>= λ _. k

module _ {ℓ} {A : Type ℓ} where
  abbrev pub pure : A → Action A
  pure a db = (ok a, db)

  abbrev pub raise : Error → Action A
  raise e db = (err e, db)

  abbrev pub gets : (Db → A) → Action A
  gets f db = (ok (f db), db)

  -- `if x is None: raise e`
  abbrev pub or_raise : Error → Option A → Action A
  or_raise e none = raise e
  or_raise e (some a) = pure a

-- How a sequence ends: by the first action's exception, or as the second ends.
pub >>=-cases {ℓ κ μ} :
    {A : Type ℓ} {B : Type κ} (P : Result B × Db → Type μ) (m : Action A) (k : A → Action B)
    (db : Db)
    → ((a : A) (db' : Db) → m db ≡ (ok a, db') → P (k a db'))
    → ((e : Error) (db' : Db) → m db ≡ (err e, db') → P (err e, db'))
    → P ((m >>= k) db)
>>=-cases {A} {B} P m k db good bad = split (m db) refl
  where
    split :
        (r : Result A × Db)
        → m db ≡ r
        → P (let (x, db') = r in elim x [ ok a ↦ k a db' | err e ↦ (err e, db') ])
    split (ok a, db') e = good a db' e
    split (err x, db') e = bad x db' e

abbrev pub raise_if : Bool → Error → Action (Unit {0})
raise_if true e = raise e
raise_if false e = pure tt

abbrev pub change : (Db → Db) → Action (Unit {0})
change f db = (ok tt, f db)

abbrev pub update_account : ℕ → (BankAccount → BankAccount) → Db → Db
update_account k f db = record db { accounts = modify account_key k f db.accounts }

abbrev pub update_user : ℕ → (User → User) → Db → Db
update_user k f db = record db { users = modify user_key k f db.users }

abbrev pub update_transaction : ℕ → (Transaction → Transaction) → Db → Db
update_transaction k f db = record db { transactions = modify transaction_key k f db.transactions }

abbrev pub update_card : ℕ → (VirtualCard → VirtualCard) → Db → Db
update_card k f db = record db { cards = modify card_key k f db.cards }

abbrev pub update_profile : ℕ → (Profile → Profile) → Db → Db
update_profile k f db = record db { profiles = modify profile_key k f db.profiles }

abbrev pub get_user : ℕ → Db → Option User
get_user k db = find user_key k db.users

-- `session.get(User, id)` at a nullable column
abbrev pub get_user? : Option ℕ → Db → Option User
get_user? none db = none
get_user? (some k) db = get_user k db

abbrev pub get_account : ℕ → Db → Option BankAccount
get_account k db = find account_key k db.accounts

abbrev pub get_account? : Option ℕ → Db → Option BankAccount
get_account? none db = none
get_account? (some k) db = get_account k db

abbrev pub get_transaction : ℕ → Db → Option Transaction
get_transaction k db = find transaction_key k db.transactions
