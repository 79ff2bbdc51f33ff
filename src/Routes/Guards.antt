-- ===== src/Routes/Guards.antt =====
-- Who may send which request that changes tables.
use bank_fastapi.Prelude.{
  if◌then◌else◌, ℕ, ◌≡◌, refl, ◌∙◌, ap, sym, subst, ◌⊎◌, inl, inr, Bool, true, Bool-cases, Option,
  String, is_some, arith, ◌==◌, ==_iff, ◌&&◌,
}
use bank_fastapi.Prelude.Rows.{first}
use bank_fastapi.Models.{User, Role, BankAccount}
use bank_fastapi.Core.{Context, Db, Action, Result, ok, Result-cases, get_user}
use bank_fastapi.Auth.Tokens.{Jwt}
use bank_fastapi.Auth.Access.{get_current_user, require_role, role_index}
use bank_fastapi.Account.Service.{
  AccountRequest, create_bank_account, activate_bank_account, verifiable_account,
}
use bank_fastapi.Card.Service.{
  CardRequest, create_virtual_card, activate_virtual_card, delete_virtual_card, may_activate,
  owned_card,
}
use bank_fastapi.Kin.Service.{
  Patch, create_next_of_kin, update_next_of_kin, delete_next_of_kin, get_user_next_of_kin,
}
use bank_fastapi.Routes.Owners.{
  create_bank_account-user, activate_bank_account-verifiable, create_virtual_card-owned,
  activate_virtual_card-allowed, delete_virtual_card-owned, update_next_of_kin-owned,
  delete_next_of_kin-owned,
}
use bank_fastapi.Transaction.Review.{review_flagged_transaction}
use bank_fastapi.Routes.{
  deposit_as, Outside, guarded_by, create_deposit, review_transaction, activate_account,
  create_account, create_card, activate_card, delete_card, create_next_of_kin_route,
  update_next_of_kin_route, delete_next_of_kin_route,
}

abbrev role_at : ℕ → Role
role_at n =
    if n == 0
    then Role.customer
    else (if n == 1
        then Role.account_executive
        else (if n == 2
            then Role.branch_manager
            else (if n == 3
                then Role.admin
                else (if n == 4 then Role.super_admin else Role.teller))))

role_at-role_index : (r : Role) → role_at (role_index r) ≡ r
role_at-role_index Role.customer = refl
role_at-role_index Role.account_executive = refl
role_at-role_index Role.branch_manager = refl
role_at-role_index Role.admin = refl
role_at-role_index Role.super_admin = refl
role_at-role_index Role.teller = refl

same_role : (r s : Role) → (role_index r == role_index s) ≡ true → r ≡ s
same_role r s e =
    sym (role_at-role_index r)
    ∙ ap role_at ((==_iff (role_index r) (role_index s)).0 e)
    ∙ role_at-role_index s

-- Requests with a policy. Blocking and topping up a card, and the withdrawals and transfers, are not
-- among them: their routes ask for a login only, and the services for what the request names.
pub data Request : Type 0 where
  deposit : ℕ → ℕ → String → Request
  review : ℕ → Bool → Bool → Option String → Request
  open_account : AccountRequest → Request
  activate_account_of : ℕ → Request
  open_card : ℕ → CardRequest → Request
  activate_card_of : ℕ → Request
  remove_card : ℕ → Request
  add_kin_of : String → Bool → Request
  change_kin : ℕ → Patch String → Patch Bool → Request
  remove_kin : ℕ → Request

-- What the policy asks of the user who sends a request.
abbrev pub Allowed : User → Db → Request → Type 0
Allowed u db (Request.deposit amount account_id description) = u.role ≡ Role.teller
Allowed u db (Request.review id is_fraud approve notes) = u.role ≡ Role.account_executive
Allowed u db (Request.open_account r) = is_some (get_user u.id db) ≡ true
Allowed u db (Request.activate_account_of id) =
    (u.role ≡ Role.account_executive) × (is_some (verifiable_account id u.id db) ≡ true)
Allowed u db (Request.open_card id r) =
    is_some (first (λ (a : BankAccount). (a.id == id) && (a.user_id == u.id)) db.accounts) ≡ true
Allowed u db (Request.activate_card_of id) = may_activate (get_user u.id db) ≡ true
Allowed u db (Request.remove_card id) = is_some (owned_card id u.id db) ≡ true
Allowed u db (Request.add_kin_of name primary) = Unit
Allowed u db (Request.change_kin id name primary) = is_some (get_user_next_of_kin u.id id db) ≡ true
Allowed u db (Request.remove_kin id) = is_some (get_user_next_of_kin u.id id db) ≡ true

module _ {Token : Type 0} (jwt : Jwt Token) (ctx : Context) (out : Outside)
    (token : Option Token) where
  -- The tables after a request.
  abbrev pub after : Request → Db → Db
  after (Request.deposit amount account_id description) db =
      (create_deposit jwt ctx out token amount account_id description db).1
  after (Request.review id is_fraud approve notes) db =
      (review_transaction jwt ctx out token id is_fraud approve notes db).1
  after (Request.open_account r) db = (create_account jwt ctx out token r db).1
  after (Request.activate_account_of id) db = (activate_account jwt ctx out token id db).1
  after (Request.open_card id r) db = (create_card jwt ctx out token id r db).1
  after (Request.activate_card_of id) db = (activate_card jwt ctx out token id db).1
  after (Request.remove_card id) db = (delete_card jwt ctx out token id db).1
  after (Request.add_kin_of name primary) db =
      (create_next_of_kin_route jwt ctx out token name primary db).1
  after (Request.change_kin id name primary) db =
      (update_next_of_kin_route jwt ctx out token id name primary db).1
  after (Request.remove_kin id) db = (delete_next_of_kin_route jwt ctx out token id db).1

guarded_by-changes :
    {A : Type 0} (admit : Db → Result User) (f : User → Action A) (db : Db) (P : User → Type 0)
    → ((u : User) → admit db ≡ ok u → ((f u db).1 ≡ db) ⊎ P u)
    → ((guarded_by admit f db).1 ≡ db) ⊎ ((u : User) × (admit db ≡ ok u) × P u)
guarded_by-changes admit f db P service = elim (Result-cases (admit db)) [
  | inl (e, a) ↦ inl (rw (guarded_by, a) refl)
  | inr (u, a) ↦ elim (service u a) [
    | inl same ↦ inl (rw (guarded_by, a) same)
    | inr p ↦ inr (u, a, p)
  ]
]

require_role-admits :
    {Token : Type 0} (jwt : Jwt Token) (now : ℕ) (token : Option Token) (role : Role)
    (message : String) (db : Db) (u : User)
    → require_role jwt now token role message db ≡ ok u
    → (get_current_user jwt now token db ≡ ok u) × (u.role ≡ role)
unfolding require_role
require_role-admits jwt now token role message db u e =
    elim (Result-cases (get_current_user jwt now token db)) [
      | inl (error, c) ↦ ground (arith, c)
      | inr (v, c) ↦ elim (Bool-cases (role_index v.role == role_index role)) [
        | inl r ↦
            let same : v ≡ u = ground (arith, c, r) in
            (c ∙ ap ok same, subst (λ w. w.role ≡ role) same (same_role v.role role r))
        | inr r ↦ ground (arith, c, r)
      ]
    ]

guarded_by_role-changes :
    {Token A : Type 0} (jwt : Jwt Token) (now : ℕ) (token : Option Token) (role : Role)
    (message : String) (f : User → Action A) (db : Db) (P : User → Type 0)
    → ((u : User) → ((f u db).1 ≡ db) ⊎ P u)
    → ((guarded_by (require_role jwt now token role message) f db).1 ≡ db)
      ⊎ ((u : User) × (get_current_user jwt now token db ≡ ok u) × (u.role ≡ role) × P u)
guarded_by_role-changes jwt now token role message f db P service =
    elim (guarded_by-changes (require_role jwt now token role message) f db P (λ u a. service u)) [
      | inl same ↦ inl same
      | inr (u, a, p) ↦
          let (c, r) = require_role-admits jwt now token role message db u a in inr (u, c, r, p)
    ]

-- A request to deposit, to review, to open or activate an account or a card, to delete a card, or to
-- add, change or remove a next of kin leaves all tables as they were, or its token names a user whom
-- the guard admits and who is: a teller for a deposit; an account executive for a review; an
-- account executive, and not the owner, for the activation of an account; by the role in its row an
-- account executive for that of a card; the owner of the account for a new card, and of the card
-- or next of kin for a deletion or change; a user in the table for a new account.
pub after-Allowed :
    {Token : Type 0} (jwt : Jwt Token) (ctx : Context) (out : Outside) (token : Option Token)
    (r : Request) (db : Db)
    → (after jwt ctx out token r db ≡ db)
      ⊎ ((u : User) × (get_current_user jwt ctx.now token db ≡ ok u) × Allowed u db r)
unfolding create_deposit review_transaction activate_account create_account create_card
    activate_card delete_card create_next_of_kin_route update_next_of_kin_route
    delete_next_of_kin_route
after-Allowed jwt ctx out token (Request.deposit amount account_id description) db =
    elim (guarded_by_role-changes jwt ctx.now token Role.teller "Only tellers can process deposits"
      (deposit_as ctx amount account_id description) db (λ u. Unit) (λ u. inr tt)) [
        | inl same ↦ inl same
        | inr (u, a, r, p) ↦ inr (u, a, r)
      ]
after-Allowed jwt ctx out token (Request.review id is_fraud approve notes) db =
    elim (guarded_by_role-changes jwt ctx.now token Role.account_executive
      "Only account executives can review transactions"
      (λ u. review_flagged_transaction ctx id u.id is_fraud approve notes) db (λ u. Unit)
      (λ u. inr tt)) [ inl same ↦ inl same | inr (u, a, r, p) ↦ inr (u, a, r) ]
after-Allowed jwt ctx out token (Request.open_account r) db =
    guarded_by-changes (get_current_user jwt ctx.now token)
      (λ u. create_bank_account ctx out.settings out.digit_at u.id r) db
      (λ u. is_some (get_user u.id db) ≡ true)
      (λ u a. create_bank_account-user ctx out.settings out.digit_at u.id r db)
after-Allowed jwt ctx out token (Request.activate_account_of id) db =
    elim (guarded_by_role-changes jwt ctx.now token Role.account_executive
      "Only account executives can activate bank accounts" (λ u. activate_bank_account ctx id u.id)
      db (λ u. is_some (verifiable_account id u.id db) ≡ true)
      (λ u. activate_bank_account-verifiable ctx id u.id db)) [
        | inl same ↦ inl same
        | inr (u, a, r, p) ↦ inr (u, a, (r, p))
      ]
after-Allowed jwt ctx out token (Request.open_card id r) db =
    guarded_by-changes (get_current_user jwt ctx.now token)
      (λ u. create_virtual_card ctx u.id id r out.digit_at out.generated_expiry) db
      (λ u.
        is_some (first (λ (a : BankAccount). (a.id == id) && (a.user_id == u.id)) db.accounts)
        ≡ true)
      (λ u a. create_virtual_card-owned ctx u.id id r out.digit_at out.generated_expiry db)
after-Allowed jwt ctx out token (Request.activate_card_of id) db =
    guarded_by-changes (get_current_user jwt ctx.now token)
      (λ u. activate_virtual_card ctx id u.id out.cvv_hash) db
      (λ u. may_activate (get_user u.id db) ≡ true)
      (λ u a. activate_virtual_card-allowed ctx id u.id out.cvv_hash db)
after-Allowed jwt ctx out token (Request.remove_card id) db =
    guarded_by-changes (get_current_user jwt ctx.now token) (λ u. delete_virtual_card ctx id u.id)
      db (λ u. is_some (owned_card id u.id db) ≡ true)
      (λ u a. delete_virtual_card-owned ctx id u.id db)
after-Allowed jwt ctx out token (Request.add_kin_of name primary) db =
    guarded_by-changes (get_current_user jwt ctx.now token)
      (λ u. create_next_of_kin ctx u.id name primary) db (λ u. Unit) (λ u a. inr tt)
after-Allowed jwt ctx out token (Request.change_kin id name primary) db =
    guarded_by-changes (get_current_user jwt ctx.now token)
      (λ u. update_next_of_kin u.id id name primary) db
      (λ u. is_some (get_user_next_of_kin u.id id db) ≡ true)
      (λ u a. update_next_of_kin-owned u.id id name primary db)
after-Allowed jwt ctx out token (Request.remove_kin id) db =
    guarded_by-changes (get_current_user jwt ctx.now token) (λ u. delete_next_of_kin u.id id) db
      (λ u. is_some (get_user_next_of_kin u.id id db) ≡ true)
      (λ u a. delete_next_of_kin-owned u.id id db)
