-- ===== src/Routes.antt =====
-- The routes under backend/app that change tables: the guard, the service, and what is stored of the
-- answer. E-mails are sent after the commits and their failures are caught. A request is read by
-- FastAPI into the arguments; `is_uuid4` is the parser behind `validate_idempotency_key`, and
-- `render` writes the body of an answer.
pub mod Owners
pub mod Guards
use bank_fastapi.Prelude.{ℕ, Bool, true, not, Option, none, some, String, str_eq}
use bank_fastapi.Prelude.Rows.{find}
use bank_fastapi.Models.{User, Role, BankAccount, BlockReason}
use bank_fastapi.Models.Metadata.{Fields}
use bank_fastapi.Core.{
  transaction_key, Context, Db, Action, pure, gets, raise_if, get_account, Error, Result, ok, err,
  ◌>>=◌, ◌>>◌,
}
use bank_fastapi.Auth.Tokens.{Jwt}
use bank_fastapi.Auth.Access.{get_current_user, require_role}
use bank_fastapi.Account.Number.{Settings}
use bank_fastapi.Account.Service.{AccountRequest, create_bank_account, activate_bank_account}
use bank_fastapi.Transaction.Deposit.{process_deposit}
use bank_fastapi.Transaction.Review.{review_flagged_transaction}
use bank_fastapi.Transaction.Withdrawal.{process_withdrawal}
use bank_fastapi.Transaction.Transfer.Initiate.{initiate_transfer}
use bank_fastapi.Transaction.Transfer.Complete.{complete_transfer}
use bank_fastapi.Transaction.Idempotency.{Reply, idempotent_call}
use bank_fastapi.Card.Service.{
  CardRequest, create_virtual_card, activate_virtual_card, block_virtual_card, delete_virtual_card,
}
use bank_fastapi.Card.TopUp.{top_up_virtual_card}
use bank_fastapi.Kin.Service.{Patch, create_next_of_kin, update_next_of_kin, delete_next_of_kin}

-- What a call takes from outside besides the context.
pub record Outside : Type 0 where
  pub settings : Settings
  pub digit_at : ℕ → ℕ
  pub generated_expiry : ℕ
  pub cvv_hash : String
  pub is_uuid4 : String → Bool
  pub render : ℕ → Db → Fields

-- A dependency of a route that returns the user, or whose exception ends the request.
abbrev pub guarded_by {ℓ} : {A : Type ℓ} → (Db → Result User) → (User → Action A) → Action A
guarded_by admit f db = elim (admit db) [ err e ↦ (err e, db) | ok user ↦ f user db ]

-- `if not account.account_number`
abbrev pub lacks_number : Option BankAccount → Bool
lacks_number none = true
lacks_number (some a) = elim a.account_number [ none ↦ true | some number ↦ str_eq number "" ]

-- The owner of a withdrawal, as `process_withdrawal` returns it with its row.
abbrev pub sender_of : ℕ → Db → ℕ
sender_of id db = elim (find transaction_key id db.transactions) [
  | none ↦ 0
  | some t ↦ elim t.sender_id [ none ↦ 0 | some user_id ↦ user_id ]
]

abbrev pub deposit_as : Context → ℕ → ℕ → String → User → Action ℕ
deposit_as ctx amount account_id description user = do
  id ← process_deposit ctx amount account_id user.id description
  account ← gets (get_account account_id)
  raise_if (lacks_number account) (Error.forbidden "Account number is required")
  pure id

module _ {Token : Type 0} (jwt : Jwt Token) (ctx : Context) (out : Outside)
    (token : Option Token) where
  -- `CurrentUser`
  abbrev pub current_user : Db → Result User
  current_user = get_current_user jwt ctx.now token

  abbrev pub of_role : Role → String → Db → Result User
  of_role = require_role jwt ctx.now token

  unfoldable pub create_deposit : ℕ → ℕ → String → Action ℕ
  create_deposit amount account_id description =
      guarded_by (of_role Role.teller "Only tellers can process deposits")
        (deposit_as ctx amount account_id description)

  unfoldable pub review_transaction : ℕ → Bool → Bool → Option String → Action (Unit {0})
  review_transaction id is_fraud approve notes =
      guarded_by (of_role Role.account_executive "Only account executives can review transactions")
        (λ user. review_flagged_transaction ctx id user.id is_fraud approve notes)

  unfoldable pub activate_account : ℕ → Action ℕ
  activate_account account_id =
      guarded_by
        (of_role Role.account_executive "Only account executives can activate bank accounts")
        (λ user. activate_bank_account ctx account_id user.id)

  unfoldable pub create_account : AccountRequest → Action ℕ
  create_account account_data =
      guarded_by current_user
        (λ user. create_bank_account ctx out.settings out.digit_at user.id account_data)

  -- A route with an idempotency key: the lookup is for the user, or for all (`none`).
  abbrev pub keyed_call : ℕ → String → String → Option ℕ → Action ℕ → (ℕ → Db → ℕ) → Action Reply
  keyed_call code key endpoint user_id operation owner_of = do
    raise_if (not (out.is_uuid4 key))
        (Error.validation_failed "Idempotency-Key must be a valid UUID v4")
    idempotent_call ctx code key endpoint user_id (do
      id ← operation
      owner ← gets (owner_of id)
      body ← gets (out.render id)
      pure (owner, body))

  unfoldable pub create_withdrawal : String → String → ℕ → String → String → Action Reply
  create_withdrawal key account_number amount username description =
      guarded_by current_user (λ user.
        keyed_call 201 key "/withdraw" none
          (process_withdrawal ctx account_number amount username description) sender_of)

  unfoldable pub initiate_money_transfer : String → ℕ → String → ℕ → String → String → Action Reply
  initiate_money_transfer key sender_account_id receiver_number amount description answer =
      guarded_by current_user (λ user.
        keyed_call 202 key "/transfer/initiate" (some user.id)
          (initiate_transfer ctx user.id sender_account_id receiver_number amount description
            answer)
          (λ id db. user.id))

  unfoldable pub complete_money_transfer : String → String → Action ℕ
  complete_money_transfer reference otp =
      guarded_by current_user (λ user. complete_transfer ctx reference otp)

  unfoldable pub create_card : ℕ → CardRequest → Action ℕ
  create_card bank_account_id card_data = guarded_by current_user (λ user.
      create_virtual_card ctx user.id bank_account_id card_data out.digit_at out.generated_expiry)

  unfoldable pub activate_card : ℕ → Action ℕ
  activate_card card_id =
      guarded_by current_user (λ user. activate_virtual_card ctx card_id user.id out.cvv_hash)

  unfoldable pub block_card : ℕ → BlockReason → String → Action ℕ
  block_card card_id reason description =
      guarded_by current_user (λ user. block_virtual_card ctx card_id reason description user.id)

  unfoldable pub top_up_card : String → ℕ → String → ℕ → String → String → Action Reply
  top_up_card key card_id account_number amount description last_four =
      guarded_by current_user (λ user.
        keyed_call 200 key "/virtual-card/top-up" (some user.id)
          (top_up_virtual_card ctx card_id account_number amount description last_four)
          (λ id db. user.id))

  unfoldable pub delete_card : ℕ → Action ℕ
  delete_card card_id = guarded_by current_user (λ user. delete_virtual_card ctx card_id user.id)

  unfoldable pub create_next_of_kin_route : String → Bool → Action ℕ
  create_next_of_kin_route full_name is_primary =
      guarded_by current_user (λ user. create_next_of_kin ctx user.id full_name is_primary)

  unfoldable pub update_next_of_kin_route : ℕ → Patch String → Patch Bool → Action ℕ
  update_next_of_kin_route id full_name is_primary =
      guarded_by current_user (λ user. update_next_of_kin user.id id full_name is_primary)

  unfoldable pub delete_next_of_kin_route : ℕ → Action ℕ
  delete_next_of_kin_route id = guarded_by current_user (λ user. delete_next_of_kin user.id id)
