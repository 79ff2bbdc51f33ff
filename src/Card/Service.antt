-- ===== src/Card/Service.antt =====
-- virtual_card/service.py: creation, blocking, activation and deletion of cards. The join with the
-- account and its owner is total: both foreign keys are not null.
use bank_fastapi.Prelude.{
  ℕ, Bool, true, false, not, ◌&&◌, Option, none, some, [], ◌∷◌, ◌++◌, String, ◌==◌, is_some,
  if◌then◌else◌,
}
use bank_fastapi.Prelude.Int.{pos, ltb_ℤ}
use bank_fastapi.Prelude.Rows.{find, first}
use bank_fastapi.Models.{
  User, VirtualCard, CardStatus, BlockReason, Currency, is_active, is_card_active, is_card_blocked,
  is_executive, same_currency,
}
use bank_fastapi.Models.Metadata.{Value, Fields, end, field, merge, or_empty}
use bank_fastapi.Core.{
  Db, Context, Action, Error, ◌>>=◌, ◌>>◌, pure, gets, or_raise, raise_if, change, card_key,
  get_user, get_account, update_card, mutate_in_place,
}
use bank_fastapi.Account.Number.{number_text}
use bank_fastapi.Card.Number.{generate_visa_card_number}

abbrev pub get_card : ℕ → Db → Option VirtualCard
get_card id db = find card_key id db.cards

-- The fields of `card_data` that the service keeps, as far as the table models them.
pub record CardRequest : Type 0 where
  pub currency : Currency
  pub expiry_date : Option ℕ
  pub block_reason : Option BlockReason
  pub block_reason_description : Option String

abbrev pub add_card : VirtualCard → Db → Db
add_card c db = record db { cards = db.cards ++ c ∷ [] }

-- `expiry_date` is the given date or the generated one. The column `blocked_at` has a default on
-- the server, which a new row takes.
abbrev pub card_row : Context → ℕ → ℕ → CardRequest → String → ℕ → VirtualCard
card_row ctx user_id account_id request number generated_expiry = record {
  id = ctx.new_id;
  bank_account_id = account_id;
  card_number = some number;
  currency = request.currency;
  card_status = CardStatus.pending;
  is_active = true;
  available_balance = pos 0;
  total_topped_up = pos 0;
  last_top_up_date = some ctx.now;
  block_reason = request.block_reason;
  block_reason_description = request.block_reason_description;
  blocked_by = none;
  blocked_at = some ctx.now;
  cvv_hash = none;
  expiry_date = elim request.expiry_date [ none ↦ some generated_expiry | some d ↦ some d ];
  physical_card_requested_at = none;
  card_metadata =
      some
        (field "created_by" (Value.number user_id) (field "created_at" (Value.time ctx.now) end));
}

-- `digit_at` gives the random digits, and `generated_expiry` is the generated expiry date.
unfoldable pub create_virtual_card : Context → ℕ → ℕ → CardRequest → (ℕ → ℕ) → ℕ → Action ℕ
create_virtual_card ctx user_id account_id request digit_at generated_expiry = do
  account ←
      or_raise (Error.not_found "Bank account not found or does not belong to the user")
        (← gets (λ db. first (λ a. (a.id == account_id) && (a.user_id == user_id)) db.accounts))
  raise_if (not (is_active account.account_status))
      (Error.account_not_active "Bank account is not active")
  raise_if (not (same_currency request.currency account.currency))
      (Error.validation_failed "Card currency must match the bank account currency")
  let number = number_text (generate_visa_card_number digit_at)
  change (add_card (card_row ctx user_id account_id request number generated_expiry))
  pure ctx.new_id

abbrev pub block_value : BlockReason → String
block_value BlockReason.lost = "lost"
block_value BlockReason.stolen = "stolen"
block_value BlockReason.suspicious_activity = "suspicious_activity"
block_value BlockReason.customer_request = "customer_request"

-- `if not metadata: metadata = {}`, then `metadata.update(fields)`
abbrev pub updated_metadata : Context → Fields → Option Fields → Option Fields
updated_metadata ctx fields old = mutate_in_place ctx old (merge (or_empty old) fields)

abbrev pub blocked_row : Context → BlockReason → String → ℕ → VirtualCard → VirtualCard
blocked_row ctx reason description blocked_by c = record c {
  card_status = CardStatus.blocked;
  block_reason = some reason;
  block_reason_description = some description;
  blocked_by = some blocked_by;
  blocked_at = some ctx.now;
  card_metadata =
      updated_metadata ctx
        (field "blocked_at" (Value.time ctx.now) (
          field "blocked_by" (Value.number blocked_by)
            (field "block_reason" (Value.text (block_value reason)) end)))
        c.card_metadata;
}

unfoldable pub block_virtual_card : Context → ℕ → BlockReason → String → ℕ → Action ℕ
block_virtual_card ctx id reason description blocked_by = do
  card ← or_raise (Error.not_found "Virtual card not found") (← gets (get_card id))
  raise_if (is_card_blocked card.card_status) (Error.validation_failed "Card is already blocked")
  change (update_card id (blocked_row ctx reason description blocked_by))
  pure id

abbrev pub activated_row : Context → ℕ → String → VirtualCard → VirtualCard
activated_row ctx activated_by cvv_hash c = record c {
  card_status = CardStatus.active;
  cvv_hash = some cvv_hash;
  card_metadata =
      updated_metadata ctx
        (field "activated_by" (Value.number activated_by)
          (field "activated_at" (Value.time ctx.now) end))
        c.card_metadata;
}

-- `not executive or executive.role != ACCOUNT_EXECUTIVE`
abbrev pub may_activate : Option User → Bool
may_activate none = false
may_activate (some u) = is_executive u.role

-- `cvv_hash` is Argon2's hash of the new CVV.
unfoldable pub activate_virtual_card : Context → ℕ → ℕ → String → Action ℕ
activate_virtual_card ctx id activated_by cvv_hash = do
  card ← or_raise (Error.not_found "Virtual card not found") (← gets (get_card id))
  executive ← gets (get_user activated_by)
  raise_if (not (may_activate executive))
      (Error.forbidden "Only account executives can activate virtual cards")
  raise_if (is_card_active card.card_status) (Error.validation_failed "Card is already active")
  change (update_card id (activated_row ctx activated_by cvv_hash))
  pure id

abbrev pub status_value : CardStatus → String
status_value CardStatus.active = "active"
status_value CardStatus.inactive = "inactive"
status_value CardStatus.pending = "pending"
status_value CardStatus.blocked = "blocked"
status_value CardStatus.expired = "expired"

abbrev pub deleted_row : Context → ℕ → VirtualCard → VirtualCard
deleted_row ctx user_id c = record c {
  card_status = CardStatus.inactive;
  is_active = false;
  card_metadata = some (
      merge (or_empty c.card_metadata) (
        field "deleted_at" (Value.time ctx.now) (
          field "deletion_reason" (Value.text "user_requested") (
            field "deleted_by" (Value.number user_id) (
              field "card_status_before_deletion" (Value.text (status_value c.card_status))
                (field "deletion_timestamp" (Value.time ctx.now) end))))));
}

-- The card's account is the user's.
abbrev pub owned_card : ℕ → ℕ → Db → Option VirtualCard
owned_card id user_id db = elim (get_card id db) [
  | none ↦ none
  | some c ↦ elim (get_account c.bank_account_id db) [
    | none ↦ none
    | some a ↦ if a.user_id == user_id then some c else none
  ]
]

unfoldable pub delete_virtual_card : Context → ℕ → ℕ → Action ℕ
delete_virtual_card ctx id user_id = do
  card ←
      or_raise (Error.not_found "Virtual card not found or does not belong to the user")
        (← gets (owned_card id user_id))
  raise_if (is_some card.physical_card_requested_at)
      (Error.validation_failed "Cannot delete card with physical card request")
  raise_if (ltb_ℤ (pos 0) card.available_balance)
      (Error.validation_failed "Cannot delete card with remaining balance")
  change (update_card id (deleted_row ctx user_id))
  pure id
