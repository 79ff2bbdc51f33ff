-- ===== src/Card/States.antt =====
-- The states of a card: what each operation demands of the card and how it leaves it.
use bank_fastapi.Prelude.{ℕ, ◌≡◌, refl, Bool, true, false, some, String, arith, not, ◌&&◌, is_some}
use bank_fastapi.Prelude.Int.{pos, ltb_ℤ}
use bank_fastapi.Prelude.Rows.{find-modify_self}
use bank_fastapi.Models.{VirtualCard, BlockReason, is_card_active, is_card_blocked}
use bank_fastapi.Core.{Db, Context, Result, ok, err, get_user, card_key}
use bank_fastapi.Card.Service.{
  get_card, owned_card, block_virtual_card, blocked_row, activate_virtual_card, activated_row,
  may_activate, delete_virtual_card, deleted_row,
}

-- An operation that goes through exactly under a condition on the card, and replaces its row.
abbrev pub Changes : ℕ → Bool → VirtualCard → Db → Result ℕ × Db → Type 0
Changes id allowed after db (ok k, db') = (allowed ≡ true) × (get_card id db' ≡ some after)
Changes id allowed after db (err e, db') = (allowed ≡ false) × (db' ≡ db)

-- A card is blocked exactly if it is not blocked yet, whatever its state; a refusal changes
-- nothing.
pub block_virtual_card-Changes :
    (ctx : Context) (id : ℕ) (reason : BlockReason) (description : String) (by : ℕ) (db : Db)
    (c : VirtualCard)
    → get_card id db ≡ some c
    → Changes id
        (not (is_card_blocked c.card_status))
        (blocked_row ctx reason description by c)
        db
        (block_virtual_card ctx id reason description by db)
unfolding block_virtual_card
block_virtual_card-Changes ctx id reason description by db c e =
    ground (
      arith,
      find-modify_self card_key id (blocked_row ctx reason description by) db.cards c e refl,
    )

-- A card is activated exactly by an account executive and if it is not active: a blocked and a
-- deleted card are activated like a pending one.
pub activate_virtual_card-Changes :
    (ctx : Context) (id by : ℕ) (cvv_hash : String) (db : Db) (c : VirtualCard)
    → get_card id db ≡ some c
    → Changes id
        (may_activate (get_user by db) && not (is_card_active c.card_status))
        (activated_row ctx by cvv_hash c)
        db
        (activate_virtual_card ctx id by cvv_hash db)
unfolding activate_virtual_card
activate_virtual_card-Changes ctx id by cvv_hash db c e =
    ground (arith, find-modify_self card_key id (activated_row ctx by cvv_hash) db.cards c e refl)

-- A user deletes exactly a card of an own account, without a request for a physical card and
-- without money on it.
pub delete_virtual_card-Changes :
    (ctx : Context) (id user_id : ℕ) (db : Db) (c : VirtualCard)
    → get_card id db ≡ some c
    → Changes id
        (is_some (owned_card id user_id db)
          && (not (is_some c.physical_card_requested_at)
              && not (ltb_ℤ (pos 0) c.available_balance)))
        (deleted_row ctx user_id c)
        db
        (delete_virtual_card ctx id user_id db)
unfolding delete_virtual_card
delete_virtual_card-Changes ctx id user_id db c e =
    ground (arith, find-modify_self card_key id (deleted_row ctx user_id) db.cards c e refl)
