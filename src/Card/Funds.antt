-- ===== src/Card/Funds.antt =====
-- `top_up_virtual_card` and the money on accounts and cards.
use bank_fastapi.Prelude.{ℕ, ◌≡◌, refl, inl, inr, some, String, arith, ◌==◌}
use bank_fastapi.Prelude.Int.{ℤ, pos, ◌+ℤ◌, int_laws, parts_of_eq}
use bank_fastapi.Prelude.Rows.{total, total-modify, find-modify_self, first-holds}
use bank_fastapi.Models.{BankAccount, VirtualCard}
use bank_fastapi.Core.{
  Db, Context, Result, Result-cases, ok, err, get_account, card_key, update_card,
}
use bank_fastapi.Transaction.Funds.{total_balance, get_account_self}
use bank_fastapi.Transaction.Accounting.Withdrawals.{debit-total}
use bank_fastapi.Transaction.Deposit.{add_transaction}
use bank_fastapi.Card.Service.{get_card}
use bank_fastapi.Card.TopUp.{
  find_top_up, fund_card, settle_top_up, topped_up_row, top_up_virtual_card,
}

abbrev pub available_of : VirtualCard → ℤ
available_of c = c.available_balance

-- The sum of the money on all cards.
abbrev pub total_available : Db → ℤ
total_available db = total card_key available_of db.cards

-- What a top-up does: it moves the amount from the accounts to the cards, or nothing changes.
abbrev pub TopsUp : ℕ → Db → Result ℕ × Db → Type 0
TopsUp amount db (ok id, db') =
    (total_balance db' +ℤ pos amount ≡ total_balance db)
    × (total_available db' ≡ total_available db +ℤ pos amount)
TopsUp amount db (err e, db') = db' ≡ db

get_card-key : (id : ℕ) (db : Db) (c : VirtualCard) → get_card id db ≡ some c → c.id ≡ id
get_card-key id db c e = ground (arith, first-holds (λ (r : VirtualCard). r.id == id) db.cards c e)

get_card_self :
    (id : ℕ) (db : Db) (c : VirtualCard) → get_card id db ≡ some c → get_card c.id db ≡ some c
get_card_self id db c e = ground (arith, get_card-key id db c e)

-- The rows that a top-up reads.
find_top_up-rows :
    (id : ℕ) (number : String) (db : Db) (card : VirtualCard) (account : BankAccount)
    → find_top_up id number db ≡ ok (card, account)
    → (get_card id db ≡ some card) × (get_account card.bank_account_id db ≡ some account)
unfolding find_top_up
find_top_up-rows id number db card account e = ground arith

fund-available :
    (ctx : Context) (amount : ℕ) (db : Db) (card : VirtualCard)
    → get_card card.id db ≡ some card
    → total_available (update_card card.id (topped_up_row ctx amount card) db)
      ≡ total_available db +ℤ pos amount
fund-available ctx amount db card e = omega (
  int_laws,
  parts_of_eq _ _
      (total-modify card_key available_of card.id (topped_up_row ctx amount card) db.cards card e),
)

settle_top_up-TopsUp :
    (ctx : Context) (amount : ℕ) (description last_four : String) (card : VirtualCard)
    (account : BankAccount) (db : Db)
    → get_card card.id db ≡ some card
    → get_account account.id db ≡ some account
    → TopsUp amount db (settle_top_up ctx amount description last_four card account db)
unfolding settle_top_up fund_card add_transaction
settle_top_up-TopsUp ctx amount description last_four card account db ec ea =
    rw (ea, settle_top_up)
      (ground
        (arith, fund-available ctx amount db card ec, debit-total amount db account.id account ea))

-- A top-up that no other commit interrupts moves exactly the amount from the bank accounts to the
-- cards, or raises and changes nothing.
pub top_up_virtual_card-TopsUp :
    (ctx : Context) (id : ℕ) (number : String) (amount : ℕ) (description last_four : String)
    (db : Db)
    → TopsUp amount db (top_up_virtual_card ctx id number amount description last_four db)
unfolding top_up_virtual_card
top_up_virtual_card-TopsUp ctx id number amount description last_four db =
    elim (Result-cases (find_top_up id number db)) [
      | inl (e, refused) ↦ rw (refused, top_up_virtual_card) refl
      | inr (found, h) ↦
          let rows = find_top_up-rows id number db found.0 found.1 h in
          rw (h, top_up_virtual_card)
            (settle_top_up-TopsUp ctx amount description last_four found.0 found.1 db
              (get_card_self id db found.0 rows.0)
              (get_account_self found.0.bank_account_id db found.1 rows.1))
    ]

-- With a copy of the card that was read before the lock: a top-up that returns leaves the card with
-- the balance of that copy and the amount, whatever another top-up has added to the row since.
pub settle_top_up-stale :
    (ctx : Context) (amount : ℕ) (description last_four : String) (card row : VirtualCard)
    (account : BankAccount) (db db' : Db) (id : ℕ)
    → get_card card.id db ≡ some row
    → settle_top_up ctx amount description last_four card account db ≡ (ok id, db')
    → get_card card.id db' ≡ some (topped_up_row ctx amount card row)
unfolding settle_top_up fund_card add_transaction
settle_top_up-stale ctx amount description last_four card row account db db' id e h =
    ground
      (arith, find-modify_self card_key card.id (topped_up_row ctx amount card) db.cards row e refl)
