-- ===== src/Tests/Requests.antt =====
-- Requests at the small bank, each with the token of the user who sends it.
use bank_fastapi.Prelude.{ℕ, ◌≡◌, ◌⊎◌, refl, true, false, Option, none, some}
use bank_fastapi.Models.{User, BlockReason}
use bank_fastapi.Models.Metadata.{end}
use bank_fastapi.Core.{Error, ok, err}
use bank_fastapi.Auth.Tokens.{Key, Payload, create_access_token}
use bank_fastapi.Auth.Access.{get_current_user, require_role}
use bank_fastapi.Card.Service.{block_virtual_card}
use bank_fastapi.Routes.{Outside, create_deposit, block_card}
use bank_fastapi.Routes.Guards.{Request, Allowed, after, after-Allowed}
use bank_fastapi.Tests.Fixtures.{ctx, bank}
use bank_fastapi.Tests.Accounts.{tokens, lives}
use bank_fastapi.Tests.Users.{settings}

abbrev out : Outside
out = record {
  settings = settings;
  digit_at = λ n. 0;
  generated_expiry = 5000;
  cvv_hash = "hashed";
  is_uuid4 = λ key. true;
  render = λ id db. end;
}

abbrev token_of : ℕ → Option (Key × Payload)
token_of id = some (create_access_token tokens lives 900 id)

-- Eve, an executive, reviews a flagged transfer.
after-Allowed_example :
    (after tokens ctx out (token_of 3) (Request.review 101 false true none) bank ≡ bank)
    ⊎ ((u : User) × (get_current_user tokens ctx.now (token_of 3) bank ≡ ok u)
        × Allowed u bank (Request.review 101 false true none))
after-Allowed_example =
    after-Allowed tokens ctx out (token_of 3) (Request.review 101 false true none) bank

customer_may_not_deposit :
    create_deposit tokens ctx out (token_of 2) 500 10 "cash" bank
    ≡ (err (Error.forbidden "Only tellers can process deposits"), bank)
unfolding create_deposit require_role get_current_user
customer_may_not_deposit = refl

-- Bob blocks a card of Ann's.
anyone_blocks :
    (block_card tokens ctx out (token_of 2) 30 BlockReason.lost "mine now" bank).0 ≡ ok 30
unfolding block_card block_virtual_card get_current_user
anyone_blocks = refl
