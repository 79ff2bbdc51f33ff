-- ===== src/Tests/Cards.antt =====
-- Virtual cards: the theorems at the small bank.
use bank_fastapi.Card.TopUp.{top_up_virtual_card}
use bank_fastapi.Card.Funds.{TopsUp, top_up_virtual_card-TopsUp}
use bank_fastapi.Tests.Fixtures.{ctx, bank}

top_up_virtual_card-TopsUp_example :
    TopsUp 700 bank (top_up_virtual_card ctx 30 "A10" 700 "pocket" "4000" bank)
top_up_virtual_card-TopsUp_example =
    top_up_virtual_card-TopsUp ctx 30 "A10" 700 "pocket" "4000" bank
