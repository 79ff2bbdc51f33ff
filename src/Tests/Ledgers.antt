-- ===== src/Tests/Ledgers.antt =====
-- The ledger, a transfer from its initiation to its completion, and the expiry of a card at
-- concrete inputs.
use bank_fastapi.Prelude.{◌*◌, ◌≤◌, ◌≡◌, refl, arith}
use bank_fastapi.Prelude.Int.{pos}
use bank_fastapi.Core.{ok}
use bank_fastapi.Card.Expiry.{
  Date, add_days, days_in_month, generate_card_expiry_date, generate_card_expiry_date-IsMonthEnd,
}
use bank_fastapi.Transaction.Transfer.Plan.{convert, Plan, plan_transfer}
use bank_fastapi.Transaction.Transfer.Initiate.{initiate_transfer}
use bank_fastapi.Transaction.Transfer.Complete.{complete_transfer}
use bank_fastapi.Transaction.Transfer.Outcome.{transferred}
use bank_fastapi.Transaction.Transfer.Completable.{
  initiated, initiated_row, initiated_parties, initiate_transfer-completes,
}
use bank_fastapi.Tests.Fixtures.{ctx, bank, ann, bob, ann_account, bob_account}

-- Ann sends Bob five dollars.
abbrev five : Plan
five = record {
  sender_account = ann_account;
  sender = ann;
  receiver_account = bob_account;
  receiver = bob;
  conversion = record { converted_amount = 500; exchange_rate = 10000; conversion_fee = 0 };
}

five-planned : plan_transfer ctx 1 10 "B20" 500 "blue" bank ≡ ok five
unfolding plan_transfer convert
five-planned = refl

initiate_transfer-completes_example :
    (initiate_transfer ctx 1 10 "B20" 500 "rent" "blue" bank
      ≡ (ok 77, initiated ctx 10 500 "rent" five bank))
    × (complete_transfer
          (record ctx { now = 1200 })
          "TRFCAFE0001"
          "123456"
          (initiated ctx 10 500 "rent" five bank)
        ≡ (
          ok 77,
          transferred
              (record ctx { now = 1200 })
              (initiated_row ctx 10 500 "rent" five)
              (initiated_parties ctx five)
              (pos 500)
              (initiated ctx 10 500 "rent" five bank),
        ))
initiate_transfer-completes_example =
    initiate_transfer-completes ctx (record ctx { now = 1200 }) 1 10 "B20" 500 "rent" "blue" bank
      five 10 (refl, (refl, tt)) refl five-planned refl refl refl refl refl

abbrev new_year : Date
new_year = record { year = 2025; month = 1; day = 30 }

generate_card_expiry_date-IsMonthEnd_example :
    let later = add_days (365 * 3) new_year in
    (generate_card_expiry_date new_year
      ≡ record later { day = days_in_month later.year later.month })
    × (later.day ≤ days_in_month later.year later.month)
generate_card_expiry_date-IsMonthEnd_example =
    generate_card_expiry_date-IsMonthEnd new_year
      (omega arith, omega arith, omega arith, omega arith)
