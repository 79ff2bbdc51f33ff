-- ===== src/Tests/Transfers.antt =====
-- Transfers: the theorems at the small bank.
use bank_fastapi.Prelude.{◌+◌, ◌≡◌, refl, some, [], ◌∷◌, arith}
use bank_fastapi.Prelude.Int.{pos, ◌+ℤ◌, ◌-ℤ◌}
use bank_fastapi.Core.{ok, Db, get_account}
use bank_fastapi.Transaction.Locks.{fetch_locked, lock_accounts}
use bank_fastapi.Transaction.Locks.Waiting.{Waiting, WaitsFor, WaitsFor-acyclic}
use bank_fastapi.Transaction.Invariant.{Inv}
use bank_fastapi.Transaction.Schedule.{Reach, here, next, deposits, completes, Reach-Inv}
use bank_fastapi.Transaction.Deposit.{process_deposit}
use bank_fastapi.Transaction.Funds.{total_balance}
use bank_fastapi.Transaction.Transfer.Plan.{Plan, plan_transfer}
use bank_fastapi.Transaction.Transfer.Initiate.{initiate_transfer}
use bank_fastapi.Transaction.Transfer.Initiated.{Initiates, initiate_transfer-Initiates}
use bank_fastapi.Transaction.Transfer.Complete.{
  Parties, find_parties, locked_parties, complete_locked, complete_transfer, check_transfer,
  apply_transfer, settle_transfer,
}
use bank_fastapi.Transaction.Transfer.Outcome.{transferred, Settles, complete_transfer-Settles}
use bank_fastapi.Transaction.Accounting.Transfers.{Balances, complete_transfer-Balances}
use bank_fastapi.Transaction.Accounting.Races.{complete_locked-repeats}
use bank_fastapi.Tests.Fixtures.{ctx, ann, bob, ann_account, bob_account, pending, bank}

abbrev one_completed : Db
one_completed =
    (complete_locked ctx "123456" pending (locked_parties pending (some ann) (some bob) bank)
      bank).1

abbrev two_completed : Db
two_completed =
    (complete_locked ctx "123456" pending
      (locked_parties pending (some ann) (some bob) one_completed) one_completed).1

-- Ann's balance after one completion, and after two of the same transfer.
ann_pays_twice :
    (get_account 10 one_completed ≡ some (record ann_account { balance = pos 9000 }))
    × (get_account 10 two_completed ≡ some (record ann_account { balance = pos 8000 }))
unfolding fetch_locked lock_accounts check_transfer apply_transfer settle_transfer ◌-ℤ◌
ann_pays_twice = (refl, refl)

-- The parties of the second completion.
abbrev again : Parties
again = record {
  sender_account = record ann_account { balance = pos 9000 };
  receiver_account = record bob_account { balance = pos 6000 };
  sender = ann;
  receiver = bob;
}

complete_locked-repeats_example :
    (complete_locked ctx "123456" pending
        (locked_parties pending (some ann) (some bob) one_completed)
        one_completed
      ≡ (ok 100, transferred ctx pending again (pos 1000) one_completed))
    × (total_balance (transferred ctx pending again (pos 1000) one_completed) +ℤ pos (1000 + 1000)
        ≡ total_balance bank +ℤ (pos 1000 +ℤ pos 1000))
unfolding fetch_locked lock_accounts check_transfer apply_transfer settle_transfer ◌-ℤ◌ ◌+ℤ◌
complete_locked-repeats_example =
    complete_locked-repeats ctx ctx "123456" pending (pos 1000) (some ann) (some bob) bank
      one_completed 100 again refl refl refl refl refl refl refl refl

bank-Inv : Inv bank
bank-Inv = record { solvent = ground arith; credits = ground arith; keys = ground arith }

-- Bob gets a deposit, then Ann's transfer completes.
bank_day :
    Reach bank
      (complete_locked ctx "123456" pending
        (locked_parties pending (some ann) (some bob) (process_deposit ctx 500 20 3 "cash" bank).1)
        (process_deposit ctx 500 20 3 "cash" bank).1).1
bank_day =
    next (next here (deposits ctx 500 20 3 "cash" (ground arith)))
      (completes ctx "123456" pending (some ann) (some bob) (ground arith))

Reach-Inv_example :
    Inv
      (complete_locked ctx "123456" pending
        (locked_parties pending (some ann) (some bob) (process_deposit ctx 500 20 3 "cash" bank).1)
        (process_deposit ctx 500 20 3 "cash" bank).1).1
Reach-Inv_example = Reach-Inv bank_day bank-Inv

complete_transfer-Settles_example :
    Settles ctx "123456" pending
      (find_parties pending bank)
      bank
      (complete_transfer ctx "TRF1" "123456" bank)
complete_transfer-Settles_example =
    complete_transfer-Settles ctx "TRF1" "123456" bank pending bank-Inv.keys refl

complete_transfer-Balances_example :
    Balances pending bank (complete_transfer ctx "TRF1" "123456" bank)
complete_transfer-Balances_example =
    complete_transfer-Balances ctx "TRF1" "123456" bank pending bank-Inv.keys refl

-- The plan of a transfer of 3 from Ann to Bob.
abbrev plan : Plan
plan = record {
  sender_account = ann_account;
  sender = ann;
  receiver_account = bob_account;
  receiver = bob;
  conversion = record { converted_amount = 3; exchange_rate = 10000; conversion_fee = 0 };
}

initiate_transfer-Initiates_example :
    Initiates ctx 3 "tea"
      (plan_transfer ctx 1 10 "B20" 3 "blue" bank)
      bank
      (initiate_transfer ctx 1 10 "B20" 3 "tea" "blue" bank)
initiate_transfer-Initiates_example = initiate_transfer-Initiates ctx 1 10 "B20" 3 "tea" "blue" bank

-- A request that has locked account 10 and waits for account 20.
abbrev waiting : Waiting
unfolding lock_accounts fetch_locked
waiting = record {
  ids = 20 ∷ 10 ∷ [];
  tables = bank;
  held = 10 ∷ [];
  wanted = 20;
  rest = [];
  asked = refl;
  missing = refl;
}

WaitsFor-acyclic_example : ¬ WaitsFor waiting waiting
WaitsFor-acyclic_example = WaitsFor-acyclic waiting
