-- ===== src/Tests/Reviews.antt =====
-- Fraud reviews: the theorems at the small bank.
use bank_fastapi.Prelude.{◌≡◌, ◌+◌, refl, true, false, none, some}
use bank_fastapi.Models.{Transaction, TransactionStatus, AiReviewStatus}
use bank_fastapi.Core.{ok, Context, get_transaction, Db}
use bank_fastapi.Transaction.Locks.{fetch_locked, lock_accounts}
use bank_fastapi.Transaction.Review.{
  review_flagged_transaction, decide_flagged, run_approval, complete_approved_transfer,
  approve_funds, settle_approved_transfer,
}
use bank_fastapi.Transaction.Accounting.Reviews.{
  Moves, debit_of, credit_of, review_flagged_transaction-Moves,
}
use bank_fastapi.Transaction.Decisions.{
  Decides, review_flagged_transaction-Decides, review_flagged_transaction-fraud,
}
use bank_fastapi.Prelude.Int.{pos, ◌+ℤ◌, ◌-ℤ◌}
use bank_fastapi.Transaction.Funds.{total_balance}
use bank_fastapi.Transaction.Accounting.Repeats.{decide_flagged-repeats}
use bank_fastapi.Tests.Fixtures.{ann, bob, ann_account, bob_account, ctx, flagged, score, bank}

review_flagged_transaction-Moves_example :
    Moves
      (debit_of true flagged)
      (credit_of true flagged)
      bank
      (review_flagged_transaction ctx 101 3 false true (some "known payee") bank)
review_flagged_transaction-Moves_example =
    review_flagged_transaction-Moves ctx 101 3 false true (some "known payee") bank flagged refl

review_flagged_transaction-Decides_example :
    Decides ctx 3 true false none flagged
      (review_flagged_transaction ctx 101 3 true false none bank)
review_flagged_transaction-Decides_example =
    review_flagged_transaction-Decides ctx 3 true false none bank flagged refl

-- Changes inside a dict are not tracked.
abbrev untracked : Context
untracked = record ctx { tracks_mutation = false }

review_flagged_transaction-fraud_example :
    (r : Transaction) × (get_transaction 101
        (review_flagged_transaction ctx 101 3 true true none bank).1
      ≡ some r)
    × (r.ai_review_status ≡ some AiReviewStatus.confirmed_fraud)
    × (r.status ≡ TransactionStatus.completed)
unfolding review_flagged_transaction decide_flagged run_approval complete_approved_transfer
    approve_funds settle_approved_transfer fetch_locked lock_accounts
review_flagged_transaction-fraud_example =
    review_flagged_transaction-fraud ctx 3 none bank
      (review_flagged_transaction ctx 101 3 true true none bank).1 flagged refl refl refl

abbrev approved : Db
approved = (decide_flagged ctx 3 false true none flagged score bank).1

decide_flagged-repeats_example :
    (db'' : Db) × (decide_flagged ctx 4 false true none flagged score approved ≡ (ok tt, db''))
    × (total_balance db'' +ℤ pos (1000 + 1000) ≡ total_balance bank +ℤ (pos 1000 +ℤ pos 1000))
unfolding decide_flagged run_approval complete_approved_transfer approve_funds
    settle_approved_transfer fetch_locked lock_accounts ◌-ℤ◌ ◌+ℤ◌
decide_flagged-repeats_example =
    decide_flagged-repeats ctx ctx 3 4 false false none none flagged score bank approved (pos 1000)
      ann bob (record ann_account { balance = pos 9000 })
      (record bob_account { balance = pos 6000 }) refl refl refl refl refl refl refl refl refl
