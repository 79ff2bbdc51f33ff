-- ===== src/Tests/Histories.antt =====
-- Histories and statements at the small bank, with an ORDER BY that sorts by insertion.
use bank_fastapi.Prelude.{ℕ, true, none, List, [], ◌∷◌, leb, if◌then◌else◌}
use bank_fastapi.Prelude.Int.{pos}
use bank_fastapi.Models.{Transaction, TransactionType, TransactionStatus}
use bank_fastapi.Core.{Db}
use bank_fastapi.Transaction.Statement.{statement_row, Queued}
use bank_fastapi.Tests.Fixtures.{bank, transaction}

abbrev place : Transaction → List Transaction → List Transaction
place t [] = t ∷ []
place t (u ∷ us) = if leb u.created_at t.created_at then t ∷ (u ∷ us) else u ∷ place t us

-- ORDER BY created_at DESC
abbrev latest_first : List Transaction → List Transaction
latest_first [] = []
latest_first (t ∷ ts) = place t (latest_first ts)

abbrev paid : ℕ → Transaction
paid id = transaction id TransactionType.transfer TransactionStatus.completed none

abbrev paid_bank : Db
paid_bank = record bank {
  transactions =
      paid 100
      ∷ paid 101
      ∷ transaction 102 TransactionType.transfer TransactionStatus.failed none
      ∷ [];
}

abbrev bob_statement : Queued
bob_statement = record {
  statement = record {
    username = "bob";
    email = "bob";
    first_name = "bob";
    last_name = "bob";
    accounts =
        record {
          account_number = "B20";
          account_name = "current";
          currency = "USD";
          balance = pos 5000;
        }
        ∷ [];
    transactions = statement_row paid_bank (paid 101) ∷ statement_row paid_bank (paid 100) ∷ [];
    start_on = 0;
    end_on = 0;
    is_single_account = true;
  };
  statement_id = 77;
  task_id = 9;
}
