-- ===== src/Ml/Scores.antt =====
-- The scores of the heuristic.
use bank_fastapi.Prelude.{◌≡◌, ◌≤◌, ltb, arith}
use bank_fastapi.Models.{Transaction}
use bank_fastapi.Transaction.Fraud.{needs_review_at}
use bank_fastapi.Ml.Inference.{fallback_score}

-- The heuristic's score is between 0.1 and 0.8, and a transaction is flagged for review by it
-- exactly if its amount is above 10,000: the hour of the day never decides.
pub fallback_score-decides :
    (t : Transaction)
    → (10 ≤ fallback_score t)
      × (fallback_score t ≤ 80)
      × (needs_review_at (fallback_score t) ≡ ltb 1000000 t.amount)
unfolding fallback_score
fallback_score-decides t = (ground arith, ground arith, ground arith)
