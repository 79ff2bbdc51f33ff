-- ===== src/Transaction/Fraud.antt =====
-- core/ai/service.py: `TransactionAIService`, with `update_transaction_risk` of
-- core/ml/deployment.py. A risk score is in hundredths. Inference itself is `ctx.predict`; the risk
-- factors and the description of the model, which are only stored and shown, are left out.
use bank_fastapi.Prelude.{
  String, ℕ, Bool, true, false, Option, none, some, [], ◌∷◌, ◌++◌, leb, if◌then◌else◌,
}
use bank_fastapi.Models.{Transaction, RiskScore, AiReviewStatus, FailureReason}
use bank_fastapi.Models.Metadata.{Value, Fields, end, field, set_field}
use bank_fastapi.Core.{Context, Action, Error, ok, ◌>>◌, pure, raise, change, update_transaction}
use bank_fastapi.Transaction.Failure.{mark_transaction_failed}

-- `ai_settings.RISK_SCORE_THRESHOLD` and `FALLBACK_RISK_SCORE`: 0.7 and 0.8.
abbrev pub risk_score_threshold : ℕ
risk_score_threshold = 70

abbrev pub fallback_risk_score : ℕ
fallback_risk_score = 80

pub record Analysis : Type 0 where
  pub risk_score : ℕ
  pub needs_review : Bool
  pub is_fallback : Bool

abbrev pub needs_review_at : ℕ → Bool
needs_review_at score = leb risk_score_threshold score

abbrev pub risk_assessment : Context → ℕ → Value
risk_assessment ctx score = Value.dict (
    field "score" (Value.number score) (
      field "threshold" (Value.number risk_score_threshold) (
        field "is_high_risk" (Value.flag (needs_review_at score))
          (field "assessed_at" (Value.time ctx.now) end))))

-- `if metadata is None: metadata = {}`, then a change inside the dict.
abbrev pub assess_metadata : Context → ℕ → Option Fields → Option Fields
assess_metadata ctx score none = some (field "risk_assessment" (risk_assessment ctx score) end)
assess_metadata ctx score (some d) =
    if ctx.tracks_mutation
    then some (set_field "risk_assessment" (risk_assessment ctx score) d)
    else some d

abbrev pub review_status_at : ℕ → AiReviewStatus
review_status_at score =
    if needs_review_at score then AiReviewStatus.flagged else AiReviewStatus.cleared

abbrev pub assessed_row : Context → ℕ → Transaction → Transaction
assessed_row ctx score t = record t {
  transaction_metadata = assess_metadata ctx score t.transaction_metadata;
  ai_review_status = some (review_status_at score);
}

abbrev pub score_row : Context → ℕ → ℕ → RiskScore
score_row ctx id score = record {
  id = ctx.new_id;
  transaction_id = id;
  risk_score = score;
  reviewed_by = none;
  is_confirmed_fraud = none;
}

-- `_fallback_analysis`: the answer when inference raises or its circuit is open.
abbrev pub fallback_analysis : Analysis
fallback_analysis = record {
  risk_score = fallback_risk_score;
  needs_review = needs_review_at fallback_risk_score;
  is_fallback = true;
}

unfoldable pub analyze_transaction : Context → Transaction → Action Analysis
analyze_transaction ctx t db = elim (ctx.predict t) [
  | none ↦ pure fallback_analysis db
  | some score ↦
      pure
        (record { risk_score = score; needs_review = needs_review_at score; is_fallback = false })
        (update_transaction t.id (assessed_row ctx score)
          (record db { risk_scores = db.risk_scores ++ score_row ctx t.id score ∷ [] }))
]

abbrev pub flagged_row : Transaction → Transaction
flagged_row t = record t { ai_review_status = some AiReviewStatus.flagged }

abbrev pub flag_details : Analysis → Fields
flag_details analysis = field "risk_score" (Value.number analysis.risk_score) end

abbrev pub flag_message : String
flag_message =
    "This transaction has been flagged as potentially fraudulent. An account executive will review the transaction, before its either approved or rejected"

unfoldable pub handle_flagged_transaction : Context → ℕ → Analysis → Action (Unit {0})
handle_flagged_transaction ctx id analysis = do
  mark_transaction_failed ctx id FailureReason.suspicious_activity (flag_details analysis)
      flag_message
  change (update_transaction id flagged_row)

-- `if needs_review: handle_flagged_transaction(...); raise FlaggedTransactionError`
abbrev pub flag_if : Context → ℕ → Analysis → Action (Unit {0})
flag_if ctx id analysis db = elim analysis.needs_review [
  | true ↦
      (handle_flagged_transaction ctx id analysis >> raise (Error.flagged_transaction flag_message))
        db
  | false ↦ (ok tt, db)
]
