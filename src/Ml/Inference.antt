-- ===== src/Ml/Inference.antt =====
-- core/ml/deployment.py: `ModelInference`. A score is in hundredths. `infer` is the extraction of the
-- features with the loaded model, `none` if either raises; the cache of loaded models and what is
-- logged to MLflow are left out.
use bank_fastapi.Prelude.{
  ℕ, ◌+◌, ◌/◌, ◌%◌, Bool, not, ◌||◌, Option, none, some, List, [], ◌∷◌, ◌++◌, ltb, leb,
  if◌then◌else◌,
}
use bank_fastapi.Models.{Transaction}
use bank_fastapi.Ml.Deployment.{MlModel, get_deployed_model, is_given}

pub record ModelPrediction : Type 0 where
  pub transaction_id : ℕ
  pub model_id : ℕ
  pub prediction_score : ℕ

-- The probability, and the model that it is from: `none` for the heuristic.
pub record Prediction : Type 0 where
  pub fraud_probability : ℕ
  pub model_id : Option ℕ

abbrev pub amount_score : ℕ → ℕ
amount_score amount =
    if ltb 1000000 amount
    then 70
    else (if ltb 500000 amount then 50 else (if ltb 100000 amount then 30 else 10))

abbrev pub hour_of : ℕ → ℕ
hour_of time = time / 3600 % 24

abbrev pub is_late_night : ℕ → Bool
is_late_night hour = ltb hour 6 || ltb 22 hour

abbrev pub min_score : ℕ → ℕ → ℕ
min_score a b = if leb a b then a else b

abbrev pub late_score : ℕ → ℕ → ℕ
late_score hour score = if is_late_night hour then score + 10 else score

-- `_fallback_prediction`
unfoldable pub fallback_score : Transaction → ℕ
fallback_score t = min_score 90 (late_score (hour_of t.created_at) (amount_score t.amount))

abbrev pub fallback_prediction : Transaction → Prediction
fallback_prediction t = record { fraud_probability = fallback_score t; model_id = none }

-- `saves` tells whether the row of the prediction is committed; if not, the outer `except` answers
-- with the heuristic too.
unfoldable pub predict_fraud :
    (MlModel → Transaction → Option ℕ)
    → Bool
    → Transaction
    → List MlModel
    → List ModelPrediction
    → Prediction × List ModelPrediction
predict_fraud infer saves t models predictions = elim (get_deployed_model models) [
  | none ↦ (fallback_prediction t, predictions)
  | some m ↦
      if not (is_given m.mlflow_model_uri)
      then (fallback_prediction t, predictions)
      else elim (infer m t) [
        | none ↦ (fallback_prediction t, predictions)
        | some score ↦
            if saves
            then (
              record { fraud_probability = score; model_id = some m.id },
              predictions
                  ++ (record { transaction_id = t.id; model_id = m.id; prediction_score = score })
                    ∷ [],
            )
            else (fallback_prediction t, predictions)
      ]
]
