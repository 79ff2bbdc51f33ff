-- ===== src/Tests/Limits.antt =====
-- The rate limit, profiles and the fraud models at small inputs.
use bank_fastapi.Prelude.{◌<◌, ℕ, ◌*◌, ◌≤◌, ◌≡◌, refl, inr, true, none, some, List, [], ◌∷◌, arith}
use bank_fastapi.RateLimit.{check_rate_limit, Redis, RateLimitConfig}
use bank_fastapi.RateLimit.Windows.{check_rate_limit-keeps, counter, passed, passed-twice}
use bank_fastapi.Ml.Deployment.{MlModel, ModelStatus, deploy_model}
use bank_fastapi.Ml.Inference.{fallback_prediction, predict_fraud}
use bank_fastapi.Ml.Deployments.{
  ModelStep, ModelReach, deployed_count, ModelReach-deployed_count, predict_fraud-falls_back,
}
use bank_fastapi.Tests.Fixtures.{pending}

-- Three requests in a minute.
abbrev three : RateLimitConfig
three = record { max_requests = 3; window_seconds = 60; block_on_exceed = true }

-- A counter at three until 100, under every key.
abbrev full : Redis
full key = some (counter 3 100)

passed-twice_example : passed three "k" (70 ∷ 99 ∷ 100 ∷ 101 ∷ 102 ∷ 103 ∷ []) full ≤ 2 * 3
passed-twice_example =
    passed-twice three "k" 60 (70 ∷ 99 ∷ 100 ∷ 101 ∷ 102 ∷ 103 ∷ []) full (inr (3, 100, refl))
      (ground arith)

-- The counter under every key has gone.
abbrev gone : Redis
gone key = none

abbrev five : RateLimitConfig
five = record { max_requests = 5; window_seconds = 60; block_on_exceed = true }

check_rate_limit-keeps_example :
    passed five "k"
      (200 ∷ 300 ∷ 400 ∷ 500 ∷ 600 ∷ [])
      (check_rate_limit five true 99 "k" full full gone).1
    < 5
check_rate_limit-keeps_example =
    check_rate_limit-keeps five 99 "k" full full gone (counter 3 100)
      (200 ∷ 300 ∷ 400 ∷ 500 ∷ 600 ∷ []) refl refl refl

abbrev model : ℕ → ModelStatus → MlModel
model id status = record {
  id = id;
  name = "gb";
  version = "1";
  status = status;
  auc_score = 90;
  mlflow_run_id = some "run";
  mlflow_model_uri = some "uri";
  deployed_at = none;
}

abbrev one_live : List MlModel
one_live = model 1 ModelStatus.deployed ∷ model 2 ModelStatus.ready ∷ []

ModelReach-deployed_count_example :
    deployed_count (deploy_model (λ run. true) 50 2 one_live).1 ≡ deployed_count one_live
ModelReach-deployed_count_example =
    ModelReach-deployed_count
      (ModelReach.next ModelReach.here (ModelStep.deploys (λ run. true) 50 2 one_live))
      (refl, (refl, tt))

abbrev none_live : List MlModel
none_live = model 2 ModelStatus.ready ∷ []

predict_fraud-falls_back_example :
    predict_fraud (λ m t. some 5) true pending (deploy_model (λ run. true) 50 2 none_live).1 []
    ≡ (fallback_prediction pending, [])
predict_fraud-falls_back_example =
    predict_fraud-falls_back (λ m t. some 5) true pending []
      (ModelReach.next ModelReach.here (ModelStep.deploys (λ run. true) 50 2 none_live)) (refl, tt)
      refl
