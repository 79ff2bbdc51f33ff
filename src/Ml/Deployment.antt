-- ===== src/Ml/Deployment.antt =====
-- core/ml/deployment.py: `ModelDeployer`, and the choice of `auto_deploy_best_model` in
-- core/tasks/ml.py. MLflow is outside: `runs` tells for a run whether `start_run` and what is logged
-- in it succeed. The scores of a model are numbers.
use bank_fastapi.Prelude.{
  ℕ, Bool, true, false, not, ◌&&◌, Option, none, some, List, String, str_eq, leb, if◌then◌else◌,
}
use bank_fastapi.Prelude.Rows.{first, find, modify, rows_where}
use bank_fastapi.Core.{Error, Result, ok, err}

-- `ModelStatusEnum`
pub data ModelStatus : Type 0 where
  training ready deployed failed archived : ModelStatus

pub record MlModel : Type 0 where
  pub id : ℕ
  pub name : String
  pub version : String
  pub status : ModelStatus
  pub auc_score : ℕ
  pub mlflow_run_id : Option String
  pub mlflow_model_uri : Option String
  pub deployed_at : Option ℕ

abbrev pub is_ready : ModelStatus → Bool
is_ready ModelStatus.ready = true
is_ready _ = false

abbrev pub is_deployed : ModelStatus → Bool
is_deployed ModelStatus.deployed = true
is_deployed _ = false

abbrev pub model_key : MlModel → ℕ
model_key m = m.id

-- `get_deployed_model`
abbrev pub get_deployed_model : List MlModel → Option MlModel
get_deployed_model models = first (λ m. is_deployed m.status) models

abbrev pub archive : MlModel → MlModel
archive m = record m { status = ModelStatus.archived }

abbrev pub deploy_at : ℕ → MlModel → MlModel
deploy_at now m = record m { status = ModelStatus.deployed; deployed_at = some now }

-- A text that is there and not empty.
abbrev pub is_given : Option String → Bool
is_given none = false
is_given (some s) = not (str_eq s "")

-- Whether the block that logs the deployment assigns `model_name`.
abbrev pub binds_name : (String → Bool) → MlModel → Bool
binds_name runs m = elim m.mlflow_run_id [
  | none ↦ false
  | some run ↦ not (str_eq run "") && (runs run && is_given m.mlflow_model_uri)
]

-- The return value is the model's row. Without a deployed model nothing is changed. With one, both
-- rows are committed before the last log line reads `model_name`, which raises if it was never
-- assigned; the rollback that follows has nothing to undo.
unfoldable pub deploy_model : (String → Bool) → ℕ → ℕ → List MlModel → Result MlModel × List MlModel
deploy_model runs now model_id models = elim (find model_key model_id models) [
  | none ↦ (err (Error.value_error "Model not found"), models)
  | some model ↦
      if not (is_ready model.status)
      then (err (Error.value_error "Model is not ready for deployment"), models)
      else elim (get_deployed_model models) [
        | none ↦ (ok model, models)
        | some current ↦
            let archived = modify model_key current.id archive models in
            let committed = modify model_key model_id (deploy_at now) archived in
            if binds_name runs model
            then (ok (deploy_at now model), committed)
            else (err (Error.system_error "UnboundLocalError"), committed)
      ]
]

-- The ready model with the best score above the threshold: ORDER BY auc_score DESC is `order`.
abbrev pub best_model : (List MlModel → List MlModel) → ℕ → List MlModel → Option MlModel
best_model order threshold models =
    first (λ m. true)
      (order (rows_where (λ m. is_ready m.status && leb threshold m.auc_score) models))

abbrev pub is_better : Option MlModel → MlModel → Bool
is_better none best = false
is_better (some current) best = leb best.auc_score current.auc_score

pub data AutoDeploy : Type 0 where
  no_action : AutoDeploy
  deployed : MlModel → AutoDeploy

-- `logs` tells whether MLflow takes the run that each branch begins with.
unfoldable pub auto_deploy_best_model :
    (List MlModel → List MlModel)
    → (String → Bool)
    → Bool
    → ℕ
    → ℕ
    → List MlModel
    → Result AutoDeploy × List MlModel
auto_deploy_best_model order runs logs now threshold models =
    if not logs
    then (err (Error.system_error "MLflow"), models)
    else elim (best_model order threshold models) [
      | none ↦ (ok AutoDeploy.no_action, models)
      | some best ↦
          if is_better (get_deployed_model models) best
          then (ok AutoDeploy.no_action, models)
          else (let (r, models') = deploy_model runs now best.id models in
              elim r [ ok m ↦ (ok (AutoDeploy.deployed m), models') | err e ↦ (err e, models') ])
    ]
