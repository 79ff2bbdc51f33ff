-- ===== src/Ml/Deployments.antt =====
-- What deployments do to the models.
use bank_fastapi.Prelude.{
  subst, ℕ, ◌+◌, ◌≡◌, refl, sym, ap, ◌∙◌, inl, inr, Bool, true, false, Option, none, some,
  Option-cases, Bool-cases, List, [], ◌∷◌, ◌++◌, String, arith, ◌==◌,
}
use bank_fastapi.Prelude.Rows.{
  find, modify, count_where, Distinct, Distinct-modify, Distinct-append, find-first, find-modify,
  first-holds,
}
use bank_fastapi.Prelude.Rows.Counts.{count-none, count-modify, count-some, count-add}
use bank_fastapi.Models.{Transaction}
use bank_fastapi.Core.{Result-cases}
use bank_fastapi.Ml.Deployment.{
  MlModel, model_key, is_ready, is_deployed, archive, deploy_at, get_deployed_model, deploy_model,
  best_model, is_better, auto_deploy_best_model, binds_name,
}
use bank_fastapi.Ml.Inference.{ModelPrediction, fallback_prediction, predict_fraud}

abbrev pub deployed_count : List MlModel → ℕ
deployed_count models = count_where (λ m. is_deployed m.status) models

abbrev pub swapped : ℕ → MlModel → MlModel → List MlModel → List MlModel
swapped now current model models =
    modify model_key model.id (deploy_at now) (modify model_key current.id archive models)

swapped-count :
    (now : ℕ) (current model : MlModel) (models : List MlModel)
    → Distinct model_key models
    → get_deployed_model models ≡ some current
    → find model_key model.id models ≡ some model
    → is_ready model.status ≡ true
    → deployed_count (swapped now current model models) ≡ deployed_count models
swapped-count now current model models d e g r =
    let on : is_deployed current.status ≡ true =
      first-holds (λ m. is_deployed m.status) models current e in
    let off : is_deployed model.status ≡ false = ground arith in
    let row : find model_key current.id models ≡ some current =
      find-first model_key (λ m. is_deployed m.status) models current d e in
    let apart : (current.id == model.id) ≡ false = elim (Bool-cases (current.id == model.id)) [
      | inl same ↦
          let one : current.id ≡ model.id = ground arith in
          let both : some current ≡ some model =
            sym row ∙ ap (λ k. find model_key k models) one ∙ g in
          ground arith
      | inr other ↦ other
    ] in
    let still : find model_key model.id (modify model_key current.id archive models) ≡ some model =
      find-modify model_key model.id current.id archive models (λ m. refl) ∙ rw (apart, g) refl in
    omega (
      arith,
      count_step archive current.id models current row on refl,
      count_on (deploy_at now) model.id (modify model_key current.id archive models) model still off
          refl,
    )
  where
    count_step :
        (f : MlModel → MlModel) (k : ℕ) (rows : List MlModel) (m : MlModel)
        → find model_key k rows ≡ some m
        → is_deployed m.status ≡ true
        → is_deployed (f m).status ≡ false
        → deployed_count (modify model_key k f rows) + 1 ≡ deployed_count rows
    count_step f k rows m h was is =
        ground (arith, count-modify model_key (λ x. is_deployed x.status) k f rows m h)

    count_on :
        (f : MlModel → MlModel) (k : ℕ) (rows : List MlModel) (m : MlModel)
        → find model_key k rows ≡ some m
        → is_deployed m.status ≡ false
        → is_deployed (f m).status ≡ true
        → deployed_count (modify model_key k f rows) ≡ deployed_count rows + 1
    count_on f k rows m h was is =
        ground (arith, count-modify model_key (λ x. is_deployed x.status) k f rows m h)

-- The tables of models that the calls keep: distinct ids and a number of deployed models.
pub record ModelsInv (n : ℕ) (models : List MlModel) : Type 0 where
  pub distinct : Distinct model_key models
  pub deployed : deployed_count models ≡ n

swapped-Models :
    (n now : ℕ) (current model : MlModel) (models : List MlModel)
    → ModelsInv n models
    → get_deployed_model models ≡ some current
    → find model_key model.id models ≡ some model
    → is_ready model.status ≡ true
    → ModelsInv n (swapped now current model models)
swapped-Models n now current model models v e g r = record {
  distinct =
      Distinct-modify model_key model.id (deploy_at now)
        (modify model_key current.id archive models)
        (Distinct-modify model_key current.id archive models v.distinct (λ m. refl)) (λ m. refl);
  deployed = swapped-count now current model models v.distinct e g r ∙ v.deployed;
}

found-id :
    (id : ℕ) (models : List MlModel) (m : MlModel) → find model_key id models ≡ some m → m.id ≡ id
found-id id models m e = ground (arith, first-holds (λ (x : MlModel). x.id == id) models m e)

deploy_model-Models :
    (runs : String → Bool) (n now id : ℕ) (models : List MlModel)
    → ModelsInv n models
    → ModelsInv n (deploy_model runs now id models).1
unfolding deploy_model
deploy_model-Models runs n now id models v = elim (Option-cases (find model_key id models)) [
  | inl g ↦ rw (deploy_model, g) v
  | inr (m, g) ↦ elim (Bool-cases (is_ready m.status)) [
    | inl r ↦ elim (Option-cases (get_deployed_model models)) [
      | inl e ↦ rw (deploy_model, g, r, e) v
      | inr (current, e) ↦
          let same = found-id id models m g in
          let kept : ModelsInv n (swapped now current m models) =
            swapped-Models n now current m models v e (ap (λ k. find model_key k models) same ∙ g)
              r in
          let kept_id =
            subst
              (λ k.
                ModelsInv n
                  (modify model_key k (deploy_at now) (modify model_key current.id archive models)))
              same kept in
          elim (Bool-cases (binds_name runs m)) [
            | inl b ↦ rw (deploy_model, g, r, e, b) kept_id
            | inr b ↦ rw (deploy_model, g, r, e, b) kept_id
          ]
    ]
    | inr r ↦ rw (deploy_model, g, r) v
  ]
]

auto_deploy-Models :
    (order : List MlModel → List MlModel) (runs : String → Bool) (logs : Bool) (n now threshold : ℕ)
    (models : List MlModel)
    → ModelsInv n models
    → ModelsInv n (auto_deploy_best_model order runs logs now threshold models).1
unfolding auto_deploy_best_model
auto_deploy-Models order runs false n now threshold models v = v
auto_deploy-Models order runs true n now threshold models v =
    elim (Option-cases (best_model order threshold models)) [
      | inl b ↦ rw (auto_deploy_best_model, b) v
      | inr (best, b) ↦ elim (Bool-cases (is_better (get_deployed_model models) best)) [
        | inl c ↦ rw (auto_deploy_best_model, b, c) v
        | inr c ↦ elim (Result-cases (deploy_model runs now best.id models).0) [
          | inl (x, r) ↦
              rw (auto_deploy_best_model, b, c, r) (deploy_model-Models runs n now best.id models v)
          | inr (m, r) ↦
              rw (auto_deploy_best_model, b, c, r) (deploy_model-Models runs n now best.id models v)
        ]
      ]
    ]

-- A deployment by id or by score, however it ends, or a training that adds a model under an unused
-- id that is not deployed.
pub data ModelStep : List MlModel → List MlModel → Type 0 where
  deploys :
      (runs : String → Bool) (now id : ℕ) (models : List MlModel)
      → ModelStep models (deploy_model runs now id models).1
  auto_deploys :
      (order : List MlModel → List MlModel) (runs : String → Bool) (logs : Bool) (now threshold : ℕ)
      (models : List MlModel)
      → ModelStep models (auto_deploy_best_model order runs logs now threshold models).1
  trains :
      (m : MlModel) (models : List MlModel)
      → find model_key m.id models ≡ none
      → is_deployed m.status ≡ false
      → ModelStep models (models ++ m ∷ [])

pub data ModelReach (start : List MlModel) : List MlModel → Type 0 where
  here : ModelReach start start
  next :
      {models models' : List MlModel}
      → ModelReach start models
      → ModelStep models models'
      → ModelReach start models'

ModelStep-Models :
    (n : ℕ) {models models' : List MlModel}
    → ModelStep models models'
    → ModelsInv n models
    → ModelsInv n models'
ModelStep-Models n (deploys runs now id models) v = deploy_model-Models runs n now id models v
ModelStep-Models n (auto_deploys order runs logs now threshold models) v =
    auto_deploy-Models order runs logs n now threshold models v
ModelStep-Models n (trains m models fresh off) v = record {
  distinct = Distinct-append model_key models m v.distinct fresh;
  deployed = ground (arith, count-add (λ x. is_deployed x.status) models m, v.deployed);
}

ModelReach-Models :
    (n : ℕ) {start models : List MlModel}
    → ModelReach start models
    → ModelsInv n start
    → ModelsInv n models
ModelReach-Models n here v = v
ModelReach-Models n (next r s) v = ModelStep-Models n s (ModelReach-Models n r v)

-- However models are trained and deployed: the number of deployed models stays what it was at the
-- start, where the ids of the models are distinct. So there is never a second one, and if there is
-- none at the start, there never is one.
pub ModelReach-deployed_count :
    {start models : List MlModel}
    → ModelReach start models
    → Distinct model_key start
    → deployed_count models ≡ deployed_count start
ModelReach-deployed_count {start} r d =
    (ModelReach-Models (deployed_count start) r (record { distinct = d; deployed = refl })).deployed

-- From tables without a deployed model, however models are trained and deployed, every prediction is
-- the heuristic's and stores nothing, where the ids of the models are distinct.
pub predict_fraud-falls_back :
    {start models : List MlModel} (infer : MlModel → Transaction → Option ℕ) (saves : Bool)
    (t : Transaction) (predictions : List ModelPrediction)
    → ModelReach start models
    → Distinct model_key start
    → get_deployed_model start ≡ none
    → predict_fraud infer saves t models predictions ≡ (fallback_prediction t, predictions)
unfolding predict_fraud
predict_fraud-falls_back {start} {models} infer saves t predictions r d e =
    let none_on = count-none (λ (m : MlModel). is_deployed m.status) start e in
    let same = ModelReach-deployed_count r d in
    elim (Option-cases (get_deployed_model models)) [
      | inl g ↦ rw (predict_fraud, g) refl
      | inr (m, g) ↦
          ground
            (arith, count-some (λ (x : MlModel). is_deployed x.status) models m g, none_on, same)
    ]
