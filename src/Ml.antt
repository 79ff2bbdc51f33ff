-- ===== src/Ml.antt =====
-- The deployed fraud model: backend/app/core/ml/deployment.py and core/tasks/ml.py.
pub mod Deployment
pub mod Inference
pub mod Deployments
pub mod Scores
