-- ===== src/Domain/Evaluations.antt =====
-- internal/domain/models.go: benchmark cases, evaluation runs, batches and metric snapshots.
use code_co_driver.Prelude.{ℕ, String, Bool, List}

pub record BenchmarkCase : Type 0 where
  pub id : String
  pub name : String
  pub repository_id : String
  pub title : String
  pub description : String
  pub expected : List String
  pub created_at : ℕ

pub record EvaluationRun : Type 0 where
  pub id : String
  pub case_id : String
  pub batch_id : String
  pub task_id : String
  pub mode : String
  pub status : String
  pub passed : Bool
  pub duration_ms : ℕ
  pub notes : String
  pub memory_hits : ℕ
  pub repair_attempts : ℕ
  pub memory_success_hits : ℕ
  pub memory_failure_hits : ℕ
  pub memory_resolved_hits : ℕ
  pub memory_refined_hits : ℕ
  pub started_at : ℕ
  pub ended_at : ℕ
  pub created_at : ℕ

pub record EvaluationBatch : Type 0 where
  pub id : String
  pub name : String
  pub mode : String
  pub status : String
  pub total : ℕ
  pub completed : ℕ
  pub passed : ℕ
  pub started_at : ℕ
  pub ended_at : ℕ
  pub created_at : ℕ

pub record EvaluationMetricSnapshot (F : Type 0) : Type 0 where
  pub id : String
  pub batch_id : String
  pub mode : String
  pub total : ℕ
  pub passed : ℕ
  pub pass_rate : F
  pub avg_duration_ms : ℕ
  pub created_at : ℕ
