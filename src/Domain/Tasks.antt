-- ===== src/Domain/Tasks.antt =====
-- internal/domain/models.go: repositories, tasks, runs and what a run leaves behind. A time is a
-- number, 0 for Go's zero time; `V` stands for Go's `any`, `F` for `float64`.
use code_co_driver.Prelude.{ℕ, String}
use code_co_driver.Prelude.Dict.{Dict}
use code_co_driver.Domain.Status.{TaskStatus}

pub record Repository : Type 0 where
  pub id : String
  pub name : String
  pub path : String
  pub test_command : String
  pub primary_language : String
  pub file_count : ℕ
  pub indexed_at : ℕ
  pub created_at : ℕ

pub record RepositoryFile : Type 0 where
  pub repository_id : String
  pub path : String
  pub language : String
  pub size : ℕ
  pub hash : String
  pub summary : String

pub record Symbol : Type 0 where
  pub repository_id : String
  pub file_path : String
  pub name : String
  pub kind : String
  pub line : ℕ

pub record Task : Type 0 where
  pub id : String
  pub repository_id : String
  pub title : String
  pub description : String
  pub skill_name : String
  pub status : TaskStatus
  pub error : String
  pub memory_mode : String
  pub created_at : ℕ
  pub updated_at : ℕ

pub record TaskRun : Type 0 where
  pub id : String
  pub task_id : String
  pub status : TaskStatus
  pub fencing_token : ℕ
  pub started_at : ℕ
  pub ended_at : ℕ

pub record TaskStep (V : Type 0) : Type 0 where
  pub id : String
  pub task_id : String
  pub run_id : String
  pub agent_name : String
  pub step_type : String
  pub status : String
  pub input : V
  pub output : V
  pub error : String
  pub started_at : ℕ
  pub ended_at : ℕ
  pub latency_ms : ℕ

pub record ToolCall (V : Type 0) : Type 0 where
  pub id : String
  pub task_id : String
  pub run_id : String
  pub step_id : String
  pub tool_name : String
  pub provider_type : String
  pub request_payload : Dict V
  pub response_payload : V
  pub status : String
  pub error : String
  pub started_at : ℕ
  pub ended_at : ℕ
  pub latency_ms : ℕ

pub record LlmUsage (F : Type 0) : Type 0 where
  pub id : String
  pub task_id : String
  pub run_id : String
  pub step_id : String
  pub agent_name : String
  pub model : String
  pub prompt_tokens : ℕ
  pub completion_tokens : ℕ
  pub total_tokens : ℕ
  pub estimated_cost_usd : F
  pub latency_ms : ℕ
  pub created_at : ℕ

pub record Artifact : Type 0 where
  pub id : String
  pub task_id : String
  pub run_id : String
  pub type : String
  pub name : String
  pub content : String
  pub created_at : ℕ
