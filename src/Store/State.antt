-- ===== src/Store/State.antt =====
-- internal/store/memory.go: the fields of `Memory`, and its constructor. A map from a name to a
-- list is read with the empty list for a missing name. `F` is `float64`, `V` is `any`.
use code_co_driver.Prelude.{ℕ, String, Option, none, some, List, []}
use code_co_driver.Prelude.Dict.{Dict}
use code_co_driver.Domain.{
  Repository, RepositoryFile, Symbol, Task, TaskRun, TaskStep, ToolCall, LlmUsage, Artifact,
  MemoryEntry, MemoryLink, BenchmarkCase, EvaluationRun, EvaluationBatch, EvaluationMetricSnapshot,
}

-- `ErrNotFound` and `ErrStaleRun`.
pub data StoreError : Type 0 where
  not_found stale_run : StoreError

-- The interface of internal/store/embedding_provider.go: `none` is an error of the provider.
pub record EmbeddingProvider (F : Type 0) : Type 0 where
  pub name : String
  pub embed : List String → Option (List (List F))

pub record Memory (F V : Type 0) : Type 0 where
  pub seq : Dict ℕ
  pub repositories : Dict Repository
  pub files : Dict (List RepositoryFile)
  pub symbols : Dict (List Symbol)
  pub tasks : Dict Task
  pub runs : Dict (List TaskRun)
  pub steps : Dict (List (TaskStep V))
  pub tool_calls : Dict (List (ToolCall V))
  pub llm_usages : Dict (List (LlmUsage F))
  pub artifacts : Dict (List Artifact)
  pub memories : List (MemoryEntry F)
  pub links : Dict (List MemoryLink)
  pub benchmark_cases : Dict BenchmarkCase
  pub evaluation_runs : List EvaluationRun
  pub evaluation_batches : Dict EvaluationBatch
  pub metric_snapshots : Dict (EvaluationMetricSnapshot F)
  pub embeddings : EmbeddingProvider F

-- `NewMemoryWithEmbedding`, the provider being the local one where none is given.
unfoldable pub new_memory_with_embedding :
    {F : Type 0} (V : Type 0) → EmbeddingProvider F → Option (EmbeddingProvider F) → Memory F V
new_memory_with_embedding V local provider = record {
  seq = [];
  repositories = [];
  files = [];
  symbols = [];
  tasks = [];
  runs = [];
  steps = [];
  tool_calls = [];
  llm_usages = [];
  artifacts = [];
  memories = [];
  links = [];
  benchmark_cases = [];
  evaluation_runs = [];
  evaluation_batches = [];
  metric_snapshots = [];
  embeddings = elim provider [ none ↦ local | some p ↦ p ];
}
