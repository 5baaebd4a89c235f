-- ===== src/Store/Records.antt =====
-- internal/store/memory.go: what a run leaves behind, and the records of the evaluation.
use code_co_driver.Prelude.{
  ltb, is_some, if◌then◌else◌, select, Outcome, or_error, String, Option, none, some, List, [], ◌∷◌,
  ◌++◌, ◌==◌,
}
use code_co_driver.Prelude.Dict.{get, put, get_or, values}
use code_co_driver.Prelude.Sort.{sort}
use code_co_driver.Domain.{
  TaskStep, ToolCall, LlmUsage, Artifact, BenchmarkCase, EvaluationRun, EvaluationBatch,
  EvaluationMetricSnapshot,
}
use code_co_driver.Store.State.{Memory, StoreError, not_found}

-- Replaces the first run of that id; `none` where there is none.
unfoldable pub replace_run : EvaluationRun → List EvaluationRun → Option (List EvaluationRun)
replace_run run [] = none
replace_run run (r ∷ rs) =
    let rest = replace_run run rs in
    if r.id == run.id
    then some (run ∷ rs)
    else elim rest [ none ↦ none | some rs' ↦ some (r ∷ rs') ]

module _ {F V : Type 0} where
  unfoldable pub add_step : Memory F V → TaskStep V → Memory F V
  add_step m s = record m { steps = put m.steps s.task_id (get_or m.steps s.task_id [] ++ s ∷ []) }

  unfoldable pub steps : Memory F V → String → List (TaskStep V)
  steps m id = get_or m.steps id []

  unfoldable pub add_tool_call : Memory F V → ToolCall V → Memory F V
  add_tool_call m call = record m {
    tool_calls = put m.tool_calls call.task_id (get_or m.tool_calls call.task_id [] ++ call ∷ []);
  }

  unfoldable pub tool_calls : Memory F V → String → List (ToolCall V)
  tool_calls m id = get_or m.tool_calls id []

  unfoldable pub add_llm_usage : Memory F V → LlmUsage F → Memory F V
  add_llm_usage m usage = record m {
    llm_usages =
        put m.llm_usages usage.task_id (get_or m.llm_usages usage.task_id [] ++ usage ∷ []);
  }

  unfoldable pub llm_usages : Memory F V → String → List (LlmUsage F)
  llm_usages m id = get_or m.llm_usages id []

  unfoldable pub add_artifact : Memory F V → Artifact → Memory F V
  add_artifact m a = record m {
    artifacts = put m.artifacts a.task_id (get_or m.artifacts a.task_id [] ++ a ∷ []);
  }

  unfoldable pub artifacts : Memory F V → String → List Artifact
  artifacts m id = get_or m.artifacts id []

  unfoldable pub add_benchmark_case : Memory F V → BenchmarkCase → Memory F V
  add_benchmark_case m item = record m { benchmark_cases = put m.benchmark_cases item.id item }

  unfoldable pub update_benchmark_case : Memory F V → BenchmarkCase → Memory F V × Option StoreError
  update_benchmark_case m item =
      if is_some (get m.benchmark_cases item.id)
      then (record m { benchmark_cases = put m.benchmark_cases item.id item }, none)
      else (m, some not_found)

  unfoldable pub benchmark_cases : Memory F V → List BenchmarkCase
  benchmark_cases m = sort (λ a b. ltb a.created_at b.created_at) (values m.benchmark_cases)

  unfoldable pub benchmark_case : Memory F V → String → Outcome StoreError BenchmarkCase
  benchmark_case m id = or_error not_found (get m.benchmark_cases id)

  unfoldable pub add_evaluation_run : Memory F V → EvaluationRun → Memory F V
  add_evaluation_run m run = record m { evaluation_runs = m.evaluation_runs ++ run ∷ [] }

  unfoldable pub update_evaluation_run : Memory F V → EvaluationRun → Memory F V × Option StoreError
  unfolding replace_run
  update_evaluation_run m run = elim (replace_run run m.evaluation_runs) [
    | none ↦ (m, some not_found)
    | some rs ↦ (record m { evaluation_runs = rs }, none)
  ]

  unfoldable pub evaluation_runs : Memory F V → String → List EvaluationRun
  evaluation_runs m case_id = select (λ run. run.case_id == case_id) m.evaluation_runs

  unfoldable pub all_evaluation_runs : Memory F V → List EvaluationRun
  all_evaluation_runs m = m.evaluation_runs

  unfoldable pub add_evaluation_batch : Memory F V → EvaluationBatch → Memory F V
  add_evaluation_batch m batch = record m {
    evaluation_batches = put m.evaluation_batches batch.id batch;
  }

  unfoldable pub update_evaluation_batch :
      Memory F V → EvaluationBatch → Memory F V × Option StoreError
  update_evaluation_batch m batch =
      if is_some (get m.evaluation_batches batch.id)
      then (record m { evaluation_batches = put m.evaluation_batches batch.id batch }, none)
      else (m, some not_found)

  unfoldable pub evaluation_batches : Memory F V → List EvaluationBatch
  evaluation_batches m = sort (λ a b. ltb a.created_at b.created_at) (values m.evaluation_batches)

  unfoldable pub add_evaluation_metric_snapshot :
      Memory F V → EvaluationMetricSnapshot F → Memory F V
  add_evaluation_metric_snapshot m snapshot = record m {
    metric_snapshots = put m.metric_snapshots snapshot.batch_id snapshot;
  }

  unfoldable pub evaluation_metric_snapshots : Memory F V → List (EvaluationMetricSnapshot F)
  evaluation_metric_snapshots m =
      sort (λ a b. ltb a.created_at b.created_at) (values m.metric_snapshots)
