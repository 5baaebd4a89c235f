-- ===== src/Runtime/EvaluationTasks.antt =====
-- internal/runtime/service.go: the tasks of an evaluation. `now` is what `time.Now` answers.
use code_co_driver.Prelude.{if◌then◌else◌, Outcome, ok, err, ℕ, String, false}
use code_co_driver.Prelude.Text.{Unicode, is_empty}
use code_co_driver.Prelude.Float.{Float}
use code_co_driver.Domain.{Task, EvaluationRun, BenchmarkCase}
use code_co_driver.Store.{StoreError, add_evaluation_run, benchmark_case}
use code_co_driver.Store.Ids.{id}
use code_co_driver.Runtime.State.{Service, ServiceError, missing}
use code_co_driver.Runtime.Queue.{enqueue}
use code_co_driver.Runtime.Lifecycle.{create_task}
use code_co_driver.Agents.Values.{Codec, Value}
use code_co_driver.Runtime.Evaluations.{memory_mode_for_evaluation}

module _ {F : Type 0} (f : Float F) (u : Unicode) (codec : Codec F) where
  -- The last part of `CreateEvaluationTask`.
  unfoldable pub add_evaluation :
      ℕ
      → String
      → String
      → String
      → Outcome ServiceError Task × Service F (Value F)
      → Outcome ServiceError (EvaluationRun × Task) × Service F (Value F)
  unfolding enqueue
  add_evaluation now case_id mode batch_id (err e, s) = (err e, s)
  add_evaluation now case_id mode batch_id (ok t, s) =
      let (run_id, m) = id s.store "evaluation" in
      let run : EvaluationRun = record {
        id = run_id;
        case_id = case_id;
        batch_id = batch_id;
        task_id = t.id;
        mode = mode;
        status = "queued";
        passed = false;
        duration_ms = 0;
        notes = "";
        memory_hits = 0;
        repair_attempts = 0;
        memory_success_hits = 0;
        memory_failure_hits = 0;
        memory_resolved_hits = 0;
        memory_refined_hits = 0;
        started_at = now;
        ended_at = 0;
        created_at = now;
      } in
      (ok (run, t), enqueue (record s { store = add_evaluation_run m run }) t.id)

  -- `CreateEvaluationTask`, with the case that is found; without a batch its id is empty.
  unfoldable pub create_evaluation_found :
      ℕ
      → Service F (Value F)
      → String
      → String
      → String
      → Outcome StoreError BenchmarkCase
      → Outcome ServiceError (EvaluationRun × Task) × Service F (Value F)
  unfolding add_evaluation create_task memory_mode_for_evaluation
  create_evaluation_found now s case_id mode batch_id (err e) = (err missing, s)
  create_evaluation_found now s case_id mode batch_id (ok item) =
      let mode' = if is_empty mode then "agent" else mode in
      add_evaluation now case_id mode' batch_id (
        create_task now s item.repository_id item.title item.description ""
          (memory_mode_for_evaluation u mode') false)

  -- `CreateEvaluationTask`
  unfoldable pub create_evaluation_task :
      ℕ
      → Service F (Value F)
      → String
      → String
      → String
      → Outcome ServiceError (EvaluationRun × Task) × Service F (Value F)
  unfolding create_evaluation_found
  create_evaluation_task now s case_id mode batch_id =
      create_evaluation_found now s case_id mode batch_id (benchmark_case s.store case_id)
