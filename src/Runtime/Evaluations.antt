-- ===== src/Runtime/Evaluations.antt =====
-- internal/runtime/service.go: the evaluation runs that a task belongs to, and their batches. A time
-- is a number of nanoseconds.
use code_co_driver.Prelude.{
  ltb, leb, if◌then◌else◌, find_first, count, ok, err, ℕ, ◌+◌, ◌-◌, ◌/◌, String, Bool, true, false,
  ◌&&◌, ◌||◌, not, Option, none, some, List, [], ◌∷◌, ◌++◌, ◌==◌,
}
use code_co_driver.Prelude.Text.{Unicode, trim_space, to_lower, is_empty, has_prefix, join}
use code_co_driver.Prelude.Float.{Float}
use code_co_driver.Domain.{
  Task, TaskStatus, EvaluationRun, EvaluationBatch, created, index_check, planning,
  retrieving_context, generating_patch, running_tests, reviewing, explaining, replan_required,
  human_review, cancelled, completed, failed, memory_mode_with, memory_mode_without,
}
use code_co_driver.Store.{
  Memory, all_evaluation_runs, update_evaluation_run, evaluation_batches, update_evaluation_batch,
  add_evaluation_metric_snapshot,
}
use code_co_driver.Store.Ids.{id}
use code_co_driver.Runtime.Evidence.{has_real_sandbox_pass}
use code_co_driver.Agents.Values.{Codec, Value, Fields, context_int}

-- The texts of the statuses.
abbrev pub status_text : TaskStatus → String
status_text created = "CREATED"
status_text index_check = "INDEX_CHECK"
status_text planning = "PLANNING"
status_text retrieving_context = "RETRIEVING_CONTEXT"
status_text generating_patch = "GENERATING_PATCH"
status_text running_tests = "RUNNING_TESTS"
status_text reviewing = "REVIEWING"
status_text explaining = "EXPLAINING"
status_text replan_required = "REPLAN_REQUIRED"
status_text human_review = "HUMAN_REVIEW_REQUIRED"
status_text cancelled = "CANCELLED"
status_text completed = "COMPLETED"
status_text failed = "FAILED"

abbrev pub is_completed : TaskStatus → Bool
is_completed completed = true
is_completed _ = false

-- `Milliseconds` of a difference.
unfoldable pub elapsed_ms : ℕ → ℕ → ℕ
elapsed_ms started ended = (ended - started) / 1000000

-- `memoryModeForEvaluation`
unfoldable pub memory_mode_for_evaluation : Unicode → String → String
memory_mode_for_evaluation u mode =
    let wanted = to_lower u (trim_space mode) in
    if wanted == memory_mode_without || wanted == "baseline"
    then memory_mode_without
    else memory_mode_with

module _ {F : Type 0} (f : Float F) (u : Unicode) (codec : Codec F) where
  -- The notes of a run with one more note.
  unfoldable pub noted : String → String → String
  noted notes note =
      let added : String = elim (codec.decode_notes notes) [
        | none ↦ notes
        | some old ↦ elim (codec.encode_notes (old ++ note ∷ [])) [
          | ok content ↦ content
          | err e ↦ notes
        ]
      ] in
      if is_empty notes
      then join ("{\"auto_human\":[\"" ∷ note ∷ "\"]}" ∷ []) ""
      else if has_prefix notes "{"
      then added
      else join (notes ∷ ";" ∷ note ∷ []) ""

  -- `recordEvalNote`
  unfoldable pub record_eval_note : Memory F (Value F) → EvaluationRun → String → Memory F (Value F)
  unfolding noted
  record_eval_note m run note =
      (update_evaluation_run m (record run { notes = noted run.notes note })).0

  -- The tests of the loop of `refreshEvaluationBatch`.
  abbrev pub is_counted : String → EvaluationRun → Bool
  is_counted batch_id run =
      run.batch_id == batch_id
      && (run.status == "completed" || run.status == "failed" || run.status == "cancelled")

  abbrev pub has_ended_as : String → String → EvaluationRun → Bool
  has_ended_as batch_id status run = run.batch_id == batch_id && run.status == status

  unfoldable pub total_duration : String → List EvaluationRun → ℕ
  total_duration batch_id [] = 0
  total_duration batch_id (run ∷ all) =
      (if run.batch_id == batch_id then run.duration_ms else 0) + total_duration batch_id all

  -- The counts of a batch.
  unfoldable pub counted_batch : EvaluationBatch → List EvaluationRun → EvaluationBatch
  counted_batch batch all = record batch {
    completed = count (is_counted batch.id) all;
    passed = count (λ (run : EvaluationRun). is_counted batch.id run && run.passed) all;
  }

  -- The end of a batch of which every run is over, with its metrics.
  unfoldable pub end_batch :
      ℕ
      → Memory F (Value F)
      → EvaluationBatch
      → List EvaluationRun
      → Memory F (Value F) × EvaluationBatch
  unfolding total_duration
  end_batch now m batch all =
      let ended = record batch { status = "completed"; ended_at = now } in
      let over =
        count (has_ended_as batch.id "completed") all
        + count (has_ended_as batch.id "failed") all in
      let (metric_id, m') = id m "metric" in
      (
        add_evaluation_metric_snapshot m' (record {
          id = metric_id;
          batch_id = batch.id;
          mode = batch.mode;
          total = batch.total;
          passed = batch.passed;
          pass_rate =
              if ltb 0 over then f.div (f.of_nat batch.passed) (f.of_nat over) else f.lit 0 0;
          avg_duration_ms = total_duration batch.id all / batch.total;
          created_at = now;
        }),
        ended,
      )

  -- `refreshEvaluationBatch`, with the batch that is found.
  unfoldable pub refresh_found :
      ℕ → Memory F (Value F) → Option EvaluationBatch → Memory F (Value F)
  unfolding counted_batch end_batch
  refresh_found now m none = m
  refresh_found now m (some batch) =
      let counted = counted_batch batch (all_evaluation_runs m) in
      let (m', ended) = end_batch now m counted (all_evaluation_runs m) in
      if leb counted.total counted.completed && ltb 0 counted.total
      then (update_evaluation_batch m' ended).0
      else (update_evaluation_batch m counted).0

  -- `refreshEvaluationBatch`
  unfoldable pub refresh_evaluation_batch : ℕ → Memory F (Value F) → String → Memory F (Value F)
  unfolding refresh_found
  refresh_evaluation_batch now m batch_id =
      refresh_found now m
        (find_first (λ (b : EvaluationBatch). b.id == batch_id) (evaluation_batches m))

  -- The counts of memories and repairs that the context has.
  unfoldable pub context_counts : Option (Fields F) → EvaluationRun → EvaluationRun
  context_counts none run = run
  context_counts (some context) run = record run {
    memory_hits = context_int context "memory_hits";
    repair_attempts = context_int context "repair_attempts";
    memory_success_hits = context_int context "memory_success_hits";
    memory_failure_hits = context_int context "memory_failure_hits";
    memory_resolved_hits = context_int context "memory_resolved_hits";
    memory_refined_hits = context_int context "memory_refined_hits";
  }

  -- The run as `finalizeEvaluation` writes it.
  unfoldable pub finalized_run :
      ℕ → Memory F (Value F) → Task → TaskStatus → Option (Fields F) → EvaluationRun → EvaluationRun
  unfolding context_counts elapsed_ms
  finalized_run now m t status context run =
      let passed = is_completed status && has_real_sandbox_pass u codec m t.id in
      context_counts context (record run {
        status = to_lower u (status_text status);
        passed = passed;
        ended_at = now;
        duration_ms = elapsed_ms run.started_at now;
        notes = if passed then run.notes else t.error;
      })

  -- The loop of `finalizeEvaluation`, over the runs that were listed before it.
  unfoldable pub finalize_runs :
      ℕ
      → Memory F (Value F)
      → Task
      → TaskStatus
      → Option (Fields F)
      → List EvaluationRun
      → Memory F (Value F)
  unfolding finalized_run refresh_evaluation_batch
  finalize_runs now m t status context [] = m
  finalize_runs now m t status context (run ∷ all) =
      let m' = (update_evaluation_run m (finalized_run now m t status context run)).0 in
      let refreshed =
        if is_empty run.batch_id then m' else refresh_evaluation_batch now m' run.batch_id in
      finalize_runs now
        (if not (run.task_id == t.id) || run.status == "completed" || run.status == "failed"
          then m
          else refreshed)
        t status context all

  -- `finalizeEvaluation`
  unfoldable pub finalize_evaluation :
      ℕ → Memory F (Value F) → Task → TaskStatus → Option (Fields F) → Memory F (Value F)
  unfolding finalize_runs
  finalize_evaluation now m t status context =
      finalize_runs now m t status context (all_evaluation_runs m)
