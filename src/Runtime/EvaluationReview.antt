-- ===== src/Runtime/EvaluationReview.antt =====
-- internal/runtime/service.go: the feedback to a task, and what an evaluation decides in the place of
-- a human reviewer. `now` is what `time.Now` answers.
use code_co_driver.Prelude.{
  ltb, if◌then◌else◌, find_first, Outcome, ok, err, ℕ, String, Bool, true, false, ◌&&◌, not, Option,
  none, some, ◌==◌,
}
use code_co_driver.Prelude.Text.{Unicode, trim_space, is_empty}
use code_co_driver.Prelude.Float.{Float}
use code_co_driver.Domain.{Task, EvaluationRun, created, completed, human_review}
use code_co_driver.Store.{Memory, StoreError, task, update_task, all_evaluation_runs}
use code_co_driver.Runtime.State.{Service, ServiceError, missing, not_waiting, feedback_required}
use code_co_driver.Runtime.Queue.{enqueue}
use code_co_driver.Runtime.Evidence.{
  latest_run_id, has_planner_skip_proposal, has_explanation_workflow, has_real_sandbox_pass,
  count_human_feedback, evaluation_feedback_from_review,
}
use code_co_driver.Runtime.Evaluations.{record_eval_note}
use code_co_driver.Agents.Values.{
  Codec, Value, Fields, text, object, no_fields, field, marshal_artifact,
}
use code_co_driver.Runtime.HumanReview.{note_artifact, resolve_human_review}

-- `maxEvaluationFeedbackTurns`
abbrev pub max_evaluation_feedback_turns : ℕ
max_evaluation_feedback_turns = 2

module _ {F : Type 0} (f : Float F) (u : Unicode) (codec : Codec F) where
  -- The last part of `ContinueTaskWithFeedback`.
  unfoldable pub restart_with_feedback :
      ℕ → Service F (Value F) → Task → String → Outcome ServiceError Task × Service F (Value F)
  unfolding note_artifact enqueue
  restart_with_feedback now s t feedback =
      let run_id = latest_run_id u codec s.store t.id in
      let content : Fields F =
        field "feedback" (text feedback) (field "source_run_id" (text run_id) no_fields) in
      let m1 =
        note_artifact f u codec now s.store t.id run_id "human_feedback" "human-feedback.json"
          (marshal_artifact codec (object content)) in
      (
        ok (record t { status = created; error = "" }),
        enqueue (record s { store = update_task now m1 t.id created "" }) t.id,
      )

  -- The tasks that may be continued.
  unfoldable pub may_continue : Memory F (Value F) → Task → Bool
  may_continue m t = elim t.status [
    | human_review ↦ true
    | completed ↦ has_explanation_workflow u codec m t.id
    | _ ↦ false
  ]

  -- `ContinueTaskWithFeedback`, with the task that the store answers.
  unfoldable pub continue_found :
      ℕ
      → Service F (Value F)
      → String
      → Outcome StoreError Task
      → Outcome ServiceError Task × Service F (Value F)
  unfolding restart_with_feedback may_continue
  continue_found now s feedback (err e) = (err missing, s)
  continue_found now s feedback (ok t) =
      if not (may_continue s.store t)
      then (err not_waiting, s)
      else if is_empty (trim_space feedback)
      then (err feedback_required, s)
      else restart_with_feedback now s t (trim_space feedback)

  -- `ContinueTaskWithFeedback`
  unfoldable pub continue_task_with_feedback :
      ℕ → Service F (Value F) → String → String → Outcome ServiceError Task × Service F (Value F)
  unfolding continue_found
  continue_task_with_feedback now s task_id feedback =
      continue_found now s feedback (task s.store task_id)

  unfoldable pub with_note : Service F (Value F) → EvaluationRun → String → Service F (Value F)
  with_note s run note = record s { store = record_eval_note f u codec s.store run note }

  -- The note on the first run of a task, as it is listed after the rejection.
  unfoldable pub note_first :
      Service F (Value F) → Option EvaluationRun → String → Service F (Value F)
  unfolding with_note
  note_first s none note = s
  note_first s (some run) note = with_note s run note

  -- The decisions of `maybeAutoHandleEvaluationHumanReview` for a proposal to skip.
  unfoldable pub auto_handle_skip :
      ℕ → Service F (Value F) → Task → EvaluationRun → Service F (Value F)
  unfolding with_note continue_task_with_feedback resolve_human_review
  auto_handle_skip now s t run =
      if ltb (count_human_feedback u codec s.store t.id) max_evaluation_feedback_turns
      then (continue_task_with_feedback now (with_note s run "auto_feedback_skip") t.id
          "Continue and perform the task normally; do not skip.").1
      else (resolve_human_review f u codec now (with_note s run "auto_approved_skip") t.id true
          "eval auto-approve duplicate skip").1

  -- Its decision where no feedback is given.
  unfoldable pub auto_decide : ℕ → Service F (Value F) → Task → EvaluationRun → Service F (Value F)
  unfolding with_note note_first resolve_human_review
  auto_decide now s t run =
      let rejected =
        (resolve_human_review f u codec now s t.id false
          "eval auto-reject: no real sandbox validation passed").1 in
      if has_real_sandbox_pass u codec s.store t.id
      then (resolve_human_review f u codec now (with_note s run "auto_approved") t.id true
          "eval auto-approve after human review").1
      else note_first rejected
          (find_first (λ (item : EvaluationRun). item.task_id == t.id)
            (all_evaluation_runs rejected.store))
          "auto_rejected_no_sandbox"

  unfoldable pub auto_handle_found :
      ℕ → Service F (Value F) → Task → Option EvaluationRun → Service F (Value F)
  unfolding auto_handle_skip auto_decide
  auto_handle_found now s t none = s
  auto_handle_found now s t (some run) =
      let feedback = evaluation_feedback_from_review u codec s.store t.id in
      if has_planner_skip_proposal u codec s.store t.id
      then auto_handle_skip now s t run
      else if ltb (count_human_feedback u codec s.store t.id) max_evaluation_feedback_turns
          && not (is_empty feedback)
      then (continue_task_with_feedback now (with_note s run "auto_feedback") t.id feedback).1
      else auto_decide now s t run

  -- `maybeAutoHandleEvaluationHumanReview`
  unfoldable pub maybe_auto_handle_evaluation_human_review :
      ℕ → Service F (Value F) → Task → Service F (Value F)
  unfolding auto_handle_found
  maybe_auto_handle_evaluation_human_review now s t = auto_handle_found now s t (
      find_first
        (λ (item : EvaluationRun). item.task_id == t.id && item.status == "human_review_required")
        (all_evaluation_runs s.store))
