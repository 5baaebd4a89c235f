-- ===== src/Workflow/Execution.antt =====
-- internal/runtime/service.go, `executeTask`, and internal/runtime/workflow.go, `executeWorkflow` and
-- `finishWorkflow`: the execution of a task from its start to its last write.
use code_co_driver.Prelude.{
  if◌then◌else◌, Outcome, ok, err, ℕ, String, Bool, true, false, Option, none, some, List, [], ◌∷◌,
  ◌==◌,
}
use code_co_driver.Prelude.Text.{Unicode, join}
use code_co_driver.Prelude.Float.{Float}
use code_co_driver.Prelude.Decimal.{decimal}
use code_co_driver.Domain.{TaskStatus, MemoryEntry, human_review, memory_mode_without}
use code_co_driver.Store.{Memory, StoreError, finish_run, finish_run_with_token}
use code_co_driver.Store.Ids.{id}
use code_co_driver.Skills.Router.{RouteError, unknown_skill}
use code_co_driver.Runtime.{
  Service, fail_for_run, fail, finalize_evaluation, maybe_auto_handle_evaluation_human_review,
  persist_execution_memories, enqueue_memory_refinement,
}
use code_co_driver.Agents.Values.{
  Codec, Value, Fields, Objects, number, no_objects, lookup, assign, as_history,
}
use code_co_driver.Workflow.Specs.{workflow_spec_for, WorkflowSpec, max_workflow_steps}
use code_co_driver.Workflow.Steps.{Surroundings, Job, store_error_text, write_status}
use code_co_driver.Workflow.Nodes.{
  WorkflowError, Ending, failing, finishing, unknown_node, unconfigured_agent, no_next_step,
  invalid_decision, too_many_steps, step_failed, run_nodes,
}

module _ {F : Type 0} (codec : Codec F) where
  -- The texts of the errors.
  unfoldable pub error_text : String → WorkflowError → String
  error_text name (unknown_node id) =
      join ("workflow " ∷ codec.quote name ∷ " references unknown node " ∷ codec.quote id ∷ []) ""
  error_text name (unconfigured_agent agent) =
      join
        ("workflow " ∷ codec.quote name ∷ " requires unconfigured agent " ∷ codec.quote agent ∷ [])
        ""
  error_text name (no_next_step id) =
      join ("workflow " ∷ codec.quote name ∷ " node " ∷ codec.quote id ∷ " has no next step" ∷ [])
        ""
  error_text name (invalid_decision d) =
      join
        ("workflow "
          ∷ codec.quote name
          ∷ " received invalid decision {Decision:"
          ∷ d.decision
          ∷ " Next:"
          ∷ d.next
          ∷ " Target:"
          ∷ d.target
          ∷ " Reason:"
          ∷ d.reason
          ∷ "}"
          ∷ [])
        ""
  error_text name too_many_steps =
      join
        ("workflow " ∷ codec.quote name ∷ " exceeded " ∷ decimal max_workflow_steps ∷ " steps" ∷ [])
        ""
  error_text name (step_failed e) = e

  unfoldable pub route_error_text : RouteError → String
  route_error_text (unknown_skill name) = join ("unknown skill " ∷ codec.quote name ∷ []) ""

module _ {F W : Type 0} (f : Float F) (u : Unicode) (codec : Codec F) (env : Surroundings F W) where
  -- `failRun`
  unfoldable pub fail_run : ℕ → Job → String → Service F (Value F) → Service F (Value F)
  fail_run now job error s =
      if job.claimed
      then fail_for_run f u codec now s job.task job.run_id job.token error
      else fail f u codec now s job.task job.run_id error

  unfoldable pub fail_now : Job → String → Service F (Value F) → W → Service F (Value F) × W
  unfolding fail_run
  fail_now job error s w = let (now, w') = env.now w in (fail_run now job error s, w')

  -- `workflowHistory`
  unfoldable pub workflow_history : Fields F → Objects F
  workflow_history context = elim (as_history (lookup context "attempt_history")) [
    | none ↦ no_objects
    | some h ↦ h
  ]

  -- The memories of `finishWorkflow`: an error fails the run, a refiner is given the new entries.
  unfoldable pub remember :
      ℕ
      → Job
      → Service F (Value F)
      → Outcome String (List (MemoryEntry F)) × Memory F (Value F)
      → Service F (Value F)
  unfolding fail_run
  remember now job s (err e, m) = fail_run now job e (record s { store = m })
  remember now job s (ok entries, m) = enqueue_memory_refinement (record s { store = m }) entries

  abbrev pub is_human_review : TaskStatus → Bool
  is_human_review human_review = true
  is_human_review _ = false

  -- The part of `finishWorkflow` behind the end of the run.
  unfoldable pub finish_records :
      ℕ → Job → TaskStatus → String → Fields F → Service F (Value F) → Service F (Value F)
  unfolding remember workflow_history
  finish_records now job status final context s =
      let remembered = remember now job s (
        persist_execution_memories f u codec now s.store job.repository job.task job.run_id final
          (workflow_history context) context) in
      let s1 = if job.task.memory_mode == memory_mode_without then s else remembered in
      let s2 = record s1 {
        store = finalize_evaluation f u codec now s1.store job.task status (some context);
      } in
      if is_human_review status
      then maybe_auto_handle_evaluation_human_review f u codec now s2 job.task
      else s2

  -- The end of the run, which the token guards if the task is under a lease.
  unfoldable pub finish_job :
      ℕ → Job → TaskStatus → Memory F (Value F) → Memory F (Value F) × Option StoreError
  finish_job now job status m =
      if job.claimed
      then finish_run_with_token now m job.task.id job.run_id status job.token
      else (finish_run now m job.task.id job.run_id status, none)

  unfoldable pub run_finished :
      ℕ
      → Job
      → TaskStatus
      → String
      → Fields F
      → Service F (Value F)
      → Memory F (Value F) × Option StoreError
      → Service F (Value F)
  unfolding fail_run finish_records
  run_finished now job status final context s (m, some e) =
      fail_run now job (store_error_text e) (record s { store = m })
  run_finished now job status final context s (m, none) =
      finish_records now job status final context (record s { store = m })

  unfoldable pub task_written :
      ℕ
      → Job
      → TaskStatus
      → String
      → Fields F
      → Service F (Value F)
      → Memory F (Value F) × Option StoreError
      → Service F (Value F)
  unfolding fail_run finish_job run_finished
  task_written now job status final context s (m, some e) =
      fail_run now job (store_error_text e) (record s { store = m })
  task_written now job status final context s (m, none) =
      run_finished now job status final context s (finish_job now job status m)

  -- `finishWorkflow`
  unfoldable pub finish_workflow :
      Job → TaskStatus → String → Fields F → Service F (Value F) → W → Service F (Value F) × W
  unfolding task_written
  finish_workflow job status final context s w =
      let (now, w') = env.now w in
      let counted : Fields F = elim (lookup context "repair_attempts") [
        | none ↦ assign context "repair_attempts" (number 0)
        | some n ↦ context
      ] in
      (
        task_written now job status final counted s (write_status now s job job.claimed status ""),
        w',
      )

  -- What `executeWorkflow` does at the end of its loop.
  unfoldable pub end_workflow :
      Job → WorkflowSpec → Ending F × (Service F (Value F) × W) → Service F (Value F) × W
  unfolding fail_now finish_workflow error_text
  end_workflow job spec (failing e, (s, w)) = fail_now job (error_text codec spec.name e) s w
  end_workflow job spec (finishing status final context, (s, w)) =
      finish_workflow job status final context s w

  unfoldable pub run_workflow :
      Job → String → Fields F → Service F (Value F) → W → Service F (Value F) × W
  unfolding end_workflow
  run_workflow job name context s w =
      let spec = workflow_spec_for name in
      end_workflow job spec
        (run_nodes u codec env job spec max_workflow_steps spec.initial context s w)

  -- The workspace of the task is closed behind the workflow.
  unfoldable pub in_workspace :
      Job → String → Fields F → Service F (Value F) → Outcome String ℕ × W → Service F (Value F) × W
  unfolding fail_now run_workflow
  in_workspace job name context s (err e, w) =
      fail_now job (join ("create task workspace: " ∷ e ∷ []) "") s w
  in_workspace job name context s (ok workspace, w) =
      let (s', w') = run_workflow (record job { workspace = some workspace }) name context s w in
      (s', env.close_workspace workspace w')

  -- `executeWorkflow`
  unfoldable pub execute_workflow :
      Job → String → Fields F → Service F (Value F) → W → Service F (Value F) × W
  unfolding in_workspace run_workflow
  execute_workflow job name context s w = elim env.open_workspace [
    | none ↦ run_workflow job name context s w
    | some open_workspace ↦ in_workspace job name context s (open_workspace job.repository.path w)
  ]
