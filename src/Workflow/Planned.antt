-- ===== src/Workflow/Planned.antt =====
-- internal/runtime/service.go: what `executeTask` does with the plan, and the skip of a task.
use code_co_driver.Prelude.{
  if◌then◌else◌, Outcome, ok, err, ℕ, String, Option, none, some, [], ◌∷◌, ◌==◌,
}
use code_co_driver.Prelude.Text.{Unicode, join}
use code_co_driver.Prelude.Float.{Float}
use code_co_driver.Domain.{human_review, planning}
use code_co_driver.Store.{Memory, StoreError}
use code_co_driver.Skills.Router.{RouteResult, RouteError}
use code_co_driver.Runtime.{
  Service, finalize_evaluation, maybe_auto_handle_evaluation_human_review, note_artifact,
}
use code_co_driver.Agents.Values.{
  Codec, Value, Fields, text, skill_list, selection, assign, marshal_artifact,
}
use code_co_driver.Agents.Requests.{AgentResult, planner_skip_decision}
use code_co_driver.Agents.Planner.{planner_decision_from_result, planner_skip_reason}
use code_co_driver.Workflow.Steps.{
  Ran, Surroundings, Job, store_error_text, write_status, run_agent_step,
}
use code_co_driver.Workflow.Execution.{
  execute_workflow, fail_now, fail_run, finish_job, route_error_text,
}

module _ {F W : Type 0} (f : Float F) (u : Unicode) (codec : Codec F) (env : Surroundings F W) where
  -- The end of a task of which the planner suggests to skip it.
  unfoldable pub skip_finished :
      ℕ
      → Job
      → Fields F
      → Service F (Value F)
      → Memory F (Value F) × Option StoreError
      → Service F (Value F)
  unfolding fail_run
  skip_finished now job context s (m, some e) =
      fail_run f u codec env now job (store_error_text e) (record s { store = m })
  skip_finished now job context s (m, none) =
      maybe_auto_handle_evaluation_human_review f u codec now
        (record s {
          store = finalize_evaluation f u codec now m job.task human_review (some context);
        })
        job.task

  unfoldable pub skip_written :
      ℕ
      → Job
      → Fields F
      → Service F (Value F)
      → Memory F (Value F) × Option StoreError
      → Service F (Value F)
  unfolding fail_run finish_job skip_finished
  skip_written now job context s (m, some e) =
      fail_run f u codec env now job (store_error_text e) (record s { store = m })
  skip_written now job context s (m, none) =
      skip_finished now job context s (finish_job f u codec env now job human_review m)

  unfoldable pub skip_task :
      Job → Fields F → Value F → Service F (Value F) → W → Service F (Value F) × W
  unfolding skip_written
  skip_task job context plan s w =
      let (now, w') = env.now w in
      let message = join ("planner suggested skip: " ∷ planner_skip_reason plan ∷ []) "" in
      (skip_written now job context s (write_status now s job job.claimed human_review message), w')

  -- What `executeTask` does with the answer of the planner.
  unfoldable pub after_plan :
      Job → String → Fields F → Ran F W (AgentResult F) → Service F (Value F) × W
  unfolding fail_now skip_task execute_workflow
  after_plan job name context ((err e, s), w) = fail_now f u codec env job e s w
  after_plan job name context ((ok result, s), w) =
      let planned = assign (assign context "planner" result.output) "initial_plan" result.output in
      if planner_decision_from_result result.output == planner_skip_decision
      then skip_task job context result.output s w
      else execute_workflow f u codec env job name planned s w

  -- The context with the route, and the artifact of the route.
  unfoldable pub after_route :
      ℕ
      → Job
      → Fields F
      → Service F (Value F)
      → W
      → Outcome RouteError (RouteResult F)
      → Service F (Value F) × W
  unfolding fail_now route_error_text after_plan
  after_route now job context s w (err e) =
      fail_now f u codec env job (route_error_text codec e) s w
  after_route now job context s w (ok result) =
      let routed =
        assign
          (assign
            (assign (assign context "skills" (skill_list result.skills)) "skill_selection"
              (selection result))
            "selected_skill" (text result.primary_skill))
          "selected_workflow" (text result.workflow) in
      let m =
        note_artifact f u codec now s.store job.task.id job.run_id "skill_selection"
          "skill-selection.json" (marshal_artifact codec (selection result)) in
      after_plan job result.workflow routed
        (run_agent_step env job planning env.planner routed 0 (record s { store = m }) w)
