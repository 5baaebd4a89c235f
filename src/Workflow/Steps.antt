-- ===== src/Workflow/Steps.antt =====
-- internal/runtime/service.go: one step of an agent, `runAgentStep`. The agents, the clock, the
-- workspaces and the indexer are parameters that act on a world. An agent also answers the service
-- as it is afterwards: it may record tool calls, and other requests may be served meanwhile.
use code_co_driver.Prelude.{
  nat_eq, if◌then◌else◌, Outcome, ok, err, ℕ, zero, suc, String, Bool, not, Option, none, some,
  List, [], ◌∷◌, ◌==◌,
}
use code_co_driver.Prelude.Text.{is_empty, join}
use code_co_driver.Prelude.Decimal.{decimal}
use code_co_driver.Domain.{Task, TaskStatus, TaskStep, Repository, RepositoryFile, Symbol}
use code_co_driver.Store.{
  Memory, StoreError, not_found, stale_run, update_task, update_task_for_run, files, symbols,
  artifacts, add_step, add_artifact,
}
use code_co_driver.Store.Ids.{id}
use code_co_driver.Runtime.{Service, status_text, elapsed_ms}
use code_co_driver.Agents.Values.{
  Value, Fields, text, number, object, null, no_fields, field, lookup, assign, as_text,
}
use code_co_driver.Agents.Requests.{AgentRequest, AgentResult}

-- What a step leaves: its result, the service, and the world.
abbrev pub Ran : Type 0 → Type 0 → Type 0 → Type 0
Ran F W A = (Outcome String A × Service F (Value F)) × W

pub record Agent (F W : Type 0) : Type 0 where
  pub name : String
  pub run : AgentRequest F → Service F (Value F) → W → Ran F W (AgentResult F)

-- The agents of the service and what else it calls. `open_workspace` is the factory, if there is
-- one; `reset_workspace` answers the text of its error.
pub record Surroundings (F W : Type 0) : Type 0 where
  pub now : W → ℕ × W
  pub planner : Agent F W
  pub codebase : Option (Agent F W)
  pub explainer : Option (Agent F W)
  pub orchestrator : Option (Agent F W)
  pub patch : Agent F W
  pub test : Agent F W
  pub reviewer : Agent F W
  pub open_workspace : Option (String → W → Outcome String ℕ × W)
  pub reset_workspace : ℕ → W → Option String × W
  pub close_workspace : ℕ → W → W
  pub index : Repository → W → Outcome String ((Repository × List RepositoryFile) × List Symbol) × W

-- What stays the same while a task is executed. `claimed` says whether the task is under a lease.
pub record Job : Type 0 where
  pub task : Task
  pub repository : Repository
  pub run_id : String
  pub token : ℕ
  pub claimed : Bool
  pub workspace : Option ℕ

-- The texts of `ErrNotFound` and `ErrStaleRun`.
abbrev pub store_error_text : StoreError → String
store_error_text not_found = "not found"
store_error_text stale_run = "stale run token"

-- The name of the artifact of a step.
abbrev pub attempt_name : ℕ → String → String
attempt_name zero name = name
attempt_name (suc n) name = join ("attempt-" ∷ decimal (suc n) ∷ "-" ∷ name ∷ []) ""

module _ {F : Type 0} where
  -- What a step was given.
  unfoldable pub step_input : Task → ℕ → Fields F → Fields F
  step_input t attempt context =
      let input : Fields F =
        field "task" (text t.description) (field "attempt" (number attempt) no_fields) in
      elim (as_text (lookup context "selected_skill")) [
        | none ↦ input
        | some selected ↦ assign input "selected_skill" (text selected)
      ]

  -- The status, the output and the error of a step.
  abbrev pub step_outcome : Outcome String (AgentResult F) → (String × Value F) × String
  step_outcome (ok result) = (("COMPLETED", result.output), "")
  step_outcome (err e) = (("FAILED", null), e)

  -- The artifact of a step that succeeded and has one.
  unfoldable pub store_artifact :
      ℕ → Job → ℕ → Outcome String (AgentResult F) → Memory F (Value F) → Memory F (Value F)
  store_artifact ended job attempt (err e) m = m
  store_artifact ended job attempt (ok result) m =
      let (artifact_id, m') = id m "artifact" in
      if is_empty result.artifact_type
      then m
      else add_artifact m' (record {
        id = artifact_id;
        task_id = job.task.id;
        run_id = job.run_id;
        type = result.artifact_type;
        name = attempt_name attempt result.artifact_name;
        content = result.artifact_content;
        created_at = ended;
      })

  -- `updateTask` and the first lines of `runAgentStep`: the write that the token guards, if any.
  unfoldable pub write_status :
      ℕ
      → Service F (Value F)
      → Job
      → Bool
      → TaskStatus
      → String
      → Memory F (Value F) × Option StoreError
  write_status now s job guarded status error =
      if guarded
      then update_task_for_run now s.store job.task.id job.run_id job.token status error
      else (update_task now s.store job.task.id status error, none)

module _ {F W : Type 0} where
  -- `if err != nil { return …, err }`
  abbrev pub and_then :
      {A B : Type 0} → Ran F W A → (A → Service F (Value F) → W → Ran F W B) → Ran F W B
  and_then ((err e, s), w) next = ((err e, s), w)
  and_then ((ok a, s), w) next = next a s w

  -- What is stored of a step once the agent has answered.
  unfoldable pub record_step :
      Surroundings F W
      → Job
      → TaskStatus
      → String
      → Fields F
      → ℕ
      → ℕ
      → String
      → Ran F W (AgentResult F)
      → Ran F W (AgentResult F)
  unfolding step_input store_artifact
  record_step env job status name context attempt started step_id ((answer, s), w) =
      let (ended, w') = env.now w in
      let ((step_status, output), error) = step_outcome answer in
      let step : TaskStep (Value F) = record {
        id = step_id;
        task_id = job.task.id;
        run_id = job.run_id;
        agent_name = name;
        step_type = status_text status;
        status = step_status;
        input = object (step_input job.task attempt context);
        output = output;
        error = error;
        started_at = started;
        ended_at = ended;
        latency_ms = elapsed_ms started ended;
      } in
      (
        (
          answer,
          record s { store = store_artifact ended job attempt answer (add_step s.store step) },
        ),
        w',
      )

  -- The part of `runAgentStep` behind the write of the task's status.
  unfoldable pub ask_agent :
      Surroundings F W
      → Job
      → TaskStatus
      → Agent F W
      → Fields F
      → ℕ
      → ℕ
      → Service F (Value F)
      → W
      → Ran F W (AgentResult F)
  unfolding record_step
  ask_agent env job status a context attempt started s w =
      let (step_id, m) = id s.store "step" in
      let request : AgentRequest F = record {
        task = job.task;
        repository = job.repository;
        files = files s.store job.repository.id;
        symbols = symbols s.store job.repository.id;
        artifacts = if a.name == "planner" then artifacts m job.task.id else [];
        context = context;
        attempt = attempt;
        workspace = job.workspace;
      } in
      record_step env job status a.name context attempt started step_id
        (a.run request (record s { store = m }) w)

  unfoldable pub step_written :
      Surroundings F W
      → Job
      → TaskStatus
      → Agent F W
      → Fields F
      → ℕ
      → ℕ
      → Service F (Value F)
      → W
      → Memory F (Value F) × Option StoreError
      → Ran F W (AgentResult F)
  unfolding ask_agent
  step_written env job status a context attempt now s w (m, some e) =
      ((err (store_error_text e), record s { store = m }), w)
  step_written env job status a context attempt now s w (m, none) =
      ask_agent env job status a context attempt now (record s { store = m }) w

  -- `runAgentStep`
  unfoldable pub run_agent_step :
      Surroundings F W
      → Job
      → TaskStatus
      → Agent F W
      → Fields F
      → ℕ
      → Service F (Value F)
      → W
      → Ran F W (AgentResult F)
  unfolding write_status step_written
  run_agent_step env job status a context attempt s w =
      let (now, w') = env.now w in
      step_written env job status a context attempt now s w'
        (write_status now s job (not (nat_eq job.token 0)) status "")
