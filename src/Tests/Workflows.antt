-- ===== src/Tests/Workflows.antt =====
-- A service whose agents answer at once, and a task that waits for a human.
use code_co_driver.Prelude.{
  nat_eq, if◌then◌else◌, ok, ℕ, ◌+◌, String, ◌≡◌, true, false, none, some, [], ◌==◌,
}
use code_co_driver.Domain.{human_review, created}
use code_co_driver.Store.{Memory, add_task, task, new_memory_with_embedding}
use code_co_driver.Agents.Values.{Value, Report, no_fields, field, text, object, test_report}
use code_co_driver.Runtime.{Service, resolve_human_review}
use code_co_driver.Runtime.ReviewLaws.{Resolves, resolve_human_review-Resolves}
use code_co_driver.Workflow.Specs.{workflow_spec_for, max_workflow_steps, max_patch_attempts}
use code_co_driver.Workflow.Steps.{Agent, Surroundings, Job}
use code_co_driver.Workflow.PatchLoop.{patch_attempts}
use code_co_driver.Workflow.Nodes.{run_nodes}
use code_co_driver.Workflow.Closed.{is_orderly}
use code_co_driver.Workflow.Termination.{workflow_ends}
use code_co_driver.Workflow.Attempts.{Concludes, patch_attempts-Answers}
use code_co_driver.Tests.Data.{floats, ascii, task_in, codec, local_embedding}

abbrev store : Memory ℕ (Value ℕ)
store =
    add_task (new_memory_with_embedding (Value ℕ) local_embedding none)
      (task_in "task-1" human_review 1)

abbrev service : Service ℕ (Value ℕ)
service = record {
  store = store;
  queue = [];
  queued = [];
  leased = false;
  cancel_tasks = [];
  knows_skill = λ name. false;
  has_refiner = false;
  memory_queue = [];
  memory_pending = [];
}

abbrev job : Job
job = record {
  task = task_in "task-1" created 1;
  repository = record {
    id = "repo-1";
    name = "repo";
    path = "/repo";
    test_command = "";
    primary_language = "go";
    file_count = 0;
    indexed_at = 1;
    created_at = 1;
  };
  run_id = "run-1";
  token = 0;
  claimed = false;
  workspace = none;
}

-- An agent that always gives the same answer.
abbrev answering : String → Value ℕ → Agent ℕ ℕ
answering name output = record {
  name = name;
  run = λ request s w. (
    (
      ok (record {
        output = output;
        artifact_type = "";
        artifact_name = "";
        artifact_content = "";
      }),
      s,
    ),
    w,
  );
}

abbrev failed_report : Report
failed_report = record {
  status = "tests_failed";
  patch_extracted = true;
  applied = true;
  test_command = "";
  passed = false;
  changed_files = [];
  output = "";
  error = "";
}

abbrev surroundings : Surroundings ℕ ℕ
surroundings = record {
  now = λ w. (w, w + 1);
  planner = answering "planner" (text "plan");
  codebase = some (answering "codebase" (text "files"));
  explainer = none;
  orchestrator = none;
  patch = answering "patch" (text "diff");
  test = answering "test" (test_report failed_report);
  reviewer = answering "reviewer" (object (field "decision" (text "REQUEST_CHANGES") no_fields));
  open_workspace = none;
  reset_workspace = λ workspace w. (none, w);
  close_workspace = λ workspace w. w;
  index = λ r w. (ok ((r, []), []), w);
}

workflow_ends_example :
    is_orderly
      ("documentation_agent_loop" == "dynamic_agent_loop")
      (run_nodes ascii codec surroundings job
        (workflow_spec_for "documentation_agent_loop")
        max_workflow_steps
        (workflow_spec_for "documentation_agent_loop").initial
        no_fields
        service
        7).0
    ≡ true
workflow_ends_example =
    workflow_ends ascii codec surroundings job "documentation_agent_loop" no_fields service 7

patch_attempts-Answers_example :
    Concludes ascii surroundings job
      (if nat_eq 3 0 then max_patch_attempts else 3)
      no_fields
      service
      7
      (patch_attempts ascii surroundings job 3 no_fields service 7)
patch_attempts-Answers_example = patch_attempts-Answers ascii surroundings job 3 no_fields service 7

resolve_human_review-Resolves_example :
    Resolves floats ascii codec 9 service false
      (task service.store "task-1")
      (resolve_human_review floats ascii codec 9 service "task-1" false "no")
resolve_human_review-Resolves_example =
    resolve_human_review-Resolves floats ascii codec 9 service "task-1" false "no"
