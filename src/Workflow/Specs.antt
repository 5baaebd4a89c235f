-- ===== src/Workflow/Specs.antt =====
-- internal/runtime/workflow.go: the workflows and their nodes. The configuration of a decision, which
-- no code reads, is left out of the node.
use code_co_driver.Prelude.{
  is_some, if◌then◌else◌, find_first, ℕ, String, Bool, Option, List, [], ◌∷◌, ◌==◌,
}
use code_co_driver.Prelude.Dict.{Dict}
use code_co_driver.Domain.{TaskStatus, created, planning, retrieving_context, explaining}

pub data WorkflowNodeKind : Type 0 where
  agent decision patch_loop finish : WorkflowNodeKind

pub record WorkflowNode : Type 0 where
  pub id : String
  pub kind : WorkflowNodeKind
  pub agent_name : String
  pub status : TaskStatus
  pub next : String
  pub next_by_key : Dict String

pub record WorkflowSpec : Type 0 where
  pub name : String
  pub initial : String
  pub nodes : List WorkflowNode
  pub max_patch_attempts : ℕ
  pub terminal : String

-- `maxPatchAttempts`, `maxWorkflowSteps`
abbrev pub max_patch_attempts : ℕ
max_patch_attempts = 3

abbrev pub max_workflow_steps : ℕ
max_workflow_steps = 64

-- `node`
unfoldable pub node : WorkflowSpec → String → Option WorkflowNode
node spec id = find_first (λ (n : WorkflowNode). n.id == id) spec.nodes

-- `hasNode`
unfoldable pub has_node : WorkflowSpec → String → Bool
unfolding node
has_node spec id = is_some (node spec id)

abbrev pub codebase_node : String → Dict String → WorkflowNode
codebase_node next next_by_key = record {
  id = "codebase";
  kind = agent;
  agent_name = "codebase";
  status = retrieving_context;
  next = next;
  next_by_key = next_by_key;
}

abbrev pub explainer_node : WorkflowNode
explainer_node = record {
  id = "explainer";
  kind = agent;
  agent_name = "explainer";
  status = explaining;
  next = "finish";
  next_by_key = [];
}

abbrev pub patch_loop_node : WorkflowNode
patch_loop_node = record {
  id = "patch_loop";
  kind = patch_loop;
  agent_name = "";
  status = created;
  next = "finish";
  next_by_key = [];
}

abbrev pub finish_node : WorkflowNode
finish_node = record {
  id = "finish";
  kind = finish;
  agent_name = "";
  status = created;
  next = "";
  next_by_key = [];
}

abbrev pub orchestrator_node : WorkflowNode
orchestrator_node = record {
  id = "orchestrator";
  kind = decision;
  agent_name = "orchestrator";
  status = planning;
  next = "codebase";
  next_by_key = [];
}

-- `standardWorkflowSpec`
abbrev pub standard_workflow_spec : WorkflowSpec
standard_workflow_spec = record {
  name = "standard_agent_loop";
  initial = "codebase";
  nodes = codebase_node "patch_loop" [] ∷ patch_loop_node ∷ finish_node ∷ [];
  max_patch_attempts = max_patch_attempts;
  terminal = "finish";
}

-- `explanationWorkflowSpec`
abbrev pub explanation_workflow_spec : WorkflowSpec
explanation_workflow_spec = record {
  name = "explanation_agent_loop";
  initial = "codebase";
  nodes = codebase_node "explainer" [] ∷ explainer_node ∷ finish_node ∷ [];
  max_patch_attempts = 0;
  terminal = "finish";
}

-- `dynamicWorkflowSpec`
abbrev pub dynamic_workflow_spec : WorkflowSpec
dynamic_workflow_spec = record {
  name = "dynamic_agent_loop";
  initial = "orchestrator";
  nodes =
      orchestrator_node
      ∷ codebase_node "patch_loop" (("explainer", "explainer") ∷ [])
      ∷ explainer_node
      ∷ patch_loop_node
      ∷ finish_node
      ∷ [];
  max_patch_attempts = max_patch_attempts;
  terminal = "finish";
}

-- `workflowSpecFor`
unfoldable pub workflow_spec_for : String → WorkflowSpec
workflow_spec_for name =
    if name == "explanation_agent_loop"
    then explanation_workflow_spec
    else if name == "dynamic_agent_loop"
    then dynamic_workflow_spec
    else standard_workflow_spec
