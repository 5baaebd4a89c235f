-- ===== src/Workflow/Nodes.antt =====
-- internal/runtime/workflow.go: the loop of `executeWorkflow` over the nodes. How it ends is a value;
-- Workflow/Execution does what the source does at each end.
use code_co_driver.Prelude.{
  if◌then◌else◌, ok, err, ℕ, zero, suc, String, ◌⊎◌, inl, inr, ◌||◌, not, Option, none, some, [],
  ◌∷◌, ◌==◌,
}
use code_co_driver.Prelude.Text.{Unicode, is_empty, join}
use code_co_driver.Prelude.Dict.{get}
use code_co_driver.Domain.{TaskStatus, completed, human_review}
use code_co_driver.Runtime.{Service}
use code_co_driver.Agents.Values.{
  Codec, Value, Fields, WorkflowDecision, text, workflow_decision, lookup, assign, as_text,
}
use code_co_driver.Agents.Requests.{AgentResult, review_approve, review_human_required}
use code_co_driver.Agents.Review.{parse_workflow_decision}
use code_co_driver.Workflow.Specs.{
  WorkflowNodeKind, WorkflowNode, WorkflowSpec, agent, decision, patch_loop, finish, node, has_node,
}
use code_co_driver.Workflow.Steps.{Ran, Agent, Surroundings, Job, run_agent_step}
use code_co_driver.Workflow.PatchLoop.{run_patch_loop}

-- The errors of the workflow itself, and one that a step answered.
pub data WorkflowError : Type 0 where
  unknown_node unconfigured_agent no_next_step : String → WorkflowError
  invalid_decision : WorkflowDecision → WorkflowError
  too_many_steps : WorkflowError
  step_failed : String → WorkflowError

-- How the loop ends: with an error, or with the status, the decision and the context of the task.
pub data Ending (F : Type 0) : Type 0 where
  failing : WorkflowError → Ending F
  finishing : TaskStatus → String → Fields F → Ending F

module _ {F W : Type 0} (u : Unicode) (codec : Codec F) (env : Surroundings F W) (job : Job) where
  -- `agentForName`
  unfoldable pub agent_for_name : String → Option (Agent F W)
  agent_for_name name =
      if name == "planner"
      then some env.planner
      else if name == "codebase"
      then env.codebase
      else if name == "explainer"
      then env.explainer
      else if name == "patch"
      then some env.patch
      else if name == "test"
      then some env.test
      else if name == "reviewer"
      then some env.reviewer
      else if name == "orchestrator"
      then env.orchestrator
      else none

  -- The decision with the defaults for the fields that the answer lacks.
  unfoldable pub defaulted : WorkflowNode → WorkflowDecision → WorkflowDecision
  defaulted n d = record d {
    next = if is_empty d.next then n.next else d.next;
    target = if is_empty d.target then "patch_loop" else d.target;
  }

  -- What the agent of a decision node answers, in the context and as a decision.
  unfoldable pub decided :
      WorkflowNode → Fields F → Ran F W (AgentResult F) → Ran F W (WorkflowDecision × Fields F)
  unfolding defaulted
  decided n context ((err e, s), w) = ((err e, s), w)
  decided n context ((ok result, s), w) = (
    (
      ok (
        defaulted n (parse_workflow_decision codec result.output),
        assign context "orchestrator" result.output,
      ),
      s,
    ),
    w,
  )

  -- `runWorkflowDecision`; the error for a missing agent is the only one of its own.
  unfoldable pub run_workflow_decision :
      WorkflowNode
      → Fields F
      → Service F (Value F)
      → W
      → Option (Agent F W)
      → Ran F W (WorkflowDecision × Fields F)
  unfolding decided
  run_workflow_decision n context s w none =
      if is_empty n.next
      then (
        (
          err (
              join
                ("workflow decision agent " ∷ codec.quote n.agent_name ∷ " is not configured" ∷ [])
                ""),
          s,
        ),
        w,
      )
      else (
        (
          ok (
            record {
              decision = "fallback";
              next = n.next;
              target = "patch_loop";
              reason = "orchestrator agent is not configured";
            },
            context,
          ),
          s,
        ),
        w,
      )
  run_workflow_decision n context s w (some a) =
      decided n context (run_agent_step env job n.status a context 0 s w)

  -- The node behind an agent node.
  unfoldable pub next_of : WorkflowNode → Fields F → String
  next_of n context = elim (as_text (lookup context "workflow_target")) [
    | none ↦ n.next
    | some target ↦ elim (get n.next_by_key target) [ none ↦ n.next | some next ↦ next ]
  ]

  -- The end of the patch loop.
  unfoldable pub loop_ending : String → TaskStatus
  loop_ending final = if final == review_approve then completed else human_review

  -- What a turn of the loop leads to: its end, or the next node with the context.
  unfoldable pub after_agent :
      WorkflowNode
      → Fields F
      → Ran F W (AgentResult F)
      → (Ending F ⊎ (String × Fields F)) × (Service F (Value F) × W)
  unfolding next_of
  after_agent n context ((err e, s), w) = (inl (failing (step_failed e)), (s, w))
  after_agent n context ((ok result, s), w) =
      let held = assign context n.agent_name result.output in
      let next = next_of n held in
      (if is_empty next then inl (failing (no_next_step n.id)) else inr (next, held), (s, w))

  unfoldable pub after_decision :
      WorkflowSpec
      → WorkflowNode
      → Ran F W (WorkflowDecision × Fields F)
      → (Ending F ⊎ (String × Fields F)) × (Service F (Value F) × W)
  after_decision spec n ((err e, s), w) = (inl (failing (step_failed e)), (s, w))
  after_decision spec n ((ok (d, context), s), w) =
      let held =
        assign (assign context "workflow_decision" (workflow_decision d)) "workflow_target"
          (text d.target) in
      let next = if is_empty d.next then n.next else d.next in
      (
        if is_empty next || not (has_node spec next)
            then inl (failing (invalid_decision d))
            else if next == "finish"
            then inl (finishing human_review review_human_required held)
            else inr (next, held),
        (s, w),
      )

  unfoldable pub after_patch_loop :
      Ran F W (String × Fields F) → (Ending F ⊎ (String × Fields F)) × (Service F (Value F) × W)
  unfolding loop_ending
  after_patch_loop ((err e, s), w) = (inl (failing (step_failed e)), (s, w))
  after_patch_loop ((ok (final, context), s), w) =
      (inl (finishing (loop_ending final) final context), (s, w))

  unfoldable pub run_agent_node :
      WorkflowNode
      → Fields F
      → Service F (Value F)
      → W
      → Option (Agent F W)
      → (Ending F ⊎ (String × Fields F)) × (Service F (Value F) × W)
  unfolding after_agent
  run_agent_node n context s w none = (inl (failing (unconfigured_agent n.agent_name)), (s, w))
  run_agent_node n context s w (some a) =
      after_agent n context (run_agent_step env job n.status a context 0 s w)

  -- One turn of the loop.
  unfoldable pub run_node :
      WorkflowSpec
      → WorkflowNode
      → WorkflowNodeKind
      → Fields F
      → Service F (Value F)
      → W
      → (Ending F ⊎ (String × Fields F)) × (Service F (Value F) × W)
  unfolding agent_for_name run_agent_node run_workflow_decision after_decision after_patch_loop
  run_node spec n agent context s w = run_agent_node n context s w (agent_for_name n.agent_name)
  run_node spec n decision context s w =
      after_decision spec n (run_workflow_decision n context s w (agent_for_name n.agent_name))
  run_node spec n patch_loop context s w =
      after_patch_loop (run_patch_loop u env job spec.max_patch_attempts context s w)
  run_node spec n finish context s w = (inl (finishing completed review_approve context), (s, w))

  unfoldable pub run_found :
      WorkflowSpec
      → String
      → Fields F
      → Service F (Value F)
      → W
      → Option WorkflowNode
      → (Ending F ⊎ (String × Fields F)) × (Service F (Value F) × W)
  unfolding run_node
  run_found spec current context s w none = (inl (failing (unknown_node current)), (s, w))
  run_found spec current context s w (some n) = run_node spec n n.kind context s w

  -- The end, or what the next turn leads to.
  unfoldable pub next_turn :
      (String → Fields F → Service F (Value F) → W → Ending F × (Service F (Value F) × W))
      → (Ending F ⊎ (String × Fields F)) × (Service F (Value F) × W)
      → Ending F × (Service F (Value F) × W)
  next_turn go (inl ending, rest) = (ending, rest)
  next_turn go (inr (next, context), (s, w)) = go next context s w

  -- The loop, with so many steps left.
  unfoldable pub run_nodes :
      WorkflowSpec
      → ℕ
      → String
      → Fields F
      → Service F (Value F)
      → W
      → Ending F × (Service F (Value F) × W)
  unfolding run_found next_turn
  run_nodes spec zero current context s w = (failing too_many_steps, (s, w))
  run_nodes spec (suc steps) current context s w =
      next_turn (λ next context' s' w'. run_nodes spec steps next context' s' w')
        (run_found spec current context s w (node spec current))
