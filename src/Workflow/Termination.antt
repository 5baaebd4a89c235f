-- ===== src/Workflow/Termination.antt =====
-- internal/runtime/workflow.go: the loop over the nodes ends of itself.
use code_co_driver.Prelude.{
  Bool-cases, is_some, if◌then◌else◌, All, ok, err, ℕ, zero, suc, ◌≤◌, ◌<◌, String, ◌≡◌, refl, ◌⊎◌,
  inl, inr, Bool, true, false, Option, none, some, [], arith, ◌==◌,
}
use mathlib.Core.Path.{subst}
use code_co_driver.Prelude.Text.{Unicode, is_empty}
use code_co_driver.Prelude.Dict.{get}
use code_co_driver.Runtime.{Service}
use code_co_driver.Agents.Values.{Codec, Value, Fields, lookup, as_text, assign}
use code_co_driver.Agents.Requests.{AgentResult}
use code_co_driver.Workflow.Specs.{
  WorkflowNodeKind, WorkflowNode, WorkflowSpec, agent, decision, patch_loop, finish, node, has_node,
  max_workflow_steps, dynamic_workflow_spec, workflow_spec_for, standard_workflow_spec,
  explanation_workflow_spec,
}
use code_co_driver.Workflow.Steps.{Ran, Agent, Surroundings, Job, run_agent_step}
use code_co_driver.Workflow.PatchLoop.{run_patch_loop}
use code_co_driver.Workflow.Closed.{is_orderly, find_node, run_nodes-closed}
use code_co_driver.Workflow.Nodes.{
  Ending, failing, finishing, unknown_node, unconfigured_agent, no_next_step, invalid_decision,
  too_many_steps, step_failed, next_of, after_agent, after_patch_loop, run_agent_node, run_node,
  run_found, run_nodes, next_turn,
}

-- What a node of a kind needs so that it leads down in a ranking of the nodes.
abbrev IsRankedAs : WorkflowSpec → (String → ℕ) → WorkflowNode → WorkflowNodeKind → Type 0
IsRankedAs spec rank n agent =
    (is_empty n.next ≡ false)
    × (has_node spec n.next ≡ true)
    × (rank n.next < rank n.id)
    × (n.next_by_key ≡ [])
IsRankedAs spec rank n decision = ⊥
IsRankedAs spec rank n patch_loop = Unit
IsRankedAs spec rank n finish = Unit

abbrev IsRanked : WorkflowSpec → (String → ℕ) → Type 0
IsRanked spec rank = All (λ (n : WorkflowNode). IsRankedAs spec rank n n.kind) spec.nodes

is_orderly-weaken :
    {F : Type 0} (dynamic : Bool) (ending : Ending F)
    → is_orderly false ending ≡ true
    → is_orderly dynamic ending ≡ true
is_orderly-weaken dynamic (failing (unknown_node id)) h = h
is_orderly-weaken dynamic (failing (no_next_step id)) h = h
is_orderly-weaken dynamic (failing (invalid_decision d)) h = cc
is_orderly-weaken dynamic (failing too_many_steps) h = cc
is_orderly-weaken dynamic (failing (unconfigured_agent name)) h = h
is_orderly-weaken dynamic (failing (step_failed e)) h = h
is_orderly-weaken dynamic (finishing status final context) h = h

-- How far a node of these workflows is from the end.
abbrev stage : String → ℕ
stage id = if id == "codebase" then 2 else if id == "finish" then 0 else 1

module _ {F W : Type 0} (u : Unicode) (codec : Codec F) (env : Surroundings F W) (job : Job) where
  -- A turn that ends orderly or leads to a node further down.
  abbrev GoesDown :
      WorkflowSpec
      → (String → ℕ)
      → ℕ
      → (Ending F ⊎ (String × Fields F)) × (Service F (Value F) × W)
      → Type 0
  GoesDown spec rank bound (inl ending, rest) = is_orderly false ending ≡ true
  GoesDown spec rank bound (inr (next, context), rest) =
      (has_node spec next ≡ true) × (rank next < bound)

  next_of-next :
      (n : WorkflowNode) (context : Fields F)
      → n.next_by_key ≡ []
      → next_of u codec env job n context ≡ n.next
  unfolding next_of get
  next_of-next n context e = go (as_text (lookup context "workflow_target"))
    where
      go :
          (target : Option String)
          → elim target [
            | none ↦ n.next
            | some t ↦ elim (get n.next_by_key t) [ none ↦ n.next | some next ↦ next ]
          ]
            ≡ n.next
      go none = refl
      go (some t) = rw e refl

  after_agent-GoesDown :
      (spec : WorkflowSpec) (rank : String → ℕ) (n : WorkflowNode) (context : Fields F)
      (r : Ran F W (AgentResult F))
      → IsRankedAs spec rank n agent
      → GoesDown spec rank (rank n.id) (after_agent u codec env job n context r)
  unfolding after_agent
  after_agent-GoesDown spec rank n context ((err e, s), w) k = refl
  after_agent-GoesDown spec rank n context ((ok result, s), w) k =
      rw (next_of-next n (assign context n.agent_name result.output) k.3, k.0) (k.1, k.2)

  after_patch_loop-GoesDown :
      (spec : WorkflowSpec) (rank : String → ℕ) (bound : ℕ) (r : Ran F W (String × Fields F))
      → GoesDown spec rank bound (after_patch_loop u codec env job r)
  unfolding after_patch_loop
  after_patch_loop-GoesDown spec rank bound ((err e, s), w) = refl
  after_patch_loop-GoesDown spec rank bound ((ok (final, context), s), w) = refl

  run_agent_node-GoesDown :
      (spec : WorkflowSpec) (rank : String → ℕ) (n : WorkflowNode) (context : Fields F)
      (s : Service F (Value F)) (w : W) (a : Option (Agent F W))
      → IsRankedAs spec rank n agent
      → GoesDown spec rank (rank n.id) (run_agent_node u codec env job n context s w a)
  unfolding run_agent_node
  run_agent_node-GoesDown spec rank n context s w none k = refl
  run_agent_node-GoesDown spec rank n context s w (some a) k =
      after_agent-GoesDown spec rank n context (run_agent_step env job n.status a context 0 s w) k

  run_node-GoesDown :
      (spec : WorkflowSpec) (rank : String → ℕ) (n : WorkflowNode) (kind : WorkflowNodeKind)
      (context : Fields F) (s : Service F (Value F)) (w : W)
      → IsRankedAs spec rank n kind
      → GoesDown spec rank (rank n.id) (run_node u codec env job spec n kind context s w)
  unfolding run_node
  run_node-GoesDown spec rank n agent context s w k =
      run_agent_node-GoesDown spec rank n context s w _ k
  run_node-GoesDown spec rank n decision context s w k = absurd k
  run_node-GoesDown spec rank n patch_loop context s w k =
      after_patch_loop-GoesDown spec rank (rank n.id)
        (run_patch_loop u env job spec.max_patch_attempts context s w)
  run_node-GoesDown spec rank n finish context s w k = refl

  run_found-GoesDown :
      (spec : WorkflowSpec) (rank : String → ℕ) (current : String) (context : Fields F)
      (s : Service F (Value F)) (w : W) (found : Option WorkflowNode)
      → IsRanked spec rank
      → is_some found ≡ true
      → node spec current ≡ found
      → GoesDown spec rank (rank current) (run_found u codec env job spec current context s w found)
  unfolding run_found node
  run_found-GoesDown spec rank current context s w none k h e = grind arith
  run_found-GoesDown spec rank current context s w (some n) k h e =
      let (ranked, named) =
        find_node (λ x. IsRankedAs spec rank x x.kind) current spec.nodes n k e in
      subst
        (λ id. GoesDown spec rank (rank id) (run_node u codec env job spec n n.kind context s w))
        named (run_node-GoesDown spec rank n n.kind context s w ranked)

  next_turn-orderly :
      (spec : WorkflowSpec) (rank : String → ℕ) (steps bound : ℕ)
      (go : String → Fields F → Service F (Value F) → W → Ending F × (Service F (Value F) × W))
      → ((next : String) (context : Fields F) (s : Service F (Value F)) (w : W)
          → has_node spec next ≡ true
          → rank next < steps
          → is_orderly false (go next context s w).0 ≡ true)
      → bound ≤ steps
      → (turn : (Ending F ⊎ (String × Fields F)) × (Service F (Value F) × W))
      → GoesDown spec rank bound turn
      → is_orderly false (next_turn u codec env job go turn).0 ≡ true
  unfolding next_turn
  next_turn-orderly spec rank steps bound go rec le (inl ending, rest) g = g
  next_turn-orderly spec rank steps bound go rec le (inr (next, context), (s, w)) g =
      rec next context s w g.0 (omega (arith, g.1))

  run_nodes-orderly :
      (spec : WorkflowSpec) (rank : String → ℕ) (steps : ℕ) (current : String) (context : Fields F)
      (s : Service F (Value F)) (w : W)
      → IsRanked spec rank
      → has_node spec current ≡ true
      → rank current < steps
      → is_orderly false (run_nodes u codec env job spec steps current context s w).0 ≡ true
  unfolding run_nodes has_node
  run_nodes-orderly spec rank zero current context s w k h below = absurd (omega arith)
  run_nodes-orderly spec rank (suc steps) current context s w k h below =
      next_turn-orderly spec rank steps (rank current) _
        (λ next context' s' w' h' below'.
          run_nodes-orderly spec rank steps next context' s' w' k h' below')
        (omega arith) (run_found u codec env job spec current context s w (node spec current))
        (run_found-GoesDown spec rank current context s w (node spec current) k h refl)

  -- Every workflow, also one under a name that is not known, ends in a status or in the error of a
  -- step or of a missing agent: it neither names a node that is not there nor finds no next one, and
  -- but for the dynamic workflow, in which an agent decides the way, it takes no decision for a node
  -- that is not there and has enough of the steps that it is given. So it is whatever the agents
  -- answer.
  pub workflow_ends :
      (name : String) (context : Fields F) (s : Service F (Value F)) (w : W)
      → is_orderly
          (name == "dynamic_agent_loop")
          (run_nodes u codec env job
            (workflow_spec_for name)
            max_workflow_steps
            (workflow_spec_for name).initial
            context
            s
            w).0
        ≡ true
  unfolding workflow_spec_for has_node node
  workflow_ends name context s w = elim (Bool-cases (name == "explanation_agent_loop")) [
    | inl e ↦ rw e (
        is_orderly-weaken _ _ (
          run_nodes-orderly explanation_workflow_spec stage max_workflow_steps "codebase" context s
            w ((refl, refl, omega arith, refl), ((refl, refl, omega arith, refl), (tt, tt))) refl
            (omega arith)))
    | inr e ↦ elim (Bool-cases (name == "dynamic_agent_loop")) [
      | inl h ↦
          rw (e, h)
            (run_nodes-closed u codec env job dynamic_workflow_spec max_workflow_steps
              "orchestrator" context s w
              (tt, (((refl, refl), ((refl, refl), tt)), (((refl, refl), tt), (tt, (tt, tt))))) refl)
      | inr h ↦
          rw (e, h)
            (run_nodes-orderly standard_workflow_spec stage max_workflow_steps "codebase" context s
              w ((refl, refl, omega arith, refl), (tt, (tt, tt))) refl (omega arith))
    ]
  ]
