-- ===== src/Workflow/Closed.antt =====
-- internal/runtime/workflow.go: a workflow goes to nodes that it has.
use code_co_driver.Prelude.{
  Bool-cases, is_some, if◌then◌else◌, find_first, All, ok, err, ℕ, zero, suc, String, ◌≡◌, refl,
  ◌⊎◌, inl, inr, Bool, true, false, ◌||◌, not, Option, none, some, List, [], ◌∷◌, arith, ◌==◌,
  eq_iff,
}
use mathlib.Core.Path.{subst}
use mathlib.Core.Option.{some-injective}
use code_co_driver.Prelude.Text.{Unicode, is_empty}
use code_co_driver.Prelude.Dict.{Dict, get}
use code_co_driver.Runtime.{Service}
use code_co_driver.Agents.Values.{WorkflowDecision, Codec, Value, Fields, lookup, as_text, assign}
use code_co_driver.Agents.Requests.{AgentResult}
use code_co_driver.Workflow.Specs.{
  WorkflowNodeKind, WorkflowNode, WorkflowSpec, agent, decision, patch_loop, finish, node, has_node,
}
use code_co_driver.Workflow.Steps.{Ran, Agent, Surroundings, Job, run_agent_step}
use code_co_driver.Workflow.PatchLoop.{run_patch_loop}
use code_co_driver.Workflow.Nodes.{
  Ending, failing, finishing, unknown_node, unconfigured_agent, no_next_step, invalid_decision,
  too_many_steps, step_failed, next_of, after_agent, after_decision, after_patch_loop,
  run_agent_node, run_node, run_found, run_nodes, run_workflow_decision, next_turn,
}

-- The ends that a workflow may come to: a status, the error of a step or a missing agent, and where
-- an agent decides the way, also its decision for no node and a way that is too long.
abbrev pub is_orderly : {F : Type 0} → Bool → Ending F → Bool
is_orderly dynamic (failing (unknown_node id)) = false
is_orderly dynamic (failing (no_next_step id)) = false
is_orderly dynamic (failing (invalid_decision d)) = dynamic
is_orderly dynamic (failing too_many_steps) = dynamic
is_orderly dynamic (failing (unconfigured_agent name)) = true
is_orderly dynamic (failing (step_failed e)) = true
is_orderly dynamic (finishing status final context) = true

-- A name of a node.
abbrev Names : WorkflowSpec → String → Type 0
Names spec next = (is_empty next ≡ false) × (has_node spec next ≡ true)

-- What a node of a kind names.
abbrev IsClosedAs : WorkflowSpec → WorkflowNode → WorkflowNodeKind → Type 0
IsClosedAs spec n agent =
    Names spec n.next × All (λ (p : String × String). Names spec p.1) n.next_by_key
IsClosedAs spec n decision = Unit
IsClosedAs spec n patch_loop = Unit
IsClosedAs spec n finish = Unit

abbrev pub IsClosed : WorkflowSpec → Type 0
IsClosed spec = All (λ (n : WorkflowNode). IsClosedAs spec n n.kind) spec.nodes

pub find_node :
    (P : WorkflowNode → Type 0) (id : String) (nodes : List WorkflowNode) (n : WorkflowNode)
    → All P nodes
    → find_first (λ (x : WorkflowNode). x.id == id) nodes ≡ some n
    → P n × (n.id ≡ id)
find_node P id [] n a e = (let e' : none ≡ some n = e in grind arith)
find_node P id (x ∷ xs) n a e = elim (Bool-cases (x.id == id)) [
  | inl b ↦
      let e' : some x ≡ some n = rw b at e in
      subst (λ y. P y × (y.id ≡ id)) (some-injective x n e') (a.0, (eq_iff x.id id).0 b)
  | inr b ↦ find_node P id xs n a.1 (rw b at e)
]

get-All :
    {A : Type 0} (P : A → Type 0) (m : Dict A) (k : String) (v : A)
    → All (λ (p : String × A). P p.1) m
    → get m k ≡ some v
    → P v
unfolding get
get-All P [] k v a e = cc
get-All P ((j, x) ∷ m) k v a e = elim (Bool-cases (j == k)) [
  | inl same ↦ let e' : some x ≡ some v = rw same at e in subst P (some-injective x v e') a.0
  | inr other ↦ get-All P m k v a.1 (rw other at e)
]

module _ {F W : Type 0} (u : Unicode) (codec : Codec F) (env : Surroundings F W) (job : Job) where
  -- A turn that ends orderly or leads to a node.
  abbrev Stays :
      WorkflowSpec → (Ending F ⊎ (String × Fields F)) × (Service F (Value F) × W) → Type 0
  Stays spec (inl ending, rest) = is_orderly true ending ≡ true
  Stays spec (inr (next, context), rest) = has_node spec next ≡ true

  next_of-Names :
      (spec : WorkflowSpec) (n : WorkflowNode) (context : Fields F)
      → IsClosedAs spec n agent
      → Names spec (next_of u codec env job n context)
  unfolding next_of
  next_of-Names spec n context k = go (as_text (lookup context "workflow_target"))
    where
      named :
          (t : String) (o : Option String)
          → get n.next_by_key t ≡ o
          → Names spec (elim o [ none ↦ n.next | some next ↦ next ])
      named t none e = k.0
      named t (some next) e = get-All (Names spec) n.next_by_key t next k.1 e

      go :
          (target : Option String)
          → Names spec (elim target [
            | none ↦ n.next
            | some t ↦ elim (get n.next_by_key t) [ none ↦ n.next | some next ↦ next ]
          ])
      go none = k.0
      go (some t) = named t (get n.next_by_key t) refl

  after_agent-Stays :
      (spec : WorkflowSpec) (n : WorkflowNode) (context : Fields F) (r : Ran F W (AgentResult F))
      → IsClosedAs spec n agent
      → Stays spec (after_agent u codec env job n context r)
  unfolding after_agent
  after_agent-Stays spec n context ((err e, s), w) k = refl
  after_agent-Stays spec n context ((ok result, s), w) k =
      let (full, has) = next_of-Names spec n (assign context n.agent_name result.output) k in
      rw full has

  after_decision-Stays :
      (spec : WorkflowSpec) (n : WorkflowNode) (r : Ran F W (WorkflowDecision × Fields F))
      → Stays spec (after_decision u codec env job spec n r)
  unfolding after_decision
  after_decision-Stays spec n ((err e, s), w) = refl
  after_decision-Stays spec n ((ok (d, context), s), w) =
      let next = if is_empty d.next then n.next else d.next in
      elim (Bool-cases (is_empty next || not (has_node spec next))) [
        | inl e ↦ rw e refl
        | inr e ↦ elim (Bool-cases (next == "finish")) [
          | inl h ↦ rw (e, h) refl
          | inr h ↦ rw (e, h) (ground (arith, e))
        ]
      ]

  after_patch_loop-Stays :
      (spec : WorkflowSpec) (r : Ran F W (String × Fields F))
      → Stays spec (after_patch_loop u codec env job r)
  unfolding after_patch_loop
  after_patch_loop-Stays spec ((err e, s), w) = refl
  after_patch_loop-Stays spec ((ok (final, context), s), w) = refl

  run_agent_node-Stays :
      (spec : WorkflowSpec) (n : WorkflowNode) (context : Fields F) (s : Service F (Value F))
      (w : W) (a : Option (Agent F W))
      → IsClosedAs spec n agent
      → Stays spec (run_agent_node u codec env job n context s w a)
  unfolding run_agent_node
  run_agent_node-Stays spec n context s w none k = refl
  run_agent_node-Stays spec n context s w (some a) k =
      after_agent-Stays spec n context (run_agent_step env job n.status a context 0 s w) k

  run_node-Stays :
      (spec : WorkflowSpec) (n : WorkflowNode) (kind : WorkflowNodeKind) (context : Fields F)
      (s : Service F (Value F)) (w : W)
      → IsClosedAs spec n kind
      → Stays spec (run_node u codec env job spec n kind context s w)
  unfolding run_node
  run_node-Stays spec n agent context s w k = run_agent_node-Stays spec n context s w _ k
  run_node-Stays spec n decision context s w k =
      after_decision-Stays spec n (run_workflow_decision u codec env job n context s w _)
  run_node-Stays spec n patch_loop context s w k =
      after_patch_loop-Stays spec (run_patch_loop u env job spec.max_patch_attempts context s w)
  run_node-Stays spec n finish context s w k = refl

  run_found-Stays :
      (spec : WorkflowSpec) (current : String) (context : Fields F) (s : Service F (Value F))
      (w : W) (found : Option WorkflowNode)
      → IsClosed spec
      → is_some found ≡ true
      → node spec current ≡ found
      → Stays spec (run_found u codec env job spec current context s w found)
  unfolding run_found node
  run_found-Stays spec current context s w none k h e = grind arith
  run_found-Stays spec current context s w (some n) k h e =
      run_node-Stays spec n n.kind context s w
        (find_node (λ x. IsClosedAs spec x x.kind) current spec.nodes n k e).0

  next_turn-Stays :
      (spec : WorkflowSpec)
      (go : String → Fields F → Service F (Value F) → W → Ending F × (Service F (Value F) × W))
      → ((next : String) (context : Fields F) (s : Service F (Value F)) (w : W)
          → has_node spec next ≡ true
          → is_orderly true (go next context s w).0 ≡ true)
      → (turn : (Ending F ⊎ (String × Fields F)) × (Service F (Value F) × W)) → Stays spec turn
      → is_orderly true (next_turn u codec env job go turn).0 ≡ true
  unfolding next_turn
  next_turn-Stays spec go rec (inl ending, rest) g = g
  next_turn-Stays spec go rec (inr (next, context), (s, w)) g = rec next context s w g

  -- A closed workflow that begins at one of its nodes ends orderly.
  pub run_nodes-closed :
      (spec : WorkflowSpec) (steps : ℕ) (current : String) (context : Fields F)
      (s : Service F (Value F)) (w : W)
      → IsClosed spec
      → has_node spec current ≡ true
      → is_orderly true (run_nodes u codec env job spec steps current context s w).0 ≡ true
  unfolding run_nodes has_node
  run_nodes-closed spec zero current context s w k h = refl
  run_nodes-closed spec (suc steps) current context s w k h =
      next_turn-Stays spec _
        (λ next context' s' w' h'. run_nodes-closed spec steps next context' s' w' k h')
        (run_found u codec env job spec current context s w (node spec current))
        (run_found-Stays spec current context s w (node spec current) k h refl)
