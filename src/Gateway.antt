-- ===== src/Gateway.antt =====
-- internal/tools/gateway.go: the gateway through which agents call tools. A tool, the observer and
-- the clock act on a world `W` that the model does not describe; `A` is the map of arguments, `R` a
-- tool's result and `E` its error. The lock is held for each access to the fields.
pub mod Policies
pub mod Retries
use Prim.Native.String.{compare}
use Prim.Native.Nat.{Ordering}
use code_co_driver.Prelude.{
  ltb, is_some, if◌then◌else◌, Outcome, ok, err, ℕ, zero, suc, String, Bool, true, false, ◌||◌, not,
  Option, none, some, List, [], ◌∷◌, map,
}
use code_co_driver.Prelude.Integers.{ℤ, pos, negsuc}
use code_co_driver.Prelude.Text.{is_empty}
use code_co_driver.Prelude.Dict.{Dict, get, get_or, put}
use code_co_driver.Prelude.Sort.{sort}

-- The values that a context carries, and whether its deadline has passed or it was cancelled.
pub record Context (W : Type 0) : Type 0 where
  pub task_id : String
  pub run_id : String
  pub step_id : String
  pub agent : String
  pub is_done : W → Bool

-- `ToolSpec`; `parameters` is `none` for a nil map.
pub record ToolSpec (P : Type 0) : Type 0 where
  pub name : String
  pub description : String
  pub parameters : Option P

pub record Tool (W A R E : Type 0) : Type 0 where
  pub name : String
  pub call : Context W → A → W → (R × Option E) × W

-- `Policy`; a timeout of 0 stands for every one that is not positive.
pub record Policy : Type 0 where
  pub allowed : Dict Bool
  pub agent_allowed : Dict (Dict Bool)
  pub timeout : ℕ
  pub retries : ℤ

pub record AuditRecord (A R E : Type 0) : Type 0 where
  pub task_id : String
  pub run_id : String
  pub step_id : String
  pub name : String
  pub request : A
  pub result : R
  pub error : Option E
  pub started_at : ℕ
  pub ended_at : ℕ

-- What the gateway uses of the runtime: the clock, `context.WithTimeout`, the zero `Result` and the
-- schema of a tool without one.
pub record Environment (W R P : Type 0) : Type 0 where
  pub now : W → ℕ
  pub with_timeout : ℕ → W → Context W → Context W
  pub zero_result : R
  pub empty_schema : P

pub record Gateway (W A R E P : Type 0) : Type 0 where
  pub tools : Dict (Tool W A R E)
  pub schemas : Dict (ToolSpec P)
  pub policy : Policy
  pub observer : Option (AuditRecord A R E → W → W)

pub data GatewayError : Type 0 where
  name_required : GatewayError
  already_registered tool_not_found denied_by_policy : String → GatewayError
  denied_for_agent : String → String → GatewayError

abbrev pub no_policy : Policy
no_policy = record { allowed = []; agent_allowed = []; timeout = 0; retries = pos 0 }

-- The map of the names that are allowed.
unfoldable pub allow : Dict Bool → List String → Dict Bool
allow rules [] = rules
allow rules (name ∷ names) = allow (put rules name true) names

-- The tests of `Call` on the two parts of the policy.
unfoldable pub denied_by : Policy → String → Bool
denied_by policy name = elim policy.allowed [
  | [] ↦ false
  | _ ∷ _ ↦ not (get_or policy.allowed name false)
]

unfoldable pub agent_denied_in : Dict (Dict Bool) → String → String → Bool
agent_denied_in [] agent name = false
agent_denied_in (e ∷ m) agent name = not (get_or (get_or (e ∷ m) agent []) name false)

unfoldable pub agent_denied_by : Policy → String → String → Bool
unfolding agent_denied_in
agent_denied_by policy agent name = agent_denied_in policy.agent_allowed agent name

-- A specification with the name and the schema filled in where they are missing.
unfoldable pub complete_spec :
    {W R P : Type 0} → Environment W R P → String → ToolSpec P → ToolSpec P
complete_spec env name spec = record spec {
  name = if is_empty spec.name then name else spec.name;
  parameters = elim spec.parameters [ none ↦ some env.empty_schema | some p ↦ some p ];
}

-- The loop over the attempts: one, and up to so many more.
unfoldable pub attempts :
    {W A R E : Type 0} → Tool W A R E → Context W → A → ℕ → W → (R × Option E) × W
attempts tool ctx arguments zero w = tool.call ctx arguments w
attempts tool ctx arguments (suc retries) w =
    let (answer, w') = tool.call ctx arguments w in
    let again = attempts tool ctx arguments retries w' in
    if not (is_some answer.1) || ctx.is_done w' then (answer, w') else again

-- The loop for the number of retries of a policy: without any attempt the result is the zero one.
unfoldable pub attempts_for :
    {W A R E : Type 0} → R → Tool W A R E → Context W → A → ℤ → W → (R × Option E) × W
unfolding attempts
attempts_for zero_result tool ctx arguments (pos retries) w = attempts tool ctx arguments retries w
attempts_for zero_result tool ctx arguments (negsuc n) w = ((zero_result, none), w)

module _ {W A R E P : Type 0} where
  -- `NewGateway`
  abbrev pub new_gateway : Gateway W A R E P
  new_gateway = record { tools = []; schemas = []; policy = no_policy; observer = none }

  -- `RegisterWithSchema`, for a tool that is not nil.
  unfoldable pub register_with_schema :
      Environment W R P
      → Gateway W A R E P
      → Tool W A R E
      → ToolSpec P
      → Gateway W A R E P × Option GatewayError
  unfolding complete_spec
  register_with_schema env g tool spec =
      if is_empty tool.name
      then (g, some name_required)
      else if is_some (get g.tools tool.name)
      then (g, some (already_registered tool.name))
      else (
        record g {
          tools = put g.tools tool.name tool;
          schemas = put g.schemas tool.name (complete_spec env tool.name spec);
        },
        none,
      )

  -- `Register`
  unfoldable pub register :
      Environment W R P → Gateway W A R E P → Tool W A R E → Gateway W A R E P × Option GatewayError
  unfolding register_with_schema
  register env g tool =
      register_with_schema env g tool (record { name = ""; description = ""; parameters = none })

  -- `SetToolSchema`
  unfoldable pub set_tool_schema :
      Environment W R P → Gateway W A R E P → String → ToolSpec P → Gateway W A R E P
  unfolding complete_spec
  set_tool_schema env g name spec = record g {
    schemas = put g.schemas name (complete_spec env name spec);
  }

  -- `ToolSpecs`
  unfoldable pub tool_specs :
      Environment W R P → Gateway W A R E P → List String → List (ToolSpec P)
  tool_specs env g [] = []
  tool_specs env g (name ∷ names) =
      get_or g.schemas name
        (record { name = name; description = ""; parameters = some env.empty_schema })
      ∷ tool_specs env g names

  -- `Configure`
  unfoldable pub configure :
      Gateway W A R E P → Policy → Option (AuditRecord A R E → W → W) → Gateway W A R E P
  configure g policy observer = record g { policy = policy; observer = observer }

  -- `SetAgentToolPolicy`
  unfoldable pub set_agent_tool_policy :
      Gateway W A R E P → String → List String → Gateway W A R E P
  unfolding allow
  set_agent_tool_policy g agent allowed = record g {
    policy = record g.policy {
      agent_allowed = put g.policy.agent_allowed agent (allow [] allowed);
    };
  }

  -- What `Call` does once the tool is found and permitted.
  unfoldable pub run_tool :
      Environment W R P
      → Gateway W A R E P
      → Context W
      → Tool W A R E
      → String
      → A
      → W
      → (R × Option E) × W
  unfolding attempts_for
  run_tool env g ctx tool name arguments w =
      let started = env.now w in
      let call_ctx =
        if ltb 0 g.policy.timeout then env.with_timeout g.policy.timeout w ctx else ctx in
      let ((result, error), w') =
        attempts_for env.zero_result tool call_ctx arguments g.policy.retries w in
      elim g.observer [
        | none ↦ ((result, error), w')
        | some observe ↦ (
          (result, error),
          observe
              (record {
                task_id = ctx.task_id;
                run_id = ctx.run_id;
                step_id = ctx.step_id;
                name = name;
                request = arguments;
                result = result;
                error = error;
                started_at = started;
                ended_at = env.now w';
              })
              w',
        )
      ]

  -- `Call`, with what the map of tools answers.
  unfoldable pub call_found :
      Environment W R P
      → Gateway W A R E P
      → Context W
      → String
      → A
      → W
      → Option (Tool W A R E)
      → Outcome GatewayError (R × Option E) × W
  unfolding run_tool denied_by agent_denied_by
  call_found env g ctx name arguments w none = (err (tool_not_found name), w)
  call_found env g ctx name arguments w (some tool) =
      let (answer, w') = run_tool env g ctx tool name arguments w in
      if denied_by g.policy name
      then (err (denied_by_policy name), w)
      else if agent_denied_by g.policy ctx.agent name
      then (err (denied_for_agent ctx.agent name), w)
      else (ok answer, w')

  -- `Call`
  unfoldable pub call :
      Environment W R P
      → Gateway W A R E P
      → Context W
      → String
      → A
      → W
      → Outcome GatewayError (R × Option E) × W
  unfolding call_found
  call env g ctx name arguments w = call_found env g ctx name arguments w (get g.tools name)

  -- `Names`
  unfoldable pub names : Gateway W A R E P → List String
  names g =
      sort (λ a b. elim (compare a b) [ Ordering.lt ↦ true | _ ↦ false ]) (map (λ e. e.0) g.tools)
