-- ===== src/Gateway/Policies.antt =====
-- internal/tools/gateway.go: which calls reach a tool.
use code_co_driver.Prelude.{
  Bool-cases, if◌then◌else◌, Outcome, ok, err, String, ◌≡◌, refl, ap, ◌∙◌, inl, inr, Bool, true,
  false, ◌||◌, not, Option, none, some, List, [], ◌∷◌, arith, ◌==◌,
}
use code_co_driver.Prelude.Dict.{Dict, get, get_or, put, get_or-put}
use code_co_driver.Gateway.{
  Context, Tool, Environment, Gateway, GatewayError, tool_not_found, denied_by_policy,
  denied_for_agent, allow, set_agent_tool_policy, run_tool, denied_by, agent_denied_in,
  agent_denied_by, call_found, call,
}

abbrev pub has_name : List String → String → Bool
has_name [] name = false
has_name (n ∷ ns) name = n == name || has_name ns name

get_or-allow :
    (rules : Dict Bool) (names : List String) (name : String)
    → get_or (allow rules names) name false ≡ (has_name names name || get_or rules name false)
unfolding allow
get_or-allow rules [] name = refl
get_or-allow rules (n ∷ ns) name =
    get_or-allow (put rules n true) ns name ∙ rw (get_or-put rules n name true false) (ground arith)

put-ne-nil :
    {A : Type 0} (m : Dict A) (k : String) (v : A)
    → (e : String × A) × (rest : Dict A) × (put m k v ≡ e ∷ rest)
unfolding put
put-ne-nil [] k v = ((k, v), [], refl)
put-ne-nil ((j, w) ∷ m) k v = elim (Bool-cases (j == k)) [
  | inl e ↦ rw e ((k, v), m, refl)
  | inr e ↦ rw e ((j, w), put m k v, refl)
]

module _ {W A R E P : Type 0} (env : Environment W R P) (g : Gateway W A R E P) where
  -- What a call comes to: it runs a registered tool that both parts of the policy permit, or it
  -- fails with one of three errors and nothing happens in the world.
  pub data Decides (ctx : Context W) (name : String) (arguments : A) (w : W)
      : Outcome GatewayError (R × Option E) × W → Type 0 where
    runs :
        (tool : Tool W A R E)
        → get g.tools name ≡ some tool
        → denied_by g.policy name ≡ false
        → agent_denied_by g.policy ctx.agent name ≡ false
        → Decides ctx name arguments w
            (let (answer, w') = run_tool env g ctx tool name arguments w in (ok answer, w'))
    missing : get g.tools name ≡ none → Decides ctx name arguments w (err (tool_not_found name), w)
    denied :
        (tool : Tool W A R E)
        → get g.tools name ≡ some tool
        → denied_by g.policy name ≡ true
        → Decides ctx name arguments w (err (denied_by_policy name), w)
    agent_denied :
        (tool : Tool W A R E)
        → get g.tools name ≡ some tool
        → denied_by g.policy name ≡ false
        → agent_denied_by g.policy ctx.agent name ≡ true
        → Decides ctx name arguments w (err (denied_for_agent ctx.agent name), w)

  -- A call runs the tool only if it is registered and both parts of the policy permit it; otherwise
  -- it answers the error for the first test that failed, and neither the tool nor the observer sees
  -- the call.
  pub call-Decides :
      (ctx : Context W) (name : String) (arguments : A) (w : W)
      → Decides ctx name arguments w (call env g ctx name arguments w)
  unfolding call
  call-Decides ctx name arguments w = decide (get g.tools name) refl
    where
      decide :
          (o : Option (Tool W A R E))
          → get g.tools name ≡ o
          → Decides ctx name arguments w (call_found env g ctx name arguments w o)
      decide none e = missing e
      decide (some tool) e = elim (Bool-cases (denied_by g.policy name)) [
        | inl h ↦ rw h (denied tool e h)
        | inr h ↦ elim (Bool-cases (agent_denied_by g.policy ctx.agent name)) [
          | inl k ↦ rw (h, k) (agent_denied tool e h k)
          | inr k ↦ rw (h, k) (runs tool e h k)
        ]
      ]

agent_denied_in-put :
    (m : Dict (Dict Bool)) (k agent name : String) (rules : Dict Bool)
    → agent_denied_in (put m k rules) agent name
      ≡ not (get_or (get_or (put m k rules) agent []) name false)
unfolding agent_denied_in
agent_denied_in-put m k agent name rules = let (e, rest, shape) = put-ne-nil m k rules in rw shape

has_name-allow :
    (names : List String) (name : String) → get_or (allow [] names) name false ≡ has_name names name
unfolding get_or
has_name-allow names name = get_or-allow [] names name ∙ ground arith

-- After `SetAgentToolPolicy` the agent is denied exactly the tools that are not listed, and every
-- other agent those that its own rules do not allow, which are all tools if it has no rules.
pub agent_denied_by-set_agent_tool_policy :
    {W A R E P : Type 0} (g : Gateway W A R E P) (agent other name : String) (allowed : List String)
    → agent_denied_by (set_agent_tool_policy g agent allowed).policy other name
      ≡ not (
          if agent == other
          then has_name allowed name
          else get_or (get_or g.policy.agent_allowed other []) name false)
unfolding set_agent_tool_policy agent_denied_by
agent_denied_by-set_agent_tool_policy g agent other name allowed =
    agent_denied_in-put g.policy.agent_allowed agent other name (allow [] allowed)
    ∙ rw (get_or-put g.policy.agent_allowed agent other (allow [] allowed) [])
        (elim (Bool-cases (agent == other)) [
          | inl e ↦ rw e (ap not (has_name-allow allowed name))
          | inr e ↦ rw e
        ])
