-- ===== src/Tests/Gateways.antt =====
-- A gateway with one tool, which counts its calls and fails the first two times, and the limiter.
use code_co_driver.Prelude.{
  ltb, leb, if◌then◌else◌, ℕ, ◌+◌, ◌≤◌, String, ◌≡◌, ◌⊎◌, true, false, not, none, some, List, [],
  ◌∷◌, arith, ◌==◌,
}
use code_co_driver.Prelude.Dict.{get_or}
use code_co_driver.Prelude.Integers.{pos}
use code_co_driver.Gateway.{
  Context, Tool, Environment, Gateway, no_policy, agent_denied_by, set_agent_tool_policy, call,
  attempts,
}
use code_co_driver.Gateway.Policies.{
  has_name, Decides, call-Decides, agent_denied_by-set_agent_tool_policy,
}
use code_co_driver.Gateway.Retries.{Attempts, attempts-Attempts}
use code_co_driver.RateLimit.{new_rate_limiter}
use code_co_driver.RateLimit.Window.{Request, run, Rising, slide, new_rate_limiter-slides}

abbrev flaky : Tool ℕ String String String
flaky = record {
  name = "flaky";
  call = λ ctx arguments w. (("done", (if ltb w 2 then some "try again" else none)), w + 1);
}

abbrev context_of : String → Context ℕ
context_of agent = record {
  task_id = "task-1";
  run_id = "run-1";
  step_id = "step-1";
  agent = agent;
  is_done = λ w. leb 9 w;
}

abbrev environment : Environment ℕ String String
environment = record {
  now = λ w. w;
  with_timeout = λ timeout w ctx. ctx;
  zero_result = "";
  empty_schema = "{}";
}

abbrev one_tool : Gateway ℕ String String String String
one_tool = record {
  tools = ("flaky", flaky) ∷ [];
  schemas = [];
  policy = record no_policy { retries = pos 2 };
  observer = none;
}

abbrev planner_only : Gateway ℕ String String String String
planner_only = set_agent_tool_policy one_tool "planner" ("flaky" ∷ [])

call-Decides_example :
    Decides environment planner_only
      (context_of "coder")
      "flaky"
      "x"
      0
      (call environment planner_only (context_of "coder") "flaky" "x" 0)
call-Decides_example = call-Decides environment planner_only (context_of "coder") "flaky" "x" 0

agent_denied_by-set_agent_tool_policy_example :
    agent_denied_by planner_only.policy "coder" "flaky"
    ≡ not (
        if "planner" == "coder"
        then has_name ("flaky" ∷ []) "flaky"
        else get_or (get_or one_tool.policy.agent_allowed "coder" []) "flaky" false)
agent_denied_by-set_agent_tool_policy_example =
    agent_denied_by-set_agent_tool_policy one_tool "planner" "coder" "flaky" ("flaky" ∷ [])

attempts-Attempts_example :
    let ((result, error), w') = attempts flaky (context_of "coder") "x" 3 0 in
    (n : ℕ) × Attempts flaky (context_of "coder") "x" n 0 ((result, error), w')
    × (n ≤ 3 + 1)
    × ((n ≡ 3 + 1) ⊎ ((error ≡ none) ⊎ ((context_of "coder").is_done w' ≡ true)))
attempts-Attempts_example = attempts-Attempts flaky (context_of "coder") "x" 3 0

abbrev burst : List Request
burst =
    record { at = 100; client = "a" }
    ∷ record { at = 101; client = "a" }
    ∷ record { at = 102; client = "b" }
    ∷ record { at = 103; client = "a" }
    ∷ []

burst-Rising : Rising 0 burst
burst-Rising = (omega arith, (omega arith, (omega arith, (omega arith, tt))))

new_rate_limiter-slides_example : (run (new_rate_limiter 2 60) [] burst).0 ≡ slide 2 60 [] burst
new_rate_limiter-slides_example = new_rate_limiter-slides 2 60 burst (omega arith) burst-Rising
