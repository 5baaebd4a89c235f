-- ===== src/Tests/Skills.antt =====
-- A registry with one skill, a task that asks for it, and the files that an agent is shown.
use code_co_driver.Prelude.{
  Outcome, ok, ℕ, ◌+◌, String, ◌≡◌, refl, false, Option, none, some, List, [], ◌∷◌, map,
}
use code_co_driver.Prelude.Dict.{get}
use code_co_driver.Domain.{Task, Repository, RepositoryFile, created}
use code_co_driver.Skills.Prompt.{render_template}
use code_co_driver.Skills.Registry.{
  Skill, Registry, zero_skill, new_registry, register, get_skill, normal_skill,
}
use code_co_driver.Skills.Router.{RouteInput, RouteResult, explicitly_selected, route}
use code_co_driver.Skills.Invariant.{IsRegistry, new_registry-IsRegistry, register-IsRegistry}
use code_co_driver.Agents.Values.{skill_list, no_fields, field, lookup}
use code_co_driver.Agents.Requests.{AgentRequest}
use code_co_driver.Agents.SkillPrompts.{apply_skill_prompt}
use code_co_driver.Agents.Accepted.{Applies, routed_skills_render}
use code_co_driver.Retrieval
use code_co_driver.Retrieval.Coverage.{IsBuilt, build-IsBuilt}
use code_co_driver.Prelude.Text.{trim_space, to_lower, has_prefix, contains, byte_length}
use code_co_driver.Prelude.Slices.{cut_last, replace_all, trim_suffix, to_byte}
use code_co_driver.Prelude.Decimal.{decimal}
use code_co_driver.Prelude.Dict.{put}
use code_co_driver.Skills.Prompt.{render, render_system}
use code_co_driver.Skills.Registry.{list_skills}
use code_co_driver.Tests.Data.{floats, ascii, task_in, codec}

abbrev fix_skill : Skill
fix_skill = record zero_skill {
  name = " fixer";
  keywords = "fix" ∷ [];
  prompts =
      (
        "patch",
        record { name = ""; description = ""; system = ""; user = "Fix {{task_title}} now" },
      )
      ∷ [];
}

abbrev registry : Registry
registry = (register new_registry fix_skill).1

register_accepts : registry.order ≡ "fixer" ∷ []
unfolding register get render_template trim_space render render_system
register_accepts = refl

abbrev fix_task : Task
fix_task = record (task_in "task-1" created 1) { skill_name = "fixer" }

abbrev some_repository : Repository
some_repository = record {
  id = "repo-1";
  name = "repo";
  path = "/repo";
  test_command = "";
  primary_language = "go";
  file_count = 0;
  indexed_at = 0;
  created_at = 1;
}

abbrev input : RouteInput ℕ
input = record { task = fix_task; repository = some_repository; files = []; memories = [] }

abbrev result : RouteResult ℕ
result = record {
  primary_skill = "fixer";
  skills = normal_skill fix_skill ∷ [];
  workflow = "standard_agent_loop";
  reason = explicitly_selected;
  scores = ("fixer", 1) ∷ [];
}

abbrev request : AgentRequest ℕ
request = record {
  task = fix_task;
  repository = some_repository;
  files = [];
  symbols = [];
  artifacts = [];
  context = field "skills" (skill_list result.skills) no_fields;
  attempt = 1;
  workspace = none;
}

registry-IsRegistry : IsRegistry registry
registry-IsRegistry = (register-IsRegistry new_registry fix_skill new_registry-IsRegistry).0

routed_skills_render_example :
    Applies codec request (apply_skill_prompt codec request "patch" "Prompt" "System")
unfolding register get render_template route lookup normal_skill trim_space get_skill list_skills
    render render_system put
routed_skills_render_example =
    routed_skills_render codec request floats ascii (λ p s. false) registry input result
      registry-IsRegistry refl refl "patch" "Prompt" "System"

abbrev file_of : String → RepositoryFile
file_of path = record {
  repository_id = "repo-1";
  path = path;
  language = "go";
  size = 1;
  hash = "";
  summary = "";
}

abbrev config : Retrieval.Config
config = Retrieval.new_builder (record { max_files = 2; max_file_bytes = 4; max_total_bytes = 6 })

-- A reader that knows every file and counts its calls.
abbrev reader : Option (String → ℕ → Outcome String (Option String) × ℕ)
reader = some (λ path n. (ok (some "a\nbc\n"), n + 1))

abbrev offered : List RepositoryFile
offered = file_of "a.go" ∷ file_of "x/.env" ∷ file_of "b.go" ∷ file_of "c.go" ∷ []

build-IsBuilt_example :
    IsBuilt ascii config offered (Retrieval.build ascii reader config offered 0).0
build-IsBuilt_example = build-IsBuilt ascii reader config offered 0

build_runs :
    map
      (λ (s : Retrieval.SourceSnippet). s.content)
      (Retrieval.build ascii reader config offered 0).0.snippets
    ≡ "   1 | a\n   2 | bc" ∷ "   1 | a" ∷ []
unfolding Retrieval.build Retrieval.new_builder to_lower cut_last has_prefix contains byte_length
    replace_all trim_suffix to_byte decimal
build_runs = refl
