-- ===== src/Skills/Registry.antt =====
-- internal/skills/skill.go and internal/skills/registry.go. The map of the skills is behind a lock
-- that each method holds. What a file of a directory holds, and JSON, are parameters: `Load` is
-- given what the text decodes to.
use code_co_driver.Prelude.{
  ltb, leb, nat_eq, is_some, if◌then◌else◌, length, Outcome, ok, err, String, Bool, ◌&&◌, ◌||◌, not,
  Option, none, some, List, [], ◌∷◌, ◌++◌, map, ◌==◌,
}
use Prim.Native.Char.{code}
use code_co_driver.Prelude.Text.{Unicode, trim_space, to_lower, is_empty}
use code_co_driver.Prelude.Slices.{text_lt}
use code_co_driver.Prelude.Sort.{sort}
use code_co_driver.Prelude.Dict.{Dict, get, get_or, put}
use code_co_driver.Skills.Prompt.{PromptTemplate, PromptError, render, render_system}

pub record Skill : Type 0 where
  pub name : String
  pub description : String
  pub keywords : List String
  pub path_patterns : List String
  pub workflow : String
  pub prompts : Dict PromptTemplate
  pub allowed_tools : List String
  pub metadata : Dict String

abbrev pub zero_skill : Skill
zero_skill = record {
  name = "";
  description = "";
  keywords = [];
  path_patterns = [];
  workflow = "";
  prompts = [];
  allowed_tools = [];
  metadata = [];
}

pub data SkillError : Type 0 where
  name_required : SkillError
  empty_agent : String → SkillError
  bad_prompt bad_system_prompt : String → String → PromptError → SkillError
  not_decoded : SkillError

-- The variables that the templates of a skill are checked with.
unfoldable pub check_variables : String → Dict String
check_variables name =
    ("task_title", "title")
    ∷ ("task_description", "description")
    ∷ ("repository_name", "repo")
    ∷ ("primary_language", "go")
    ∷ ("indexed_files", "1")
    ∷ ("indexed_symbols", "2")
    ∷ ("attempt", "1")
    ∷ ("context_json", "{}")
    ∷ ("memory_guidance", "")
    ∷ ("repair_feedback", "{}")
    ∷ ("previous_patch", "")
    ∷ ("selected_skill", name)
    ∷ ("selected_workflow", "standard_agent_loop")
    ∷ []

-- The two tests of a template that `Validate` makes.
unfoldable pub check_system : String → String → Outcome PromptError String → Option SkillError
check_system name agent (ok text) = none
check_system name agent (err e) = some (bad_system_prompt name agent e)

unfoldable pub check_prompt :
    String → String → PromptTemplate → Outcome PromptError String → Option SkillError
unfolding check_system check_variables
check_prompt name agent prompt (err e) = some (bad_prompt name agent e)
check_prompt name agent prompt (ok text) =
    check_system name agent (render_system prompt (check_variables name))

-- The loop of `Validate` over the templates.
unfoldable pub check_prompts : String → Dict PromptTemplate → Option SkillError
unfolding check_prompt check_variables
check_prompts name [] = none
check_prompts name ((agent, prompt) ∷ rest) =
    let first = check_prompt name agent prompt (render prompt (check_variables name)) in
    let others = check_prompts name rest in
    if is_empty (trim_space agent)
    then some (empty_agent name)
    else if is_some first
    then first
    else others

-- `Validate`
unfoldable pub validate : Skill → Option SkillError
unfolding check_prompts
validate s =
    if is_empty (trim_space s.name)
    then some name_required
    else check_prompts (trim_space s.name) s.prompts

-- `Prompt`
unfoldable pub prompt : Skill → String → Option PromptTemplate
prompt s agent = get s.prompts agent

-- `likelySkill`
unfoldable pub likely_skill : Skill → Bool
likely_skill s =
    not (is_empty s.description)
    || ltb 0 (length s.keywords)
    || ltb 0 (length s.path_patterns)
    || (not (is_empty s.workflow) && not (s.workflow == "standard_agent_loop"))
    || ltb 0 (length s.prompts)
    || ltb 0 (length s.allowed_tools)
    || ltb 0 (length s.metadata)

pub record Registry : Type 0 where
  pub skills : Dict Skill
  pub order : List String

-- `New`
abbrev pub new_registry : Registry
new_registry = record { skills = []; order = [] }

-- The skill as `Register` stores it.
unfoldable pub normal_skill : Skill → Skill
normal_skill s = record s {
  name = trim_space s.name;
  workflow = if is_empty s.workflow then "standard_agent_loop" else s.workflow;
}

-- The last part of `Register`.
unfoldable pub store_skill : Registry → Skill → Registry
store_skill r s = record {
  skills = put r.skills s.name s;
  order = if is_some (get r.skills s.name) then r.order else r.order ++ s.name ∷ [];
}

-- `Register`
unfoldable pub register : Registry → Skill → Option SkillError × Registry
unfolding validate normal_skill store_skill
register r s = elim (validate s) [
  | some e ↦ (some e, r)
  | none ↦ (none, store_skill r (normal_skill s))
]

-- `Get`
unfoldable pub get_skill : Registry → String → Option Skill
get_skill r name = get r.skills (trim_space name)

-- `List`
unfoldable pub list_skills : Registry → List Skill
list_skills r = map (λ name. get_or r.skills name zero_skill) r.order

-- The loop of `Load`: it stops at the first error.
unfoldable pub register_all : Registry → List Skill → Option SkillError × Registry
unfolding register
register_all r [] = (none, r)
register_all r (s ∷ ss) =
    let (e, r') = register r s in
    let rest = register_all r' ss in if is_some e then (e, r') else rest

-- `Load`, with what the text decodes to as a list of skills, and as a single one.
unfoldable pub load : Registry → Option (List Skill) → Option Skill → Option SkillError × Registry
unfolding register_all
load r (some items) single = register_all r items
load r none (some single) = register_all r (single ∷ [])
load r none none = (some not_decoded, r)

-- `SortedNames`
unfoldable pub sorted_names : Registry → List String
unfolding list_skills
sorted_names r = sort text_lt (map (λ (s : Skill). s.name) (list_skills r))

-- The characters that `skillFileName` keeps.
unfoldable pub file_name_chars : String → String
file_name_chars String.[] = String.[]
file_name_chars (String.◌∷◌ c s) =
    if (leb b'a' (code c) && leb (code c) b'z')
      || (leb b'0' (code c) && leb (code c) b'9')
      || nat_eq (code c) b'-'
      || nat_eq (code c) b'_'
    then String.◌∷◌ c (file_name_chars s)
    else file_name_chars s

-- `skillFileName`
unfoldable pub skill_file_name : Unicode → String → String
unfolding file_name_chars
skill_file_name u name =
    let kept = file_name_chars (to_lower u (trim_space name)) in
    if is_empty kept then "skill" else kept
