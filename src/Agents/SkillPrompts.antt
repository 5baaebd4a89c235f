-- ===== src/Agents/SkillPrompts.antt =====
-- internal/runtime/skill_prompts.go: the prompts that the skills of a task add to those of an agent.
use code_co_driver.Prelude.{
  if◌then◌else◌, length, any, Outcome, ok, err, String, Bool, true, false, ◌&&◌, ◌||◌, Option, none,
  some, List, [], ◌∷◌, ◌++◌,
}
use Prim.Native.String.{◌++◌ as append}
use code_co_driver.Prelude.Text.{Unicode, trim_space, is_empty, contains, join}
use code_co_driver.Prelude.Dict.{Dict, put}
use code_co_driver.Prelude.Decimal.{decimal}
use code_co_driver.Prelude.Members.{has_text}
use code_co_driver.Domain.{RepositoryFile}
use code_co_driver.Skills.Prompt.{PromptTemplate, PromptError, render, render_system}
use code_co_driver.Skills.Registry.{Skill, prompt}
use code_co_driver.Skills.Router.{matches_path}
use code_co_driver.Agents.Values.{
  Codec, Value, Fields, object, lookup, as_text, as_object, as_memories, as_skills, text_or_empty,
  marshal_artifact,
}
use code_co_driver.Agents.Requests.{AgentRequest}
use code_co_driver.Agents.Guidance.{memory_guidance, truncate_feedback}

-- `promptUsesVariable`
unfoldable pub prompt_uses_variable : PromptTemplate → String → Bool
prompt_uses_variable template name =
    let marker = join ("{{" ∷ name ∷ "}}" ∷ []) "" in
    contains template.user marker || contains template.system marker

-- `appendUniquePath`
unfoldable pub append_unique_path : List String → String → List String
append_unique_path paths path = if has_text path paths then paths else paths ++ path ∷ []

module _ {F : Type 0} (codec : Codec F) where
  -- The variables that every template may use.
  unfoldable pub base_variables : AgentRequest F → Skill → Dict String
  base_variables r skill =
      let guidance : String = elim (as_memories (lookup r.context "memory")) [
        | none ↦ ""
        | some memories ↦ memory_guidance codec memories
      ] in
      ("task_title", r.task.title)
      ∷ ("task_description", r.task.description)
      ∷ ("repository_name", r.repository.name)
      ∷ ("primary_language", r.repository.primary_language)
      ∷ ("indexed_files", decimal (length r.files))
      ∷ ("indexed_symbols", decimal (length r.symbols))
      ∷ ("attempt", decimal r.attempt)
      ∷ ("selected_skill", skill.name)
      ∷ ("selected_workflow", skill.workflow)
      ∷ ("memory_guidance", guidance)
      ∷ ("repair_feedback", "{}")
      ∷ ("previous_patch", "")
      ∷ ("context_json", "{}")
      ∷ []

  -- `if feedback, ok := …`
  unfoldable pub with_feedback : Dict String → Option (Value F) → Dict String
  with_feedback vars none = vars
  with_feedback vars (some feedback) = put vars "repair_feedback" (marshal_artifact codec feedback)

  -- The proposal of the patch of the context.
  unfoldable pub patch_proposal : Fields F → Option String
  patch_proposal context = elim (as_object (lookup context "patch")) [
    | none ↦ none
    | some patch ↦ as_text (lookup patch "proposal")
  ]

  unfoldable pub with_value : Dict String → String → Option String → Dict String
  with_value vars key none = vars
  with_value vars key (some value) = put vars key value

  -- What `context_json` is, where the template uses it.
  unfoldable pub context_text : Fields F → Option String
  context_text context = elim (as_text (lookup context "context_json")) [
    | some s ↦ some s
    | none ↦ elim (codec.encode (object context)) [ ok s ↦ some s | err e ↦ none ]
  ]

  -- `skillPromptVariables`
  unfoldable pub skill_prompt_variables : AgentRequest F → Skill → PromptTemplate → Dict String
  unfolding base_variables with_feedback patch_proposal with_value context_text prompt_uses_variable
  skill_prompt_variables r skill template =
      let fed = with_feedback (base_variables r skill) (lookup r.context "repair_feedback") in
      let patched = with_value fed "previous_patch" (patch_proposal r.context) in
      if prompt_uses_variable template "context_json"
      then with_value patched "context_json" (context_text r.context)
      else patched

  -- What `applySkillPrompt` answers for the template of a skill: the prompts, with that of the user
  -- and then that of the system rendered.
  unfoldable pub apply_template :
      Skill
      → String
      → String
      → Outcome PromptError String
      → Outcome PromptError String
      → Outcome PromptError ((String × String) × Bool)
  apply_template skill base base_system (err e) rendered_system = err e
  apply_template skill base base_system (ok rendered) (err e) = err e
  apply_template skill base base_system (ok rendered) (ok rendered_system) =
      let user =
        if is_empty (trim_space rendered)
        then base
        else join (base ∷ "\n\nSKILL [" ∷ skill.name ∷ "] RULES:\n" ∷ rendered ∷ []) "" in
      let system = if is_empty (trim_space rendered_system) then base_system else rendered_system in
      ok ((user, system), true)

  -- The body of the loop, or what the loop goes on with.
  unfoldable pub apply_skill :
      AgentRequest F
      → Skill
      → String
      → String
      → Outcome PromptError ((String × String) × Bool)
      → Option PromptTemplate
      → Outcome PromptError ((String × String) × Bool)
  unfolding apply_template skill_prompt_variables
  apply_skill r skill base base_system rest none = rest
  apply_skill r skill base base_system rest (some template) =
      let vars = skill_prompt_variables r skill template in
      if is_empty (trim_space template.user) && is_empty (trim_space template.system)
      then rest
      else apply_template skill base base_system (render template vars)
          (render_system template vars)

  unfoldable pub apply_skills :
      AgentRequest F
      → String
      → String
      → String
      → List Skill
      → Outcome PromptError ((String × String) × Bool)
  unfolding apply_skill
  apply_skills r agent base base_system [] = ok ((base, base_system), false)
  apply_skills r agent base base_system (skill ∷ skills) =
      apply_skill r skill base base_system (apply_skills r agent base base_system skills)
        (prompt skill agent)

  -- `applySkillPrompt`: the prompt of the user, that of the system, and whether a skill applied.
  unfoldable pub apply_skill_prompt :
      AgentRequest F → String → String → String → Outcome PromptError ((String × String) × Bool)
  unfolding apply_skills
  apply_skill_prompt r agent base base_system =
      apply_skills r agent base base_system (as_skills (lookup r.context "skills"))

  -- `humanFeedbackContext`
  unfoldable pub feedback_part : Fields F → String → String → (String → String) → List String
  feedback_part context key label shown =
      let value = text_or_empty (as_text (lookup context key)) in
      if is_empty (trim_space value) then [] else append label (shown value) ∷ []

  unfoldable pub human_feedback_context : AgentRequest F → String
  unfolding feedback_part
  human_feedback_context r =
      let parts =
        feedback_part r.context "human_feedback" "HUMAN FEEDBACK: " trim_space
        ++ feedback_part r.context "previous_review" "PREVIOUS REVIEW: " truncate_feedback
        ++ feedback_part r.context "previous_patch" "PREVIOUS PATCH:\n" truncate_feedback in
      elim parts [ [] ↦ "" | part ∷ rest ↦ append "\n\n" (join (part ∷ rest) "\n\n") ]

  -- `contextPackTextFromContext`
  unfoldable pub context_pack_text : Fields F → String
  context_pack_text context = elim (as_object (lookup context "codebase")) [
    | none ↦ ""
    | some codebase ↦ trim_space (text_or_empty (as_text (lookup codebase "context_pack_text")))
  ]

  -- `proposalFromContext`
  unfoldable pub proposal_from_context : Fields F → Option String
  unfolding patch_proposal
  proposal_from_context context = elim (patch_proposal context) [
    | none ↦ none
    | some proposal ↦ if is_empty (trim_space proposal) then none else some proposal
  ]

  -- `skillPathFiles`
  unfoldable pub skill_path_files :
      Unicode
      → (String → String → Bool)
      → List Skill
      → List String
      → List RepositoryFile
      → List String
  unfolding append_unique_path
  skill_path_files u path_match skills out [] = out
  skill_path_files u path_match skills out (file ∷ files) =
      skill_path_files u path_match skills
        (if any (λ s. matches_path u path_match s file.path) skills
          then append_unique_path out file.path
          else out)
        files
