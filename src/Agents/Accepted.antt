-- ===== src/Agents/Accepted.antt =====
-- internal/runtime/skill_prompts.go with internal/skills: the prompts of skills that a registry took.
use code_co_driver.Prelude.{
  Bool-cases, is_some, All, Outcome, ok, err, String, ◌≡◌, refl, inl, inr, Bool, true, false, ◌&&◌,
  Option, none, some, List, [], ◌∷◌, arith, ◌==◌, eq_iff,
}
use mathlib.Core.Path.{subst}
use code_co_driver.Prelude.Text.{Unicode, trim_space, is_empty}
use code_co_driver.Prelude.Float.{Float}
use code_co_driver.Prelude.Dict.{Dict, get, put, get-put}
use code_co_driver.Skills.Prompt.{PromptTemplate, PromptError}
use code_co_driver.Skills.Registry.{Skill, Registry, prompt, check_variables}
use code_co_driver.Skills.Rendering.{Covers, Renders, Renders-Covers, check_prompts-Renders}
use code_co_driver.Skills.Router.{RouteInput, RouteResult, route}
use code_co_driver.Skills.Invariant.{IsAccepted, IsRegistry, RoutedToAccepted, route-IsAccepted}
use code_co_driver.Agents.Values.{Codec, Value, skill_list, lookup}
use code_co_driver.Agents.Requests.{AgentRequest}
use code_co_driver.Agents.SkillPrompts.{
  base_variables, with_feedback, with_value, patch_proposal, context_text, prompt_uses_variable,
  skill_prompt_variables, apply_skill, apply_skills, apply_skill_prompt,
}

Covers-each :
    (m n : Dict String) → All (λ (p : String × String). is_some (get n p.0) ≡ true) m → Covers m n
unfolding get
Covers-each [] n h key e = (let e' : false ≡ true = e in grind arith)
Covers-each ((k, v) ∷ m) n h key e = elim (Bool-cases (k == key)) [
  | inl b ↦ subst (λ j. is_some (get n j) ≡ true) ((eq_iff k key).0 b) h.0
  | inr b ↦ Covers-each m n h.1 key (rw (b, get) at e)
]

Covers-put : (m n : Dict String) (k v : String) → Covers m n → Covers m (put n k v)
Covers-put m n k v c key e =
    rw (get-put n k key v)
      (elim (Bool-cases (k == key)) [ inl b ↦ rw b refl | inr b ↦ rw b (c key e) ])

module _ {F : Type 0} (codec : Codec F) (r : AgentRequest F) where
  skill_prompt_variables-Covers :
      (name : String) (s : Skill) (p : PromptTemplate)
      → Covers (check_variables name) (skill_prompt_variables codec r s p)
  unfolding skill_prompt_variables check_variables base_variables get
  skill_prompt_variables-Covers name s p =
      elim (Bool-cases (prompt_uses_variable p "context_json")) [
        | inl e ↦ rw e (valued "context_json" (context_text codec r.context) _ patched)
        | inr e ↦ rw e patched
      ]
    where
      valued :
          (key : String) (value : Option String) (vars : Dict String)
          → Covers (check_variables name) vars
          → Covers (check_variables name) (with_value codec vars key value)
      valued key none vars c = c
      valued key (some value) vars c = Covers-put (check_variables name) vars key value c

      fed :
          (feedback : Option (Value F)) (vars : Dict String)
          → Covers (check_variables name) vars
          → Covers (check_variables name) (with_feedback codec vars feedback)
      fed none vars c = c
      fed (some feedback) vars c = Covers-put (check_variables name) vars "repair_feedback" _ c

      base : Covers (check_variables name) (base_variables codec r s)
      base = Covers-each (check_variables name) (base_variables codec r s) (
        refl,
        (
          refl,
          (
            refl,
            (refl, (refl, (refl, (refl, (refl, (refl, (refl, (refl, (refl, (refl, tt)))))))))),
          ),
        ),
      )

      patched : Covers (check_variables name) (
          with_value codec
            (with_feedback codec (base_variables codec r s) (lookup r.context "repair_feedback"))
            "previous_patch"
            (patch_proposal codec r.context))
      patched =
          valued "previous_patch" (patch_proposal codec r.context) _
            (fed (lookup r.context "repair_feedback") _ base)

  -- The prompts, once a skill is applied or none is.
  abbrev pub Applies : Outcome PromptError ((String × String) × Bool) → Type 0
  Applies (ok prompts) = Unit
  Applies (err e) = ⊥

  apply_skill-Applies :
      (s : Skill) (agent base base_system : String)
      (rest : Outcome PromptError ((String × String) × Bool)) (found : Option PromptTemplate)
      → ((p : PromptTemplate) → found ≡ some p → Renders p (skill_prompt_variables codec r s p))
      → Applies rest
      → Applies (apply_skill codec r s base base_system rest found)
  unfolding apply_skill
  apply_skill-Applies s agent base base_system rest none k h = h
  apply_skill-Applies s agent base base_system rest (some p) k h =
      elim (Bool-cases (is_empty (trim_space p.user) && is_empty (trim_space p.system))) [
        | inl e ↦ rw e h
        | inr e ↦ rw (e, (k p refl).user_eq, (k p refl).system_eq) tt
      ]

  apply_skills-Applies :
      (agent base base_system : String) (skills : List Skill)
      → All IsAccepted skills
      → Applies (apply_skills codec r agent base base_system skills)
  unfolding apply_skills prompt
  apply_skills-Applies agent base base_system [] a = tt
  apply_skills-Applies agent base base_system (s ∷ ss) a =
      apply_skill-Applies s agent base base_system _ (prompt s agent)
        (λ p e.
          Renders-Covers p (check_variables a.0.name) _ (skill_prompt_variables-Covers a.0.name s p)
            (check_prompts-Renders a.0.name s.prompts agent p a.0.checked e))
        (apply_skills-Applies agent base base_system ss a.1)

  -- An agent whose context holds the skills that the router chose from a registry is never refused
  -- its prompts for a variable that a template of them lacks.
  pub routed_skills_render :
      (f : Float F) (u : Unicode) (path_match : String → String → Bool) (registry : Registry)
      (input : RouteInput F) (result : RouteResult F)
      → IsRegistry registry
      → (route f u path_match registry input).0 ≡ ok result
      → lookup r.context "skills" ≡ some (skill_list result.skills)
      → (agent base base_system : String)
      → Applies (apply_skill_prompt codec r agent base base_system)
  unfolding apply_skill_prompt
  routed_skills_render f u path_match registry input result i routed held agent base base_system =
      rw held (
        apply_skills-Applies agent base base_system result.skills (
          subst (RoutedToAccepted f u path_match) routed
            (route-IsAccepted f u path_match registry input i)))
