-- ===== src/Skills/Rendering.antt =====
-- internal/skills/prompt.go and skill.go: which variables a template needs, and what `Validate`
-- says of the templates of a skill.
use code_co_driver.Prelude.{
  Bool-cases, Option-cases, List-cases, is_some, Outcome, ok, err, ℕ, zero, suc, ◌+◌, String, ◌≡◌,
  refl, ◌≢◌, ◌⊎◌, inl, inr, true, false, none, some, List, [], ◌∷◌, arith, ◌==◌,
}
use mathlib.Core.Option.{some-injective}
use mathlib.Core.Path.{subst}
use code_co_driver.Prelude.Dict.{get}
use code_co_driver.Prelude.Slices.{size}
use code_co_driver.Prelude.Dict.{Dict}
use code_co_driver.Prelude.Members.{has_text}
use code_co_driver.Skills.Prompt.{
  PromptTemplate, PromptError, render_template, render, render_system, placeholder,
  replace_placeholders, note_missing,
}
use code_co_driver.Skills.Registry.{check_prompts, check_prompt, check_system, check_variables}
use code_co_driver.Prelude.Text.{trim_space, is_empty}

-- Every variable of the first map is one of the second.
abbrev pub Covers : Dict String → Dict String → Type 0
Covers vars vars' = (key : String) → is_some (get vars key) ≡ true → is_some (get vars' key) ≡ true

-- Both templates of a prompt can be rendered.
pub record Renders (p : PromptTemplate) (vars : Dict String) : Type 0 where
  pub user : String
  pub user_eq : render p vars ≡ ok user
  pub system : String
  pub system_eq : render_system p vars ≡ ok system

note_missing-none : (key : String) (missing : List String) → note_missing key none missing ≢ []
note_missing-none key [] e = grind arith
note_missing-none key (k ∷ ks) e = elim (Bool-cases (has_text key (k ∷ ks))) [
  | inl b ↦ (let e' : k ∷ ks ≡ [] = rw b at e in grind arith)
  | inr b ↦ (let e' : key ∷ k ∷ ks ≡ [] = rw b at e in grind arith)
]

note_missing-nil :
    (key : String) (vars vars' : Dict String) (missing missing' : List String)
    → Covers vars vars'
    → (missing ≡ [] → missing' ≡ [])
    → note_missing key (get vars key) missing ≡ []
    → note_missing key (get vars' key) missing' ≡ []
note_missing-nil key vars vars' missing missing' c f h = elim (Option-cases (get vars key)) [
  | inl e ↦ absurd (note_missing-none key missing (rw e at h))
  | inr (v, e) ↦ elim (Option-cases (get vars' key)) [
    | inl e' ↦
        let b : is_some (get vars key) ≡ true = rw e refl in
        let b' : is_some (get vars' key) ≡ true = c key b in
        let b'' : false ≡ true = rw e' at b' in grind arith
    | inr (v', e') ↦ rw e' (f (rw e at h))
  ]
]

missing-Covers :
    (vars vars' : Dict String) (s : String) (skip : ℕ)
    → Covers vars vars'
    → (replace_placeholders vars skip s).1 ≡ []
    → (replace_placeholders vars' skip s).1 ≡ []
unfolding replace_placeholders
missing-Covers vars vars' String.[] skip c h = refl
missing-Covers vars vars' (String.◌∷◌ d s) (suc skip) c h = missing-Covers vars vars' s skip c h
missing-Covers vars vars' (String.◌∷◌ d s) zero c h =
    elim (Option-cases (placeholder (String.◌∷◌ d s))) [
      | inl e ↦
          rw (e, replace_placeholders)
            (missing-Covers vars vars' s zero c (rw (e, replace_placeholders) at h))
      | inr (key, e) ↦
          rw (e, replace_placeholders)
            (note_missing-nil key vars vars' _ _ c (missing-Covers vars vars' s (size key + 3) c)
              (rw (e, replace_placeholders) at h))
    ]

-- A template that can be rendered with some variables can be with more.
render_template-Covers :
    (template : String) (vars vars' : Dict String) (text : String)
    → Covers vars vars'
    → render_template template vars ≡ ok text
    → (text' : String) × (render_template template vars' ≡ ok text')
unfolding render_template
render_template-Covers template vars vars' text c e =
    elim (List-cases (replace_placeholders vars 0 template).1) [
      | inl h ↦ (
        (replace_placeholders vars' 0 template).0,
        rw (missing-Covers vars vars' template 0 c h, render_template) refl,
      )
      | inr (x, rest, h) ↦ (let e' = rw (h, render_template) at e in grind arith)
    ]

-- A prompt whose two templates can be rendered, and what is left of `Validate` behind it.
render-Covers :
    (p : PromptTemplate) (vars vars' : Dict String) (text : String)
    → Covers vars vars'
    → render p vars ≡ ok text
    → (text' : String) × (render p vars' ≡ ok text')
unfolding render
render-Covers p vars vars' text c e = elim (Bool-cases (is_empty (trim_space p.user))) [
  | inl b ↦ ("", rw b refl)
  | inr b ↦ rw b (render_template-Covers p.user vars vars' text c (rw b at e))
]

render_system-Covers :
    (p : PromptTemplate) (vars vars' : Dict String) (text : String)
    → Covers vars vars'
    → render_system p vars ≡ ok text
    → (text' : String) × (render_system p vars' ≡ ok text')
unfolding render_system
render_system-Covers p vars vars' text c e = elim (Bool-cases (is_empty (trim_space p.system))) [
  | inl b ↦ ("", rw b refl)
  | inr b ↦ rw b (render_template-Covers p.system vars vars' text c (rw b at e))
]

pub Renders-Covers :
    (p : PromptTemplate) (vars vars' : Dict String)
    → Covers vars vars'
    → Renders p vars
    → Renders p vars'
Renders-Covers p vars vars' c r =
    let (user, user_eq) = render-Covers p vars vars' r.user c r.user_eq in
    let (system, system_eq) = render_system-Covers p vars vars' r.system c r.system_eq in
    record { user = user; user_eq = user_eq; system = system; system_eq = system_eq }

Outcome-cases :
    {A : Type 0} (r : Outcome PromptError A)
    → ((a : A) × (r ≡ ok a)) ⊎ ((e : PromptError) × (r ≡ err e))
Outcome-cases (ok a) = inl (a, refl)
Outcome-cases (err e) = inr (e, refl)

-- A template without an error in `Validate` can be rendered with the variables of `Validate`.
check_prompt-Renders :
    (name agent : String) (p : PromptTemplate)
    → check_prompt name agent p (render p (check_variables name)) ≡ none
    → Renders p (check_variables name)
unfolding check_prompt check_system
check_prompt-Renders name agent p h = elim (Outcome-cases (render p (check_variables name))) [
  | inr (e, b) ↦ (let h' = rw b at h in grind arith)
  | inl (user, b) ↦ elim (Outcome-cases (render_system p (check_variables name))) [
    | inr (e, b') ↦ (let h' = rw (b, b') at h in grind arith)
    | inl (system, b') ↦ record { user = user; user_eq = b; system = system; system_eq = b' }
  ]
]

-- If `Validate` finds no error, then each of the templates can be rendered.
pub check_prompts-Renders :
    (name : String) (prompts : Dict PromptTemplate) (agent : String) (p : PromptTemplate)
    → check_prompts name prompts ≡ none
    → get prompts agent ≡ some p
    → Renders p (check_variables name)
unfolding check_prompts get
check_prompts-Renders name [] agent p h g = (let g' : none ≡ some p = g in grind arith)
check_prompts-Renders name ((key, q) ∷ rest) agent p h g =
    elim (Bool-cases (is_empty (trim_space key))) [
      | inl b ↦ (let h' = rw b at h in grind arith)
      | inr b ↦ elim (Option-cases (check_prompt name key q (render q (check_variables name)))) [
        | inr (e, b') ↦ (let h' = rw (b, b') at h in grind arith)
        | inl b' ↦ elim (Bool-cases (key == agent)) [
          | inl same ↦
              let g' : some q ≡ some p = rw same at g in
              subst (λ r. Renders r (check_variables name)) (some-injective q p g')
                (check_prompt-Renders name key q b')
          | inr other ↦ check_prompts-Renders name rest agent p (rw (b, b') at h) (rw other at g)
        ]
      ]
    ]
