-- ===== src/Skills/Prompt.antt =====
-- internal/skills/prompt.go: the templates of prompts. The regular expression
-- `\{\{([A-Za-z0-9_.]+)\}\}` is a scan by characters.
use code_co_driver.Prelude.{
  leb, nat_eq, if◌then◌else◌, Outcome, ok, err, ℕ, zero, suc, ◌+◌, String, ◌≡◌, refl, Bool, ◌&&◌,
  ◌||◌, Option, none, some, List, [], ◌∷◌,
}
use Prim.Native.Char.{Char, code}
use Prim.Native.String.{◌++◌ as append}
use code_co_driver.Prelude.Text.{trim_space, is_empty}
use code_co_driver.Prelude.Slices.{size, text_lt}
use code_co_driver.Prelude.Sort.{sort}
use code_co_driver.Prelude.Dict.{Dict, get}
use code_co_driver.Prelude.Members.{has_text}

pub record PromptTemplate : Type 0 where
  pub name : String
  pub description : String
  pub system : String
  pub user : String

abbrev pub is_key_char : Char → Bool
is_key_char c =
    (leb 65 (code c) && leb (code c) 90)
    || (leb 97 (code c) && leb (code c) 122)
    || (leb 48 (code c) && leb (code c) 57)
    || nat_eq (code c) 95
    || nat_eq (code c) 46

-- The end of a placeholder: the key, where two closing braces follow it.
unfoldable pub key_and_close : String → Option String
key_and_close String.[] = none
key_and_close (String.◌∷◌ c String.[]) = none
key_and_close (String.◌∷◌ c (String.◌∷◌ d s)) =
    let rest = key_and_close (String.◌∷◌ d s) in
    if is_key_char c
    then (elim rest [ none ↦ none | some key ↦ some (String.◌∷◌ c key) ])
    else if nat_eq (code c) b'}' && nat_eq (code d) b'}'
    then some String.[]
    else none

-- The key of the placeholder that a text begins with, if it begins with one.
unfoldable pub placeholder : String → Option String
unfolding key_and_close
placeholder String.[] = none
placeholder (String.◌∷◌ c String.[]) = none
placeholder (String.◌∷◌ c (String.◌∷◌ d s)) =
    if nat_eq (code c) b'{' && nat_eq (code d) b'{'
    then (elim (key_and_close s) [
      | none ↦ none
      | some String.[] ↦ none
      | some (String.◌∷◌ k key) ↦ some (String.◌∷◌ k key)
    ])
    else none

-- What a placeholder is replaced by, and its key if it has no value.
abbrev pub fill : Dict String → String → Option String → String
fill vars key none = append "{{" (append key "}}")
fill vars key (some value) = value

abbrev pub note_missing : String → Option String → List String → List String
note_missing key none missing = if has_text key missing then missing else key ∷ missing
note_missing key (some value) missing = missing

-- `ReplaceAllStringFunc` with the function of `renderTemplate`: the text, and the keys without a
-- value. The first `skip` characters belong to a placeholder that is already replaced.
unfoldable pub replace_placeholders : Dict String → ℕ → String → String × List String
unfolding placeholder
replace_placeholders vars skip String.[] = (String.[], List.[])
replace_placeholders vars (suc skip) (String.◌∷◌ c s) = replace_placeholders vars skip s
replace_placeholders vars zero (String.◌∷◌ c s) = elim (placeholder (String.◌∷◌ c s)) [
  | none ↦ let (text, missing) = replace_placeholders vars zero s in (String.◌∷◌ c text, missing)
  | some key ↦
      let (text, missing) = replace_placeholders vars (size key + 3) s in
      (append (fill vars key (get vars key)) text, note_missing key (get vars key) missing)
]

-- The error names the missing variables, in order.
pub data PromptError : Type 0 where
  missing_variables : List String → PromptError

-- `renderTemplate`
unfoldable pub render_template : String → Dict String → Outcome PromptError String
unfolding replace_placeholders
render_template template vars =
    let (text, missing) = replace_placeholders vars zero template in
    elim missing [
      | List.[] ↦ ok text
      | List.◌∷◌ key keys ↦ err (missing_variables (sort text_lt (List.◌∷◌ key keys)))
    ]

-- `Render`
unfoldable pub render : PromptTemplate → Dict String → Outcome PromptError String
unfolding render_template
render p vars = if is_empty (trim_space p.user) then ok "" else render_template p.user vars

-- `RenderSystem`
unfoldable pub render_system : PromptTemplate → Dict String → Outcome PromptError String
unfolding render_template
render_system p vars =
    if is_empty (trim_space p.system) then ok "" else render_template p.system vars

render_runs :
    render_template "Fix {{task_title}} {{ in {{x}}!" (("task_title", "it") ∷ ("x", "go") ∷ [])
    ≡ ok "Fix it {{ in go!"
unfolding render_template get
render_runs = refl
