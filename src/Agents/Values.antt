-- ===== src/Agents/Values.antt =====
-- internal/runtime: the values of the context that the agents of a run share. Go's `any` is the
-- type `Value`, with a constructor for each type that the runtime stores there and asserts; what a
-- decoder of JSON answers for an object is `object`. JSON itself is a parameter.
use code_co_driver.Prelude.{
  if◌then◌else◌, Outcome, ok, err, ℕ, suc, String, ◌≡◌, refl, Bool, Option, none, some, List, [],
  ◌∷◌, arith, ◌==◌, eq_iff, eq_refl,
}
use code_co_driver.Prelude.Text.{join}
use code_co_driver.Domain.{MemoryEntry}
use code_co_driver.Skills.Registry.{Skill}
use code_co_driver.Skills.Router.{RouteResult}

-- `sandbox.Report`
pub record Report : Type 0 where
  pub status : String
  pub patch_extracted : Bool
  pub applied : Bool
  pub test_command : String
  pub passed : Bool
  pub changed_files : List String
  pub output : String
  pub error : String

pub record WorkflowDecision : Type 0 where
  pub decision : String
  pub next : String
  pub target : String
  pub reason : String

pub record PlannerSkipEvidence (F : Type 0) : Type 0 where
  pub memory_id : String
  pub source_task_id : String
  pub memory_title : String
  pub changed_files : List String
  pub score : F
  pub reason : String

mutual
  pub data Value (F : Type 0) : Type 0 where
    text : String → Value F
    number : ℕ → Value F
    flag : Bool → Value F
    names : List String → Value F
    memory_list : List (MemoryEntry F) → Value F
    skill_list : List Skill → Value F
    selection : RouteResult F → Value F
    test_report : Report → Value F
    workflow_decision : WorkflowDecision → Value F
    skip_evidence : PlannerSkipEvidence F → Value F
    history : Objects F → Value F
    object : Fields F → Value F
    null : Value F

  -- `map[string]any`
  pub data Fields (F : Type 0) : Type 0 where
    no_fields : Fields F
    field : String → Value F → Fields F → Fields F

  -- `[]map[string]any`
  pub data Objects (F : Type 0) : Type 0 where
    no_objects : Objects F
    entry : Fields F → Objects F → Objects F

-- What the runtime takes of `encoding/json` and `fmt`. The encoders answer the text, or that of the
-- error; the decoders answer nothing for an error. `decode` is into `map[string]any`, the others
-- are into the structs with these fields; `quote` is `%q`, `two_digits` is `%.2f`.
pub record Codec (F : Type 0) : Type 0 where
  pub encode : Value F → Outcome String String
  pub encode_indent : Value F → Outcome String String
  pub encode_notes : List String → Outcome String String
  pub decode : String → Option (Fields F)
  pub decode_decision : String → Option WorkflowDecision
  pub decode_feedback : String → Option String
  pub decode_verdict : String → Option (Bool × Bool)
  pub decode_notes : String → Option (List String)
  pub quote : String → String
  pub two_digits : F → String

-- A text, or the empty one where the assertion fails.
abbrev pub text_or_empty : Option String → String
text_or_empty none = ""
text_or_empty (some s) = s

module _ {F : Type 0} where
  -- `value, ok := m[key]`
  unfoldable pub lookup : Fields F → String → Option (Value F)
  lookup no_fields key = none
  lookup (field k v rest) key = if k == key then some v else lookup rest key

  -- `m[key] = value`
  unfoldable pub assign : Fields F → String → Value F → Fields F
  assign no_fields key value = field key value no_fields
  assign (field k v rest) key value =
      if k == key then field key value rest else field k v (assign rest key value)

  -- `delete(m, key)`
  unfoldable pub remove : Fields F → String → Fields F
  remove no_fields key = no_fields
  remove (field k v rest) key =
      let rest' = remove rest key in if k == key then rest' else field k v rest'

  -- The type assertions on a value, as Go's form with two results answers them.
  abbrev pub as_text : Option (Value F) → Option String
  as_text (some (text s)) = some s
  as_text _ = none

  abbrev pub as_object : Option (Value F) → Option (Fields F)
  as_object (some (object fields)) = some fields
  as_object _ = none

  abbrev pub as_names : Option (Value F) → Option (List String)
  as_names (some (names ns)) = some ns
  as_names _ = none

  abbrev pub as_number : Option (Value F) → Option ℕ
  as_number (some (number n)) = some n
  as_number _ = none

  abbrev pub as_memories : Option (Value F) → Option (List (MemoryEntry F))
  as_memories (some (memory_list ms)) = some ms
  as_memories _ = none

  abbrev pub as_skills : Option (Value F) → List Skill
  as_skills (some (skill_list ss)) = ss
  as_skills _ = []

  abbrev pub as_report : Option (Value F) → Option Report
  as_report (some (test_report r)) = some r
  as_report _ = none

  abbrev pub as_history : Option (Value F) → Option (Objects F)
  as_history (some (history h)) = some h
  as_history _ = none

  -- `contextInt`
  unfoldable pub context_int : Fields F → String → ℕ
  unfolding lookup
  context_int context key = elim (as_number (lookup context key)) [ none ↦ 0 | some n ↦ n ]

  -- `marshalArtifact`
  unfoldable pub marshal_artifact : Codec F → Value F → String
  marshal_artifact codec value = elim (codec.encode_indent value) [
    | ok s ↦ s
    | err e ↦ join ("{\"error\":" ∷ codec.quote e ∷ "}" ∷ []) ""
  ]

  -- `memoryContextFiles` and `memoryContextSymbols`
  unfoldable pub codebase_names : Fields F → String → List String
  codebase_names context key = elim (as_object (lookup context "codebase")) [
    | none ↦ []
    | some codebase ↦ elim (as_names (lookup codebase key)) [ none ↦ [] | some ns ↦ ns ]
  ]

  unfoldable pub memory_context_files : Fields F → List String
  unfolding codebase_names
  memory_context_files context = codebase_names context "files"

  unfoldable pub memory_context_symbols : Fields F → List String
  unfolding codebase_names
  memory_context_symbols context = codebase_names context "symbols"

  -- `append` on a history.
  unfoldable pub append_entry : Objects F → Fields F → Objects F
  append_entry no_objects e = entry e no_objects
  append_entry (entry x xs) e = entry x (append_entry xs e)

  -- `len` of a history.
  unfoldable pub count_entries : Objects F → ℕ
  count_entries no_objects = 0
  count_entries (entry x xs) = suc (count_entries xs)

  -- What a later read of a key finds.
  pub lookup-assign :
      (m : Fields F) (k j : String) (v : Value F)
      → lookup (assign m k v) j ≡ (if k == j then some v else lookup m j)
  unfolding lookup assign
  lookup-assign no_fields k j v = refl
  lookup-assign (field i w m) k j v =
      ground (arith, eq_iff k j, eq_iff i k, eq_iff i j, lookup-assign m k j v)

  pub context_int-assign :
      (m : Fields F) (k : String) (n : ℕ) → context_int (assign m k (number n)) k ≡ n
  unfolding context_int
  context_int-assign m k n = rw (lookup-assign m k k (number n), eq_refl k, context_int) refl
