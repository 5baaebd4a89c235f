-- ===== src/Agents/Review.antt =====
-- internal/runtime: what is read from the answers of the reviewer and of the orchestrator.
use code_co_driver.Prelude.{
  ltb, if◌then◌else◌, any, ℕ, ◌+◌, String, ◌||◌, Option, none, some, List, [], ◌∷◌, ◌==◌,
}
use code_co_driver.Prelude.Text.{Unicode, trim_space, is_empty, join}
use code_co_driver.Prelude.Slices.{
  size, trim, to_upper, split, cut, cut_last, trim_prefix, trim_suffix,
}
use code_co_driver.Agents.Values.{
  Codec, Value, Fields, WorkflowDecision, text, object, workflow_decision, lookup, as_text,
  as_object, text_or_empty,
}
use code_co_driver.Agents.Requests.{review_approve, review_request_changes, review_human_required}

abbrev pub review_decisions : List String
review_decisions = review_approve ∷ review_request_changes ∷ review_human_required ∷ []

-- The candidate that a line is, alone or behind its label.
unfoldable pub line_decision : String → List String → Option String
line_decision line [] = none
line_decision line (candidate ∷ rest) =
    let later = line_decision line rest in
    if line == candidate || line == join ("DECISION: " ∷ candidate ∷ []) ""
    then some candidate
    else later

-- The loop over the lines from the last to the first: the decision of the last line that is one.
unfoldable pub last_line_decision : List String → Option String
unfolding line_decision
last_line_decision [] = none
last_line_decision (line ∷ lines) = elim (last_line_decision lines) [
  | some decision ↦ some decision
  | none ↦ line_decision (trim line " \t#*:-.") review_decisions
]

-- `strings.LastIndex`, counted in characters, and 0 where there is none: one more than the index.
unfoldable pub last_index : String → String → ℕ
last_index s sep = elim (cut_last s sep) [ none ↦ 0 | some (before, after) ↦ size before + 1 ]

-- The loop over the candidates that looks for the last occurrence.
unfoldable pub last_mentioned : String → String → ℕ → List String → String
unfolding last_index
last_mentioned upper decision index [] = decision
last_mentioned upper decision index (candidate ∷ rest) =
    let found = last_index upper candidate in
    last_mentioned upper (if ltb index found then candidate else decision)
      (if ltb index found then found else index) rest

-- `parseReviewDecision`
unfoldable pub parse_review_decision : Unicode → String → String
unfolding last_line_decision last_mentioned
parse_review_decision u content =
    let upper = to_upper u content in
    elim (last_line_decision (split upper "\n")) [
      | some decision ↦ decision
      | none ↦ last_mentioned upper review_human_required 0 review_decisions
    ]

abbrev pub no_decision : WorkflowDecision
no_decision = record { decision = ""; next = ""; target = ""; reason = "" }

-- A decoded decision that names a step.
unfoldable pub usable_decision : Option WorkflowDecision → Option WorkflowDecision
usable_decision none = none
usable_decision (some d) = if is_empty d.next then none else some d

-- `content[start:end+1]`, from the first opening to the last closing brace, if they stand so.
unfoldable pub braced : String → Option String
braced content = elim (cut content "{") [
  | none ↦ none
  | some (before, after) ↦ elim (cut_last after "}") [
    | none ↦ none
    | some (body, rest) ↦ some (join ("{" ∷ body ∷ "}" ∷ []) "")
  ]
]

module _ {F : Type 0} where
  -- `reviewDecisionFromResult`
  unfoldable pub review_decision_from_result : Value F → String
  review_decision_from_result output = elim (as_object (some output)) [
    | none ↦ review_human_required
    | some result ↦
        let decision = text_or_empty (as_text (lookup result "decision")) in
        if any (λ d. decision == d) review_decisions then decision else review_human_required
  ]

  -- `parseWorkflowDecisionText`
  unfoldable pub parse_workflow_decision_text : Codec F → String → WorkflowDecision
  unfolding usable_decision braced
  parse_workflow_decision_text codec content =
      let fenced = trim_prefix (trim_prefix (trim_space content) "```json") "```" in
      let body = trim_space (trim_suffix fenced "```") in
      let inner : Option WorkflowDecision = elim (braced body) [
        | none ↦ none
        | some object_text ↦ usable_decision (codec.decode_decision object_text)
      ] in
      elim (usable_decision (codec.decode_decision body)) [
        | some d ↦ d
        | none ↦ elim inner [ some d ↦ d | none ↦ no_decision ]
      ]

  -- The case of `parseWorkflowDecision` for an object.
  unfoldable pub object_decision : Fields F → WorkflowDecision
  object_decision fields =
      let next = text_or_empty (as_text (lookup fields "next_step")) in
      record {
        decision = text_or_empty (as_text (lookup fields "decision"));
        next = if is_empty next then text_or_empty (as_text (lookup fields "next")) else next;
        target = text_or_empty (as_text (lookup fields "target"));
        reason = text_or_empty (as_text (lookup fields "reason"));
      }

  -- `parseWorkflowDecision`
  unfoldable pub parse_workflow_decision : Codec F → Value F → WorkflowDecision
  unfolding parse_workflow_decision_text object_decision
  parse_workflow_decision codec (workflow_decision d) = d
  parse_workflow_decision codec (object fields) = object_decision fields
  parse_workflow_decision codec (text content) = parse_workflow_decision_text codec content
  parse_workflow_decision codec _ = no_decision
