-- ===== src/Runtime/Evidence.antt =====
-- internal/runtime/service.go: what the runtime reads from the runs and the artifacts of a task.
use code_co_driver.Prelude.{
  ltb, nat_eq, if◌then◌else◌, select, any, count, get_last?, ℕ, ◌+◌, String, Bool, true, false,
  ◌&&◌, ◌||◌, not, Option, none, some, List, [], ◌∷◌, ◌==◌,
}
use Prim.Native.String.{◌++◌ as append}
use code_co_driver.Prelude.Text.{
  Unicode, trim_space, to_lower, is_empty, contains, has_prefix, fields, join, byte_length,
}
use code_co_driver.Prelude.Slices.{text_lt, cut, trim, from_byte}
use code_co_driver.Domain.{Task, TaskRun, Artifact}
use code_co_driver.Store.{Memory, runs, artifacts}
use code_co_driver.Agents.Values.{
  Value, Codec, Fields, text, lookup, assign, as_text, text_or_empty,
}
use code_co_driver.Agents.Requests.{review_approve}
use code_co_driver.Agents.Review.{parse_review_decision}
use code_co_driver.Agents.Planner.{has_planner_artifact_decision, planner_skip_artifact_type}

-- `testCommandToken`
unfoldable pub test_command_token : Unicode → String → Bool
test_command_token u word =
    let lower = to_lower u word in
    if is_empty word
    then false
    else has_prefix lower "./" || has_prefix lower "-" || contains lower "/" || lower == "all"

-- The loop over the words behind the command, up to the first that is no part of it.
unfoldable pub command_words : Unicode → List String → List String
unfolding test_command_token
command_words u [] = []
command_words u (word ∷ words) =
    let clean = trim word "\"'`(),;:" in
    let rest = command_words u words in if test_command_token u clean then clean ∷ rest else []

-- The command from its words.
unfoldable pub test_command : List String → String
test_command [] = ""
test_command (word ∷ words) = join ("go" ∷ "test" ∷ word ∷ words) " "

-- `extractTestCommandFromFeedback`; the slice of the text is at an index of its lower case, and
-- `none` is the panic of a slice behind the end.
unfoldable pub extract_test_command_from_feedback : Unicode → String → Option String
unfolding command_words test_command
extract_test_command_from_feedback u feedback = elim (cut (to_lower u feedback) "go test") [
  | none ↦ some ""
  | some (before, after) ↦ elim (from_byte (byte_length before + 7) feedback) [
    | none ↦ none
    | some rest ↦ some (test_command (command_words u (fields rest)))
  ]
]

-- The command; a panic, which ends the process, is read as no command.
abbrev pub command_or_empty : Option String → String
command_or_empty none = ""
command_or_empty (some command) = command

-- Whether an artifact is newer than the one that is kept.
abbrev pub is_newer : Option Artifact → Artifact → Bool
is_newer none a = true
is_newer (some latest) a =
    ltb latest.created_at a.created_at
    || (nat_eq a.created_at latest.created_at && text_lt latest.id a.id)

-- The newest of the artifacts that pass a test.
unfoldable pub newest : (Artifact → Bool) → Option Artifact → List Artifact → Option Artifact
newest wanted latest [] = latest
newest wanted latest (a ∷ rest) =
    newest wanted (if wanted a && is_newer latest a then some a else latest) rest

-- The line behind the marker of a requirement, up to a heading.
unfoldable pub requirement_line : String → String
requirement_line rest =
    let line : String = elim (cut rest "\n") [ none ↦ rest | some (before, after) ↦ before ] in
    let plain : String = elim (cut line "###") [ none ↦ line | some (before, after) ↦ before ] in
    trim_space plain

-- The feedback that a review asks for.
unfoldable pub review_requirement : String → String
unfolding requirement_line
review_requirement review = elim (cut review "Required:") [
  | none ↦ ""
  | some (before, after) ↦
      let line = requirement_line after in
      if is_empty line then "" else append "Please address the reviewer requirement: " line
]

module _ {F : Type 0} (u : Unicode) (codec : Codec F) where
  -- `latestRunID`
  unfoldable pub latest_run_id : Memory F (Value F) → String → String
  latest_run_id m task_id = elim (get_last? (runs m task_id)) [ none ↦ "" | some r ↦ r.id ]

  -- `hasPlannerSkipProposal`
  unfoldable pub has_planner_skip_proposal : Memory F (Value F) → String → Bool
  has_planner_skip_proposal m task_id =
      has_planner_artifact_decision codec (artifacts m task_id) "SKIP_SUGGESTED"

  -- `hasReviewerApproval`
  unfoldable pub has_reviewer_approval : Memory F (Value F) → String → Bool
  unfolding newest
  has_reviewer_approval m task_id =
      elim (newest (λ a. a.type == "review") none (artifacts m task_id)) [
        | none ↦ false
        | some review ↦ parse_review_decision u review.content == review_approve
      ]

  -- What the report of the tests says, if it can be read.
  unfoldable pub report_passed : Option (Bool × Bool) → Bool
  report_passed none = false
  report_passed (some (applied, passed)) = applied && passed

  -- Evidence of a run that has no report of tests: an explanation, or a proposal to skip.
  unfoldable pub other_evidence : String → Artifact → Bool
  other_evidence run_id a =
      a.run_id == run_id
      && ((a.type == "explanation" && not (is_empty (trim_space a.content)))
          || a.type == planner_skip_artifact_type)

  -- `hasRealSandboxPass`; where there is no latest report there is no report at all.
  unfoldable pub has_real_sandbox_pass : Memory F (Value F) → String → Bool
  unfolding latest_run_id newest report_passed has_reviewer_approval other_evidence
  has_real_sandbox_pass m task_id =
      let run_id = latest_run_id m task_id in
      elim (newest (λ a. a.run_id == run_id && a.type == "test_report") none
        (artifacts m task_id)) [
          | some report ↦
              report_passed (codec.decode_verdict report.content) && has_reviewer_approval m task_id
          | none ↦ any (other_evidence run_id) (artifacts m task_id)
        ]

  -- `countHumanFeedback`
  unfoldable pub count_human_feedback : Memory F (Value F) → String → ℕ
  count_human_feedback m task_id =
      count (λ (a : Artifact). a.type == "human_feedback") (artifacts m task_id)

  -- `evaluationFeedbackFromReview`
  unfoldable pub evaluation_feedback_from_review : Memory F (Value F) → String → String
  unfolding extract_test_command_from_feedback review_requirement
  evaluation_feedback_from_review m task_id =
      let reviews = select (λ (a : Artifact). a.type == "review") (artifacts m task_id) in
      let review : String = elim (get_last? reviews) [ none ↦ "" | some a ↦ a.content ] in
      let command = command_or_empty (extract_test_command_from_feedback u review) in
      if is_empty review
      then ""
      else if is_empty command
      then review_requirement review
      else join
          ("Re-run validation with " ∷ command ∷ " and confirm tests pass before approving." ∷ [])
          ""

  -- Whether an artifact says that the task is an explanation.
  unfoldable pub explains : Artifact → Bool
  explains a =
      let decided : Bool = elim (codec.decode_decision a.content) [
        | none ↦ false
        | some d ↦ d.decision == "explain"
      ] in
      let selected : Bool = elim (codec.decode a.content) [
        | none ↦ false
        | some payload ↦
            text_or_empty (as_text (lookup payload "workflow")) == "explanation_agent_loop"
            || text_or_empty (as_text (lookup payload "primary_skill")) == "code-explainer"
      ] in
      (a.type == "workflow_decision" && decided) || (a.type == "skill_selection" && selected)

  -- `hasExplanationWorkflow`
  unfoldable pub has_explanation_workflow : Memory F (Value F) → String → Bool
  unfolding explains
  has_explanation_workflow m task_id = any explains (artifacts m task_id)

  -- The run before the current one.
  unfoldable pub previous_run_id : String → List TaskRun → String
  previous_run_id current all =
      elim (get_last? (select (λ (r : TaskRun). not (r.id == current)) all)) [
        | none ↦ ""
        | some r ↦ r.id
      ]

  -- What an artifact of the previous run adds to the context.
  unfoldable pub feedback_context : Fields F → Option String → Fields F
  unfolding extract_test_command_from_feedback
  feedback_context context none = context
  feedback_context context (some feedback) =
      let command = command_or_empty (extract_test_command_from_feedback u feedback) in
      let with_feedback = assign context "human_feedback" (text feedback) in
      if is_empty feedback
      then context
      else if is_empty command
      then with_feedback
      else assign with_feedback "test_command_override" (text command)

  unfoldable pub artifact_context : Fields F → Artifact → Fields F
  unfolding feedback_context
  artifact_context context a =
      if a.type == "review"
      then assign context "previous_review" (text a.content)
      else if a.type == "patch_proposal"
      then assign context "previous_patch" (text a.content)
      else if a.type == "test_report"
      then assign context "previous_test_report" (text a.content)
      else if a.type == "human_feedback"
      then feedback_context context (codec.decode_feedback a.content)
      else context

  unfoldable pub feedback_artifacts : String → Fields F → List Artifact → Fields F
  unfolding artifact_context
  feedback_artifacts previous context [] = context
  feedback_artifacts previous context (a ∷ rest) =
      feedback_artifacts previous
        (if not (is_empty previous) && not (a.run_id == previous)
          then context
          else artifact_context context a)
        rest

  -- `loadHumanFeedbackContext`
  unfoldable pub load_human_feedback_context :
      Memory F (Value F) → Task → String → Fields F → Fields F
  unfolding previous_run_id feedback_artifacts
  load_human_feedback_context m t current_run_id context =
      feedback_artifacts (previous_run_id current_run_id (runs m t.id)) context (artifacts m t.id)
