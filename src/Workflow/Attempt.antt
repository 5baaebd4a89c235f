-- ===== src/Workflow/Attempt.antt =====
-- internal/runtime/workflow.go: one attempt of `runPatchLoop`. The loop's `summary` is one map, in the
-- history and in the context, so the decision of the review shows in both.
use code_co_driver.Prelude.{
  if◌then◌else◌, ok, ℕ, ◌+◌, String, Bool, false, ◌&&◌, ◌||◌, Option, none, some, [], ◌==◌,
}
use code_co_driver.Prelude.Text.{Unicode}
use code_co_driver.Domain.{generating_patch, running_tests, reviewing, replan_required}
use code_co_driver.Runtime.{Service}
use code_co_driver.Agents.Values.{
  Value, Fields, Objects, Report, text, object, history, no_objects, entry, assign, remove,
  as_report, append_entry,
}
use code_co_driver.Agents.Requests.{AgentResult, review_approve, review_human_required}
use code_co_driver.Agents.Review.{review_decision_from_result}
use code_co_driver.Agents.Repair.{attempt_summary, repair_feedback, review_feedback}
use code_co_driver.Workflow.Steps.{Ran, Surroundings, Job, and_then, run_agent_step}

-- The report that a failed assertion leaves.
abbrev pub zero_report : Report
zero_report = record {
  status = "";
  patch_extracted = false;
  applied = false;
  test_command = "";
  passed = false;
  changed_files = [];
  output = "";
  error = "";
}

-- What the loop carries: the context and the history. `decision` is there once the loop is left.
pub record LoopState (F : Type 0) : Type 0 where
  pub context : Fields F
  pub attempts : Objects F
  pub decision : Option String

-- Whether the tests of an attempt passed.
abbrev pub is_passed : Option Report → Bool
is_passed none = false
is_passed (some report) = report.applied && report.passed

abbrev pub report_or_zero : Option Report → Report
report_or_zero none = zero_report
report_or_zero (some report) = report

-- The instructions for the next attempt.
abbrev pub review_instruction : String
review_instruction =
    "The patch applied and tests passed, but Reviewer requested changes. Regenerate the patch to address every review finding and retain passing tests."

abbrev pub sandbox_instruction : String
sandbox_instruction =
    "Discard the previous diff. Regenerate all hunks from the exact current source in context_pack and address the sandbox error."

-- Whether the loop ends on a decision.
abbrev pub ends_loop : Option String → Bool
ends_loop none = false
ends_loop (some decision) = decision == review_approve || decision == review_human_required

module _ {F : Type 0} where
  -- `summary["review_decision"] = …`, on the last entry.
  unfoldable pub note_decision : Objects F → String → Objects F
  note_decision no_objects decision = no_objects
  note_decision (entry x no_objects) decision =
      entry (assign x "review_decision" (text decision)) no_objects
  note_decision (entry x (entry y h)) decision = entry x (note_decision (entry y h) decision)

  -- The context behind a review.
  unfoldable pub reviewed : Fields F → Objects F → AgentResult F → LoopState F
  unfolding note_decision
  reviewed context attempts result =
      let decision = review_decision_from_result result.output in
      let noted = note_decision attempts decision in
      record {
        context =
            assign (assign context "reviewer" result.output) "attempt_history" (history noted);
        attempts = noted;
        decision = some decision;
      }

  -- What is fed back to the next attempt.
  unfoldable pub with_feedback : Fields F → Fields F → String → Fields F
  with_feedback context feedback instruction =
      assign (assign context "repair_feedback" (object feedback)) "repair_instruction"
        (text instruction)

module _ {F W : Type 0} (u : Unicode) (env : Surroundings F W) (job : Job) where
  -- The end of the loop's body: the next plan.
  unfoldable pub planned :
      Fields F → Objects F → AgentResult F → Service F (Value F) → W → Ran F W (LoopState F)
  planned cleared attempts result s w = (
    (
      ok (record {
        context = assign cleared "planner" result.output;
        attempts = attempts;
        decision = none;
      }),
      s,
    ),
    w,
  )

  unfoldable pub replan : ℕ → Fields F → Objects F → Service F (Value F) → W → Ran F W (LoopState F)
  unfolding planned
  replan attempt context attempts s w =
      let cleared = remove (remove (remove context "patch") "test") "reviewer" in
      and_then (run_agent_step env job replan_required env.planner cleared (attempt + 1) s w)
        (planned cleared attempts)

  -- A review: the reviewer's answer is in the context, and its decision in the history.
  unfoldable pub review_given :
      Fields F
      → Objects F
      → AgentResult F
      → Service F (Value F)
      → W
      → Ran F W (LoopState F × AgentResult F)
  unfolding reviewed
  review_given context attempts result s w = ((ok (reviewed context attempts result, result), s), w)

  unfoldable pub review :
      ℕ → Fields F → Objects F → Service F (Value F) → W → Ran F W (LoopState F × AgentResult F)
  unfolding review_given
  review attempt context attempts s w =
      and_then (run_agent_step env job reviewing env.reviewer context attempt s w)
        (review_given context attempts)

  -- The last attempt ends with its review.
  unfoldable pub leave_loop :
      LoopState F × AgentResult F → Service F (Value F) → W → Ran F W (LoopState F)
  leave_loop (l, result) s w = ((ok l, s), w)

  -- Behind the review of an attempt that passed.
  unfoldable pub after_review :
      ℕ → Bool → LoopState F × AgentResult F → Service F (Value F) → W → Ran F W (LoopState F)
  unfolding replan with_feedback
  after_review attempt last (l, result) s w =
      let again =
        replan attempt (with_feedback l.context (review_feedback result.output) review_instruction)
          l.attempts s w in
      if ends_loop l.decision || last then ((ok l, s), w) else again

  -- Behind the tests.
  unfoldable pub after_test :
      ℕ
      → Bool
      → Fields F
      → Objects F
      → Option Report
      → Service F (Value F)
      → W
      → Ran F W (LoopState F)
  unfolding review after_review replan with_feedback leave_loop
  after_test attempt last context attempts report s w =
      let r = report_or_zero report in
      let all = append_entry attempts (attempt_summary u attempt r) in
      let recorded = assign context "attempt_history" (history all) in
      let again =
        replan attempt (with_feedback recorded (repair_feedback u r) sandbox_instruction) all s w in
      if is_passed report
      then and_then (review attempt recorded all s w) (after_review attempt last)
      else if last
      then and_then (review attempt recorded all s w) leave_loop
      else again

  -- The patch and the tests of an attempt.
  unfoldable pub tested :
      ℕ
      → Bool
      → Fields F
      → Objects F
      → AgentResult F
      → Service F (Value F)
      → W
      → Ran F W (LoopState F)
  unfolding after_test
  tested attempt last context attempts result s w =
      after_test attempt last (assign context "test" result.output) attempts
        (as_report (some result.output)) s w

  unfoldable pub patched :
      ℕ
      → Bool
      → Fields F
      → Objects F
      → AgentResult F
      → Service F (Value F)
      → W
      → Ran F W (LoopState F)
  unfolding tested
  patched attempt last context attempts result s w =
      let proposed = assign context "patch" result.output in
      and_then (run_agent_step env job running_tests env.test proposed attempt s w)
        (tested attempt last proposed attempts)

  unfoldable pub attempt_patch :
      ℕ → Bool → Fields F → Objects F → Service F (Value F) → W → Ran F W (LoopState F)
  unfolding patched
  attempt_patch attempt last context attempts s w =
      and_then (run_agent_step env job generating_patch env.patch context attempt s w)
        (patched attempt last context attempts)
