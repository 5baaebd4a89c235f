-- ===== src/Agents/Repair.antt =====
-- internal/runtime/service.go: what is kept of an attempt and fed back to the next one.
use code_co_driver.Prelude.{
  if◌then◌else◌, ok, err, ℕ, String, ◌||◌, Option, none, some, [], ◌∷◌, ◌==◌,
}
use code_co_driver.Prelude.Text.{Unicode, trim_space, to_lower, is_empty, contains, join}
use code_co_driver.Agents.Values.{
  Codec, Value, Fields, Report, number, text, flag, names, object, no_fields, field, lookup, assign,
  as_text, as_object, as_report, text_or_empty,
}
use code_co_driver.Agents.Guidance.{truncate_feedback}

-- `classifyRepairError`
unfoldable pub classify_repair_error : Unicode → Report → String
classify_repair_error u report =
    let joined = to_lower u (join (report.error ∷ report.output ∷ []) " ") in
    if report.status == "invalid_patch"
    then "invalid_patch"
    else if report.status == "tests_failed"
    then "tests_failed"
    else if report.status == "apply_failed"
    then (if contains joined "already exists"
        then "file_already_exists"
        else if contains joined "does not apply" || contains joined "patch failed"
        then "stale_or_invalid_hunk"
        else if contains joined "recount"
        then "malformed_diff"
        else "apply_failed")
    else "unknown"

-- `memoryRootCause`
unfoldable pub memory_root_cause : String → String
memory_root_cause status =
    if status == "apply_failed"
    then "patch apply failure"
    else if status == "test_failed"
    then "tests did not pass"
    else if status == "invalid_patch"
    then "patch format invalid"
    else "sandbox validation failure"

module _ {F : Type 0} where
  -- `repairFeedback`
  unfoldable pub repair_feedback : Unicode → Report → Fields F
  unfolding classify_repair_error
  repair_feedback u report = field "status" (text report.status) (
      field "error_kind" (text (classify_repair_error u report)) (
        field "applied" (flag report.applied) (
          field "passed" (flag report.passed) (
            field "changed_files" (names report.changed_files) (
              field "error" (text report.error)
                (field "output" (text (truncate_feedback report.output)) no_fields))))))

  -- `attemptSummary`
  unfoldable pub attempt_summary : Unicode → ℕ → Report → Fields F
  unfolding repair_feedback
  attempt_summary u attempt report = field "attempt" (number attempt) (repair_feedback u report)

  -- `reviewFeedback`
  unfoldable pub review_feedback : Value F → Fields F
  review_feedback output =
      let result : Fields F = elim (as_object (some output)) [ none ↦ no_fields | some r ↦ r ] in
      field "source" (text "reviewer") (
        field "decision" (text (text_or_empty (as_text (lookup result "decision")))) (
          field "review"
            (text (truncate_feedback (text_or_empty (as_text (lookup result "review")))))
            no_fields))

  -- The parts of `verificationEvidence`: the patch, and the report of the tests.
  unfoldable pub patch_evidence : Fields F → Fields F → Fields F
  patch_evidence context evidence = elim (as_object (lookup context "patch")) [
    | none ↦ evidence
    | some patch ↦ elim (as_text (lookup patch "proposal")) [
      | none ↦ evidence
      | some proposal ↦
          if is_empty (trim_space proposal)
          then evidence
          else assign evidence "patch" (text proposal)
    ]
  ]

  unfoldable pub test_evidence : Option Report → Fields F → Fields F
  test_evidence none evidence = evidence
  test_evidence (some report) evidence =
      let verdict =
        assign
          (assign (assign evidence "test_status" (text report.status)) "applied"
            (flag report.applied))
          "passed" (flag report.passed) in
      if is_empty (trim_space report.output)
      then verdict
      else assign verdict "test_output" (text report.output)

  -- The text of the evidence, if there is any.
  unfoldable pub evidence_text : Codec F → Fields F → String
  evidence_text codec no_fields = "sandbox validation and reviewer approval completed"
  evidence_text codec (field k v rest) = elim (codec.encode_indent (object (field k v rest))) [
    | ok content ↦ truncate_feedback content
    | err e ↦ "sandbox validation and reviewer approval completed"
  ]

  -- `verificationEvidence`
  unfoldable pub verification_evidence : Codec F → Fields F → String
  unfolding patch_evidence test_evidence evidence_text
  verification_evidence codec context =
      evidence_text codec
        (test_evidence (as_report (lookup context "test")) (patch_evidence context no_fields))
