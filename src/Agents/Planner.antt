-- ===== src/Agents/Planner.antt =====
-- internal/runtime/planner_skip.go: when the planner suggests that a task is done already.
use code_co_driver.Prelude.{
  leb, nat_eq, is_some, if◌then◌else◌, length, any, find_first, count, ℕ, String, Bool, false, ◌&&◌,
  ◌||◌, not, Option, none, some, List, [], ◌∷◌, ◌++◌, map, ◌==◌,
}
use code_co_driver.Prelude.Text.{Unicode, to_lower, is_empty, contains, fields, join}
use code_co_driver.Prelude.Slices.{replace_all, has_suffix}
use code_co_driver.Prelude.Members.{has_text}
use code_co_driver.Prelude.Float.{Float}
use code_co_driver.Domain.{Task, RepositoryFile, Artifact, MemoryEntry}
use code_co_driver.Agents.Values.{
  Codec, Value, Fields, PlannerSkipEvidence, text, skip_evidence, no_fields, field, lookup, as_text,
  as_object, as_memories, text_or_empty,
}
use code_co_driver.Agents.Requests.{AgentRequest, planner_skip_decision}
use code_co_driver.Agents.Guidance.{truncate_feedback}
use code_co_driver.Agents.Recall.{runtime_memory_tokens}

-- `plannerSkipArtifactType`
abbrev pub planner_skip_artifact_type : String
planner_skip_artifact_type = "planner_skip"

-- `documentationTask`
unfoldable pub documentation_task : Unicode → Task → Bool
documentation_task u t = any (contains (to_lower u (join (t.title ∷ t.description ∷ []) " "))) (
    "readme" ∷ "reamdme" ∷ "中文文档" ∷ "文档" ∷ "documentation" ∷ "document" ∷ "markdown" ∷ "docs"
    ∷ ".md" ∷ [])

-- `normalizePlannerPath`
unfoldable pub normalize_planner_path : Unicode → String → String
normalize_planner_path u path = to_lower u (replace_all path "\\" "/")

-- `isDocumentationFile`
unfoldable pub is_documentation_file : Unicode → String → Bool
unfolding normalize_planner_path
is_documentation_file u path =
    let lower = normalize_planner_path u path in has_suffix lower ".md" || contains lower "/docs/"

-- `normalizePlannerText`
unfoldable pub normalize_planner_text : Unicode → String → String
normalize_planner_text u value = to_lower u (join (fields value) " ")

-- `plannerTokenOverlap`: the tokens of a text are distinct, so `seen` refuses none.
unfoldable pub planner_token_overlap : Unicode → String → String → ℕ
planner_token_overlap u left right =
    count (λ token. has_text token (runtime_memory_tokens u left)) (runtime_memory_tokens u right)

-- `hasPlannerArtifactDecision`
unfoldable pub has_planner_artifact_decision :
    {F : Type 0} → Codec F → List Artifact → String → Bool
has_planner_artifact_decision codec artifacts decision =
    any
      (λ (a : Artifact). a.type == planner_skip_artifact_type && elim (codec.decode a.content) [
        | none ↦ false
        | some payload ↦ elim (as_text (lookup payload "decision")) [
          | none ↦ false
          | some value ↦ value == decision
        ]
      ])
      artifacts

-- `plannerSuccessMemory`
unfoldable pub planner_success_memory : String → Bool
planner_success_memory kind =
    kind == "execution_success" || kind == "resolved_pattern" || kind == "refined_execution_success"

module _ {F : Type 0} where
  -- `plannerDecisionFromResult`
  unfoldable pub planner_decision_from_result : Value F → String
  planner_decision_from_result output = elim (as_object (some output)) [
    | none ↦ ""
    | some result ↦ text_or_empty (as_text (lookup result "decision"))
  ]

  -- `plannerSkipReason`
  unfoldable pub planner_skip_reason : Value F → String
  planner_skip_reason output = elim (as_object (some output)) [
    | none ↦ "task appears to already be completed"
    | some result ↦
        let reason = text_or_empty (as_text (lookup result "reason")) in
        truncate_feedback
          (if is_empty reason then "task appears to already be completed" else reason)
  ]

  -- `plannerMemoryCandidates`
  unfoldable pub planner_memory_candidates : Fields F → List (MemoryEntry F)
  planner_memory_candidates context = elim (as_memories (lookup context "memory_candidates")) [
    | some candidates ↦ candidates
    | none ↦ elim (as_memories (lookup context "memory")) [ some ms ↦ ms | none ↦ [] ]
  ]

  -- `plannerExistingDocTarget`
  unfoldable pub planner_existing_doc_target :
      Unicode → MemoryEntry F → List RepositoryFile → String
  unfolding is_documentation_file normalize_planner_path
  planner_existing_doc_target u m files =
      let known = map (normalize_planner_path u) m.changed_files in
      elim (find_first
        (λ (file : RepositoryFile).
          is_documentation_file u file.path && has_text (normalize_planner_path u file.path) known)
        files) [ none ↦ "" | some file ↦ file.path ]

  -- One clause of the score: what it adds, and the reason that it gives.
  abbrev pub add_reason : Float F → Bool → F → String → F × List String → F × List String
  add_reason f test points reason (score, reasons) =
      if test then (f.add score points, reasons ++ reason ∷ []) else (score, reasons)

  -- `minFloat`
  unfoldable pub min_float : Float F → F → F → F
  min_float f left right = if f.lt right left then right else left

  -- `plannerDuplicateScore`
  unfoldable pub planner_duplicate_score :
      Float F → Unicode → MemoryEntry F → Task → List RepositoryFile → F × String
  unfolding normalize_planner_text planner_token_overlap planner_existing_doc_target
      documentation_task min_float
  planner_duplicate_score f u m t files =
      let query = normalize_planner_text u (join (t.title ∷ t.description ∷ []) " ") in
      let known =
        normalize_planner_text u (
          join (m.title ∷ m.summary ∷ m.content ∷ m.condition ∷ m.verification_evidence ∷ [])
            " ") in
      let phrase = not (is_empty known) && (contains known query || contains query known) in
      let title =
        not (is_empty m.title)
        && normalize_planner_text u m.title == normalize_planner_text u t.title in
      let a = add_reason f phrase (f.lit 3 0) "phrase overlap" (f.lit 0 0, []) in
      let b = add_reason f title (f.lit 2 0) "same task title" a in
      let c =
        add_reason f (leb 2 (planner_token_overlap u query known)) (f.lit 15 1)
          "strong keyword overlap" b in
      let (score, reasons) =
        add_reason f (f.lt (f.lit 0 0) m.success_score) (f.lit 1 0) "verified success memory" c in
      let weighted =
        if f.lt (f.lit 0 0) m.score
        then f.add score (min_float f (f.lit 15 1) (f.mul m.score (f.lit 2 1)))
        else score in
      let documented =
        documentation_task u t && not (is_empty (planner_existing_doc_target u m files)) in
      let (total, all) =
        add_reason f documented (f.lit 3 0) "target documentation file already exists"
          (weighted, reasons) in
      (total, join all "; ")

  -- The loop of `suggestPlannerSkip`, with the best evidence so far and its score.
  unfoldable pub best_evidence :
      Float F
      → Unicode
      → Task
      → List RepositoryFile
      → PlannerSkipEvidence F
      → F
      → List (MemoryEntry F)
      → PlannerSkipEvidence F × F
  unfolding planner_success_memory planner_duplicate_score
  best_evidence f u t files best best_score [] = (best, best_score)
  best_evidence f u t files best best_score (m ∷ ms) =
      let (score, reason) = planner_duplicate_score f u m t files in
      let better =
        planner_success_memory m.kind
        && is_empty m.duplicate_of
        && is_empty m.conflict_group_id
        && f.lt best_score score in
      let evidence : PlannerSkipEvidence F = record {
        memory_id = m.id;
        source_task_id = m.task_id;
        memory_title = m.title;
        changed_files = m.changed_files;
        score = score;
        reason = reason;
      } in
      best_evidence f u t files (if better then evidence else best)
        (if better then score else best_score) ms

  -- The answer of the planner for the best evidence.
  unfoldable pub skip_answer : PlannerSkipEvidence F → Fields F
  skip_answer best =
      let reason =
        if is_empty best.reason
        then "historical memory and current file tree indicate the requested work was already completed"
        else best.reason in
      field "decision" (text planner_skip_decision) (
        field "reason" (text reason) (
          field "evidence" (skip_evidence best) (
            field "plan"
              (text
                "Suggested skip: the repository already contains the deliverable from a prior successful execution. Waiting for human confirmation before ending the task.")
              no_fields)))

  -- `suggestPlannerSkip`
  unfoldable pub suggest_planner_skip :
      Float F → Unicode → Codec F → AgentRequest F → Option (Fields F)
  unfolding best_evidence skip_answer has_planner_artifact_decision planner_memory_candidates
  suggest_planner_skip f u codec r =
      let nothing : PlannerSkipEvidence F = record {
        memory_id = "";
        source_task_id = "";
        memory_title = "";
        changed_files = [];
        score = f.lit 0 0;
        reason = "";
      } in
      let (best, best_score) =
        best_evidence f u r.task r.files nothing (f.lit 0 0)
          (planner_memory_candidates r.context) in
      if is_some (lookup r.context "human_feedback")
        || has_planner_artifact_decision codec r.artifacts "continue"
        || nat_eq (length (planner_memory_candidates r.context)) 0
        || f.lt best_score (f.lit 45 1)
      then none
      else some (skip_answer best)
