-- ===== src/MemoryService/Conflicts.antt =====
-- internal/memory/conflict.go: a success and a failure that are alike become a pattern, and
-- internal/memory/service.go, `Process`, the whole of the service's work.
use code_co_driver.Prelude.{
  is_some, if◌then◌else◌, Outcome, ok, err, first_error, ℕ, String, Bool, ◌&&◌, ◌||◌, not, Option,
  none, some, List, [], ◌∷◌, ◌++◌, ◌==◌,
}
use code_co_driver.Prelude.Members.{has_text}
use code_co_driver.Prelude.Text.{Unicode, is_empty, trim_space, join}
use code_co_driver.Prelude.Slices.{text_lt}
use code_co_driver.Prelude.Float.{Float}
use code_co_driver.Domain.{MemoryEntry}
use code_co_driver.Store.{
  Memory, StoreError, add_memory, get_memory, update_memory, search_memory_limit,
}
use code_co_driver.Store.Ids.{id}
use code_co_driver.MemoryService.Similarity.{similarity_score}
use code_co_driver.MemoryService.Dedup.{dedupe_all}
use code_co_driver.MemoryService.Refine.{
  first_non_empty, first_non_empty_slice, memory_evidence, link_memory, refine_all,
}
use code_co_driver.MemoryService.Answers.{
  ConflictResolution, Reader, Client, MemoryError, model_error, no_json, bad_json,
  missing_resolution, store_error, extract_json, refine_batch,
}

abbrev pub as_memory_error : Option StoreError → Option MemoryError
as_memory_error none = none
as_memory_error (some e) = some (store_error e)

-- `pairKey`
unfoldable pub pair_key : String → String → String
pair_key left right =
    if text_lt left right
    then join (left ∷ "|" ∷ right ∷ []) ""
    else join (right ∷ "|" ∷ left ∷ []) ""

module _ {F : Type 0} where
  -- `conflictCandidate`
  unfoldable pub conflict_candidate : MemoryEntry F → String → Bool
  conflict_candidate entry kind =
      entry.kind == kind && is_empty entry.duplicate_of && is_empty entry.conflict_group_id

  -- `conflictQuery`
  unfoldable pub conflict_query : MemoryEntry F → String
  conflict_query entry = trim_space (join (entry.title ∷ entry.symptom ∷ entry.root_cause ∷ []) " ")

  -- The decoded answer, if it can be used.
  unfoldable pub parse_resolution :
      {W : Type 0} → Reader F W → Outcome String String → Outcome MemoryError ConflictResolution
  parse_resolution reader (err e) = err (model_error e)
  parse_resolution reader (ok content) =
      let raw = extract_json content in
      if is_empty raw then err no_json else elim (reader.decode_resolution raw) [
        | none ↦ err bad_json
        | some parsed ↦
            if is_empty (trim_space parsed.resolution) then err missing_resolution else ok parsed
      ]

  -- The memory that `resolveConflict` adds.
  unfoldable pub resolved_pattern :
      Float F → ℕ → String → MemoryEntry F → MemoryEntry F → ConflictResolution → MemoryEntry F
  unfolding first_non_empty first_non_empty_slice
  resolved_pattern f now group success failure parsed = record {
    id = group;
    repository_id = success.repository_id;
    task_id = first_non_empty success.task_id failure.task_id;
    kind = "resolved_pattern";
    title = success.title;
    summary = parsed.resolution;
    symptom = success.symptom;
    root_cause = failure.root_cause;
    changed_files =
        first_non_empty_slice parsed.changed_files (success.changed_files ++ failure.changed_files);
    symbols = parsed.symbols;
    test_command = success.test_command;
    verification_evidence =
        join ("success_memory=" ∷ success.id ∷ "; failure_memory=" ∷ failure.id ∷ []) "";
    success_score = f.lit 1 0;
    source_run_id = success.source_run_id;
    duplicate_of = "";
    conflict_group_id = group;
    condition = parsed.condition;
    refined_at = none;
    content = parsed.resolution;
    source = "conflict_resolver";
    score = f.lit 4 0;
    metadata =
        ("success_memory_id", success.id)
        ∷ ("failure_memory_id", failure.id)
        ∷ ("conflict_group_id", group)
        ∷ [];
    embedding = [];
    links = [];
    last_accessed_at = 0;
    access_count = 0;
    created_at = now;
  }

  -- The success with the task that the pattern has, in the group.
  abbrev pub grouped_success : String → MemoryEntry F → MemoryEntry F → MemoryEntry F
  grouped_success group success failure = record success {
    task_id = first_non_empty success.task_id failure.task_id;
    conflict_group_id = group;
  }

  -- What the inner loop of `resolveConflicts` passes over.
  unfoldable pub no_conflict :
      Float F → Unicode → List String → MemoryEntry F → MemoryEntry F → Bool
  unfolding conflict_candidate pair_key
  no_conflict f u resolved success failure =
      not (conflict_candidate failure "failure_pattern")
      || has_text (pair_key success.id failure.id) resolved
      || f.lt (similarity_score f u success failure) (f.lit 5 1)

module _ {F V : Type 0} where
  -- What follows the update of the success.
  unfoldable pub group_failure :
      String → MemoryEntry F → Memory F V × Option StoreError → Memory F V × Option StoreError
  group_failure group failure (m, some e) = (m, some e)
  group_failure group failure (m, none) =
      update_memory m (record failure { conflict_group_id = group })

module _ {F V : Type 0} (f : Float F) (u : Unicode) where
  -- What `resolveConflict` stores of an answer.
  unfoldable pub store_resolution :
      ℕ
      → Memory F V
      → MemoryEntry F
      → MemoryEntry F
      → ConflictResolution
      → Memory F V × Option StoreError
  unfolding resolved_pattern link_memory group_failure first_non_empty
  store_resolution now m success failure parsed =
      let (group, m1) = id m "conflict" in
      let pattern = resolved_pattern f now group success failure parsed in
      let m2 = add_memory f u m1 pattern in
      let m3 = link_memory now m2 pattern "memory" success.id "success_source" in
      let m4 = link_memory now m3 pattern "memory" failure.id "failure_source" in
      group_failure group failure (update_memory m4 (grouped_success group success failure))

module _ {F V W : Type 0} (f : Float F) (u : Unicode) where
  module _ (reader : Reader F W) (client : Client W) where
    -- `resolveConflict`
    unfoldable pub resolve_conflict :
        Memory F V × W → MemoryEntry F → MemoryEntry F → Option MemoryError × (Memory F V × W)
    unfolding parse_resolution store_resolution
    resolve_conflict (m, w) success failure =
        let (now, w') = reader.now w in
        let prompt =
          join
            ("Success memory:\n"
              ∷ memory_evidence success
              ∷ "\n\nFailure memory:\n"
              ∷ memory_evidence failure
              ∷ "\n\nExplain when the failure occurs, which resolution is validated, and what to recommend. Return strict JSON only with fields: condition, resolution, recommendation, changed_files, symbols."
              ∷ [])
            "" in
        let (answer, w'') =
          client
            "You are a conflict resolver for engineering agent memory. Do not delete either side; synthesize a conditional pattern."
            prompt w' in
        elim (parse_resolution reader answer) [
          | err e ↦ (some e, (m, w''))
          | ok parsed ↦
              let (m', e) = store_resolution f u now m success failure parsed in
              (as_memory_error e, (m', w''))
        ]

    -- The loop over the candidates, with the pairs that are resolved and the first error so far.
    unfoldable pub resolve_candidates :
        List String
        → Option MemoryError
        → Memory F V × W
        → MemoryEntry F
        → List (MemoryEntry F)
        → List String × (Option MemoryError × (Memory F V × W))
    unfolding resolve_conflict no_conflict
    resolve_candidates resolved first s success [] = (resolved, (first, s))
    resolve_candidates resolved first s success (failure ∷ failures) =
        let passed = no_conflict f u resolved success failure in
        let (e, s') = resolve_conflict s success failure in
        let resolved' =
          if passed || is_some e then resolved else pair_key success.id failure.id ∷ resolved in
        resolve_candidates resolved' (if passed then first else first_error first e)
          (if passed then s else s') success failures

    -- The body of the outer loop, with what the store answers for the memory.
    unfoldable pub resolve_memory :
        List String
        → Option MemoryError
        → Memory F V × W
        → Outcome StoreError (MemoryEntry F)
        → List String × (Option MemoryError × (Memory F V × W))
    unfolding resolve_candidates conflict_query conflict_candidate
    resolve_memory resolved first s (err e) =
        (resolved, (first_error first (some (store_error e)), s))
    resolve_memory resolved first (m, w) (ok success) =
        let (now, w') = reader.now w in
        let (candidates, m') =
          search_memory_limit f u now m success.repository_id (conflict_query success) 10 in
        if conflict_candidate success "execution_success"
        then resolve_candidates resolved first (m', w') success candidates
        else (resolved, (first, (m, w)))

    -- `resolveConflicts`, where there is a client.
    unfoldable pub resolve_conflicts :
        List String
        → Option MemoryError
        → Memory F V × W
        → List (MemoryEntry F)
        → Option MemoryError × (Memory F V × W)
    unfolding resolve_memory
    resolve_conflicts resolved first s [] = (first, s)
    resolve_conflicts resolved first s (original ∷ originals) =
        let (pairs, (error, state)) =
          resolve_memory resolved first s (get_memory s.0 original.id) in
        resolve_conflicts pairs error state originals

  -- `Process`, of which the first and the last part need a client.
  unfoldable pub process :
      Reader F W
      → Option (Client W)
      → Memory F V × W
      → List (MemoryEntry F)
      → Option MemoryError × (Memory F V × W)
  unfolding resolve_conflicts
  process reader none (m, w) entries =
      let (now, w') = reader.now w in
      let (e, m') = dedupe_all f u now none m entries in (as_memory_error e, (m', w'))
  process reader (some client) s entries =
      let (e, (m, w)) = refine_all (refine_batch f u reader client) s entries in
      let (now, w') = reader.now w in
      let (e', m') = dedupe_all f u now none m entries in
      let (e'', s') = resolve_conflicts reader client [] none (m', w') entries in
      (first_error (first_error e (as_memory_error e')) e'', s')
