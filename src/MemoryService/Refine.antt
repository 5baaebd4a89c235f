-- ===== src/MemoryService/Refine.antt =====
-- internal/memory/service.go and refine.go: the batches in which memories are refined, and what is
-- stored of an answer. `now` is what `time.Now` answers.
use code_co_driver.Prelude.{
  leb, is_some, if◌then◌else◌, length, first_error, ℕ, String, Bool, false, ◌&&◌, ◌||◌, not, Option,
  none, some, List, [], ◌∷◌, ◌++◌, ◌==◌,
}
use code_co_driver.Prelude.Text.{Unicode, trim_space, is_empty, join}
use code_co_driver.Prelude.Float.{Float}
use code_co_driver.Domain.{MemoryEntry}
use code_co_driver.Store.{Memory, StoreError, add_memory, update_memory, add_memory_link}
use code_co_driver.Store.Ids.{id}

-- `refinedMemory`
pub record RefinedMemory (F : Type 0) : Type 0 where
  pub title : String
  pub summary : String
  pub symptom : String
  pub root_cause : String
  pub changed_files : List String
  pub symbols : List String
  pub condition : String
  pub success_score : F

-- `firstNonEmpty`
unfoldable pub first_non_empty : String → String → String
first_non_empty left right = if is_empty (trim_space left) then right else left

-- `firstNonEmptySlice`
unfoldable pub first_non_empty_slice : List String → List String → List String
first_non_empty_slice [] right = right
first_non_empty_slice (x ∷ xs) right = x ∷ xs

abbrev pub memory_refine_batch_size : ℕ
memory_refine_batch_size = 5

module _ {F : Type 0} where
  -- `validateRefinedMemory`, whether there is no error.
  unfoldable pub is_valid_refined : RefinedMemory F → Bool
  is_valid_refined parsed =
      not (is_empty (trim_space parsed.summary) && is_empty (trim_space parsed.root_cause))

  -- `refinable`
  unfoldable pub refinable : MemoryEntry F → Bool
  refinable entry =
      if is_some entry.refined_at
        || not (is_empty entry.duplicate_of)
        || not (is_empty entry.conflict_group_id)
      then false
      else entry.kind == "execution_success" || entry.kind == "failure_pattern"

  -- `memoryEvidence`
  unfoldable pub memory_evidence : MemoryEntry F → String
  memory_evidence entry =
      join
        ("title: "
          ∷ entry.title
          ∷ "\nsummary: "
          ∷ entry.summary
          ∷ "\nsymptom: "
          ∷ entry.symptom
          ∷ "\nroot_cause: "
          ∷ entry.root_cause
          ∷ "\nfiles: "
          ∷ join entry.changed_files ","
          ∷ "\nsymbols: "
          ∷ join entry.symbols ","
          ∷ [])
        ""

  -- The loop of `refineAll`: the batches that it hands to `refineBatch`, in this order, from the
  -- batch that is being filled.
  unfoldable pub batches : List (MemoryEntry F) → List (MemoryEntry F) → List (List (MemoryEntry F))
  unfolding refinable
  batches [] [] = []
  batches (b ∷ bs) [] = (b ∷ bs) ∷ []
  batches batch (entry ∷ entries) =
      let passed = batches batch entries in
      let filled = batches [] entries in
      let longer = batches (batch ++ entry ∷ []) entries in
      if refinable entry
      then (if leb memory_refine_batch_size (length (batch ++ entry ∷ []))
          then (batch ++ entry ∷ []) ∷ filled
          else longer)
      else passed

  -- The calls of `refineBatch`, with the first error so far. `S` is the state that they work on.
  unfoldable pub refine_batches :
      {E S : Type 0}
      → (S → List (MemoryEntry F) → Option E × S)
      → Option E
      → S
      → List (List (MemoryEntry F))
      → Option E × S
  refine_batches refine_batch first s [] = (first, s)
  refine_batches refine_batch first s (batch ∷ rest) =
      let (e, s') = refine_batch s batch in
      refine_batches refine_batch (first_error first e) s' rest

  -- `refineAll`, where there is a client of the model.
  unfoldable pub refine_all :
      {E S : Type 0}
      → (S → List (MemoryEntry F) → Option E × S)
      → S
      → List (MemoryEntry F)
      → Option E × S
  unfolding batches refine_batches
  refine_all refine_batch s entries = refine_batches refine_batch none s (batches [] entries)

  -- The memory that `persistRefinedMemory` adds.
  unfoldable pub refined_entry :
      Float F → ℕ → String → MemoryEntry F → RefinedMemory F → MemoryEntry F
  unfolding first_non_empty first_non_empty_slice
  refined_entry f now memory_id entry parsed =
      let summary = first_non_empty parsed.summary entry.summary in
      let success_score =
        if f.eq parsed.success_score (f.lit 0 0)
        then entry.success_score
        else parsed.success_score in
      record {
        id = memory_id;
        repository_id = entry.repository_id;
        task_id = entry.task_id;
        kind = join ("refined_" ∷ entry.kind ∷ []) "";
        content = summary;
        title = first_non_empty parsed.title entry.title;
        summary = summary;
        symptom = first_non_empty parsed.symptom entry.symptom;
        root_cause = first_non_empty parsed.root_cause entry.root_cause;
        changed_files = first_non_empty_slice parsed.changed_files entry.changed_files;
        symbols = first_non_empty_slice parsed.symbols entry.symbols;
        test_command = entry.test_command;
        verification_evidence = entry.verification_evidence;
        success_score = success_score;
        source_run_id = entry.source_run_id;
        duplicate_of = "";
        conflict_group_id = "";
        condition = parsed.condition;
        refined_at = none;
        source = "refiner";
        score = entry.score;
        metadata = ("source_memory_id", entry.id) ∷ ("source_kind", entry.kind) ∷ [];
        embedding = [];
        links = [];
        last_accessed_at = 0;
        access_count = 0;
        created_at = now;
      }

  module _ {V : Type 0} where
    -- `addMemoryLink`
    unfoldable pub link_memory :
        ℕ → Memory F V → MemoryEntry F → String → String → String → Memory F V
    link_memory now m memory target_type target_id label =
        let (link_id, m') = id m "memory_link" in
        add_memory_link m' (record {
          id = link_id;
          memory_id = memory.id;
          repository_id = memory.repository_id;
          target_type = target_type;
          target_id = target_id;
          label = label;
          created_at = now;
        })

    -- `persistRefinedMemory`
    unfoldable pub persist_refined_memory :
        Float F
        → Unicode
        → ℕ
        → Memory F V
        → MemoryEntry F
        → RefinedMemory F
        → Memory F V × Option StoreError
    unfolding refined_entry link_memory
    persist_refined_memory f u now m entry parsed =
        let (memory_id, m1) = id m "memory" in
        let refined = refined_entry f now memory_id entry parsed in
        let m2 =
          link_memory now (add_memory f u m1 refined) refined "memory" entry.id "refined_from" in
        update_memory m2 (record entry { refined_at = some now })
