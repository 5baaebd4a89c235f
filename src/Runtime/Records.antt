-- ===== src/Runtime/Records.antt =====
-- internal/runtime/service.go: the memories that an execution leaves, with their links. `now` is
-- what `time.Now` answers.
use code_co_driver.Prelude.{
  if◌then◌else◌, Outcome, ok, err, ℕ, String, ◌||◌, none, List, [], ◌∷◌, ◌==◌,
}
use code_co_driver.Prelude.Text.{Unicode, is_empty, join}
use code_co_driver.Prelude.Float.{Float}
use code_co_driver.Domain.{Task, Repository, MemoryEntry, MemoryLink, memory_mode_without}
use code_co_driver.Store.{Memory, StoreError, add_memory, add_memory_link, repository}
use code_co_driver.Store.Ids.{id}
use code_co_driver.Runtime.State.{Service}
use code_co_driver.Runtime.Refinement.{enqueue_memory_refinement}
use code_co_driver.Agents.Values.{Codec, Value}

module _ {F : Type 0} (f : Float F) (u : Unicode) (codec : Codec F) where
  -- The closure `add` of `persistMemoryLinks`.
  unfoldable pub add_link :
      ℕ → Memory F (Value F) → MemoryEntry F → String → String → String → Memory F (Value F)
  add_link now m e target_type target_id label =
      let (link_id, m') = id m "memory_link" in
      let link : MemoryLink = record {
        id = link_id;
        memory_id = e.id;
        repository_id = e.repository_id;
        target_type = target_type;
        target_id = target_id;
        label = label;
        created_at = now;
      } in
      if is_empty target_type || is_empty target_id then m else add_memory_link m' link

  unfoldable pub add_links :
      ℕ → Memory F (Value F) → MemoryEntry F → String → String → List String → Memory F (Value F)
  unfolding add_link
  add_links now m e target_type label [] = m
  add_links now m e target_type label (target ∷ targets) =
      add_links now (add_link now m e target_type target label) e target_type label targets

  -- `persistMemoryLinks`
  unfoldable pub persist_memory_links :
      ℕ → Memory F (Value F) → MemoryEntry F → String → Memory F (Value F)
  unfolding add_links
  persist_memory_links now m e run_id =
      let source_run = if is_empty run_id then e.source_run_id else run_id in
      let tasks = add_link now m e "task" e.task_id "source_task" in
      let runs = add_link now tasks e "run" source_run "source_run" in
      let files = add_links now runs e "file" "changed_file" e.changed_files in
      add_links now files e "symbol" "related_symbol" e.symbols

  -- A memory without content, as a Go literal leaves the fields that it does not name.
  abbrev pub blank_memory : MemoryEntry F
  blank_memory = record {
    id = "";
    repository_id = "";
    task_id = "";
    kind = "";
    content = "";
    title = "";
    summary = "";
    symptom = "";
    root_cause = "";
    changed_files = [];
    symbols = [];
    test_command = "";
    verification_evidence = "";
    success_score = f.lit 0 0;
    source_run_id = "";
    duplicate_of = "";
    conflict_group_id = "";
    condition = "";
    refined_at = none;
    source = "";
    score = f.lit 0 0;
    metadata = [];
    embedding = [];
    links = [];
    last_accessed_at = 0;
    access_count = 0;
    created_at = 0;
  }

  -- The memory of a run that failed.
  unfoldable pub failure_memory : ℕ → Task → String → String → Repository → String → MemoryEntry F
  failure_memory now t run_id error repo memory_id =
      let content = join ("Agent loop failure for " ∷ t.title ∷ ": " ∷ error ∷ []) "" in
      record blank_memory {
        id = memory_id;
        repository_id = repo.id;
        task_id = t.id;
        kind = "failure_pattern";
        title = t.title;
        summary = content;
        content = content;
        symptom = error;
        root_cause = "agent loop failure";
        test_command = repo.test_command;
        verification_evidence = error;
        source_run_id = run_id;
        source = "runtime";
        score = f.lit 2 0;
        metadata = ("stage", "agent_loop") ∷ [];
        created_at = now;
      }

  -- The last part of `persistFailureMemory`.
  unfoldable pub add_failure_memory :
      ℕ → Service F (Value F) → Task → String → String → Repository → Service F (Value F)
  unfolding failure_memory persist_memory_links enqueue_memory_refinement
  add_failure_memory now s t run_id error repo =
      let (memory_id, m) = id s.store "memory" in
      let e = failure_memory now t run_id error repo memory_id in
      enqueue_memory_refinement
        (record s { store = persist_memory_links now (add_memory f u m e) e run_id }) (e ∷ [])

  unfoldable pub failure_memory_found :
      ℕ
      → Service F (Value F)
      → Task
      → String
      → String
      → Outcome StoreError Repository
      → Service F (Value F)
  unfolding add_failure_memory
  failure_memory_found now s t run_id error (err e) = s
  failure_memory_found now s t run_id error (ok repo) = add_failure_memory now s t run_id error repo

  -- `persistFailureMemory`
  unfoldable pub persist_failure_memory :
      ℕ → Service F (Value F) → Task → String → String → Service F (Value F)
  unfolding failure_memory_found
  persist_failure_memory now s t run_id error =
      let added = failure_memory_found now s t run_id error (repository s.store t.repository_id) in
      if is_empty run_id || t.memory_mode == memory_mode_without then s else added
