-- ===== src/Runtime/ExecutionRecords.antt =====
-- internal/runtime/service.go: the memories that are stored of an execution.
use code_co_driver.Prelude.{
  if◌then◌else◌, Outcome, ok, err, ℕ, String, Option, none, some, List, [], ◌∷◌, ◌++◌, ◌==◌,
}
use code_co_driver.Prelude.Text.{Unicode, is_empty, join}
use code_co_driver.Prelude.Dict.{Dict}
use code_co_driver.Prelude.Float.{Float}
use code_co_driver.Prelude.Decimal.{decimal}
use code_co_driver.Domain.{Task, Repository, MemoryEntry}
use code_co_driver.Store.{Memory, add_memory}
use code_co_driver.Store.Ids.{id}
use code_co_driver.Agents.Values.{
  Codec, Value, Fields, Objects, object, no_objects, entry, lookup, as_text, as_number,
  text_or_empty, memory_context_files, memory_context_symbols,
}
use code_co_driver.Agents.Requests.{review_approve}
use code_co_driver.Agents.Repair.{memory_root_cause, verification_evidence}
use code_co_driver.Runtime.Records.{blank_memory, persist_memory_links}

module _ {F : Type 0} (f : Float F) (u : Unicode) (codec : Codec F) where
  -- What the closure `add` of `persistExecutionMemories` knows of the execution.
  pub record Execution : Type 0 where
    pub now : ℕ
    pub repository : Repository
    pub task : Task
    pub run_id : String
    pub files : List String
    pub symbols : List String

  abbrev pub or_else : List String → List String → List String
  or_else [] other = other
  or_else (x ∷ xs) other = x ∷ xs

  -- The closure `add`: the entry that it stores, and the store.
  unfoldable pub add_execution_memory :
      Execution
      → Memory F (Value F)
      → String
      → String
      → String
      → F
      → Dict String
      → MemoryEntry F
      → MemoryEntry F × Memory F (Value F)
  unfolding persist_memory_links
  add_execution_memory x m kind source content score metadata base =
      let (memory_id, m') = id m "memory" in
      let e : MemoryEntry F = record base {
        id = memory_id;
        repository_id = x.repository.id;
        task_id = x.task.id;
        kind = kind;
        content = content;
        source = source;
        score = score;
        metadata = metadata;
        created_at = x.now;
        title = if is_empty base.title then x.task.title else base.title;
        summary = if is_empty base.summary then content else base.summary;
        source_run_id = if is_empty base.source_run_id then x.run_id else base.source_run_id;
        changed_files = or_else base.changed_files x.files;
        symbols = or_else base.symbols x.symbols;
        test_command =
            if is_empty base.test_command then x.repository.test_command else base.test_command;
      } in
      (e, persist_memory_links f u codec x.now (add_memory f u m' e) e x.run_id)

  -- `fmt.Sprint` of the number of an attempt.
  unfoldable pub attempt_text : Option ℕ → String
  attempt_text none = "<nil>"
  attempt_text (some n) = decimal n

  -- The body of the loop over the attempts that did not pass.
  unfoldable pub add_failure :
      Execution → Memory F (Value F) → Fields F → String → MemoryEntry F × Memory F (Value F)
  unfolding add_execution_memory attempt_text
  add_failure x m item payload =
      let status = text_or_empty (as_text (lookup item "status")) in
      let error = text_or_empty (as_text (lookup item "error")) in
      let symptom = if is_empty error then status else error in
      add_execution_memory x m "failure_pattern" "sandbox"
        (join ("Failed validation pattern for " ∷ x.task.title ∷ ": " ∷ symptom ∷ []) "")
        (f.lit 2 0)
        (("attempt", attempt_text (as_number (lookup item "attempt"))) ∷ ("status", status) ∷ [])
        (record (blank_memory f u codec) {
          symptom = symptom;
          root_cause = memory_root_cause status;
          verification_evidence = payload;
        })

  -- The loop over the attempts: the entries that it adds behind those before it.
  unfoldable pub add_failures :
      Execution
      → Memory F (Value F)
      → List (MemoryEntry F)
      → Objects F
      → Outcome String (List (MemoryEntry F)) × Memory F (Value F)
  unfolding add_failure
  add_failures x m all no_objects = (ok all, m)
  add_failures x m all (entry item rest) =
      if text_or_empty (as_text (lookup item "status")) == "passed"
      then add_failures x m all rest
      else elim (codec.encode (object item)) [
        | err e ↦ (err e, m)
        | ok payload ↦
            let (e, m') = add_failure x m item payload in add_failures x m' (all ++ e ∷ []) rest
      ]

  -- The memory of a success.
  unfoldable pub add_success :
      Execution → Memory F (Value F) → Fields F → Dict String → MemoryEntry F × Memory F (Value F)
  unfolding add_execution_memory
  add_success x m context metadata =
      add_execution_memory x m "execution_success" "reviewer"
        (join
          ("Successful engineering pattern for "
            ∷ x.task.title
            ∷ ": sandbox validation and reviewer approval completed. Files: "
            ∷ join x.files ","
            ∷ [])
          "")
        (f.lit 3 0) metadata
        (record (blank_memory f u codec) {
          success_score = f.lit 1 0;
          verification_evidence = verification_evidence codec context;
        })

  -- `persistExecutionMemories`
  unfoldable pub persist_execution_memories :
      ℕ
      → Memory F (Value F)
      → Repository
      → Task
      → String
      → String
      → Objects F
      → Fields F
      → Outcome String (List (MemoryEntry F)) × Memory F (Value F)
  unfolding add_execution_memory add_success add_failures
  persist_execution_memories now m repo t run_id decision attempts context =
      let x : Execution = record {
        now = now;
        repository = repo;
        task = t;
        run_id = run_id;
        files = memory_context_files context;
        symbols = memory_context_symbols context;
      } in
      let metadata : Dict String = ("decision", decision) ∷ ("run_id", run_id) ∷ [] in
      let (summary, m1) =
        add_execution_memory x m "execution_summary" "runtime"
          (join (t.title ∷ ": execution ended with review decision " ∷ decision ∷ []) "")
          (f.lit 1 0) metadata (blank_memory f u codec) in
      let (success, m2) = add_success x m1 context metadata in
      if decision == review_approve
      then add_failures x m2 (summary ∷ success ∷ []) attempts
      else add_failures x m1 (summary ∷ []) attempts
