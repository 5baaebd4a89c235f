-- ===== src/Workflow/Tasks.antt =====
-- internal/runtime/service.go: `executeTask` up to the answer of the planner.
use code_co_driver.Prelude.{
  nat_eq, is_some, if◌then◌else◌, length, Outcome, ok, err, ℕ, String, Bool, false, Option, none,
  some, List, [], ◌∷◌, ◌==◌,
}
use code_co_driver.Prelude.Text.{Unicode, join}
use code_co_driver.Prelude.Dict.{put, delete}
use code_co_driver.Prelude.Float.{Float}
use code_co_driver.Domain.{
  Task, TaskRun, Repository, RepositoryFile, Symbol, MemoryEntry, index_check, memory_mode_without,
}
use code_co_driver.Store.{
  Memory, StoreError, task, repository, add_run, set_index, files, search_memory_limit,
}
use code_co_driver.Store.Ids.{id}
use code_co_driver.Skills.Registry.{Registry}
use code_co_driver.Skills.Router.{RouteInput, route}
use code_co_driver.Runtime.{Service, fail, note_artifact, is_cancelled}
use code_co_driver.Runtime.Evidence.{load_human_feedback_context}
use code_co_driver.Agents.Values.{
  Codec, Value, Fields, number, memory_list, no_fields, field, lookup, assign, as_memories,
}
use code_co_driver.Agents.Recall.{select_memory_for_context, memory_source_counts}
use code_co_driver.Workflow.Steps.{Surroundings, Job, store_error_text, write_status}
use code_co_driver.Workflow.Execution.{fail_now}
use code_co_driver.Workflow.Planned.{after_route}

module _ {F W : Type 0} (f : Float F) (u : Unicode) (codec : Codec F)
    (path_match : String → String → Bool) (registry : Registry) (env : Surroundings F W) where
  -- The context before the memories are searched.
  abbrev pub initial_context : Fields F
  initial_context = field "memory" (memory_list []) (
      field "memory_hits" (number 0) (
        field "memory_success_hits" (number 0) (
          field "memory_failure_hits" (number 0) (
            field "memory_resolved_hits" (number 0)
              (field "memory_refined_hits" (number 0) no_fields)))))

  -- The context with the memories that were found, and those that are selected of them.
  unfoldable pub memory_context : Fields F → List (MemoryEntry F) → List (MemoryEntry F) → Fields F
  memory_context context selected found =
      let (((success, failure), resolved), refined) = memory_source_counts selected in
      let held =
        assign
          (assign (assign context "memory" (memory_list selected)) "memory_candidates"
            (memory_list found))
          "memory_hits" (number (length selected)) in
      assign
        (assign
          (assign (assign held "memory_success_hits" (number success)) "memory_failure_hits"
            (number failure))
          "memory_resolved_hits" (number resolved))
        "memory_refined_hits" (number refined)

  -- `marshalMemory`
  unfoldable pub marshal_memory : List (MemoryEntry F) → String
  marshal_memory memories = elim (codec.encode_indent (memory_list memories)) [
    | ok content ↦ content
    | err e ↦ "[]"
  ]

  -- The artifact of the selected memories, if there are any.
  unfoldable pub note_memories :
      ℕ → Job → List (MemoryEntry F) → Memory F (Value F) → Memory F (Value F)
  unfolding marshal_memory
  note_memories now job [] m = m
  note_memories now job (e ∷ es) m =
      note_artifact f u codec now m job.task.id job.run_id "memory_retrieval" "memory-context.json"
        (marshal_memory (e ∷ es))

  -- The route of the task, with the memories that were found.
  unfoldable pub route_task : ℕ → Job → Fields F → Service F (Value F) → W → Service F (Value F) × W
  route_task now job context s w =
      let input : RouteInput F = record {
        task = job.task;
        repository = job.repository;
        files = files s.store job.repository.id;
        memories = elim (as_memories (lookup context "memory_candidates")) [
          | none ↦ []
          | some ms ↦ ms
        ];
      } in
      after_route f u codec env now job context s w (route f u path_match registry input).0

  -- The search of the memories.
  unfoldable pub recall_memories :
      ℕ → Job → Fields F → Service F (Value F) → W → Service F (Value F) × W
  unfolding memory_context note_memories route_task
  recall_memories now job context s w =
      let query = join (job.task.title ∷ job.task.description ∷ []) " " in
      let (found, m) = search_memory_limit f u now s.store job.repository.id query 10 in
      let selected = select_memory_for_context f u found query in
      if job.task.memory_mode == memory_mode_without
      then route_task now job context s w
      else route_task now job (memory_context context selected found)
          (record s { store = note_memories now job selected m }) w

  unfoldable pub prepare : ℕ → Job → Service F (Value F) → W → Service F (Value F) × W
  unfolding recall_memories
  prepare now job s w =
      recall_memories now job
        (load_human_feedback_context u codec s.store job.task job.run_id initial_context) s w

  -- `IndexRepository`, with the answer of the indexer.
  unfoldable pub indexed :
      ℕ
      → Job
      → Service F (Value F)
      → Outcome String ((Repository × List RepositoryFile) × List Symbol) × W
      → Service F (Value F) × W
  unfolding prepare
  indexed now job s (err e, w) = fail_now f u codec env job e s w
  indexed now job s (ok ((repo, found), symbols), w) =
      prepare now (record job { repository = repo })
        (record s { store = set_index s.store repo found symbols }) w

  unfoldable pub index_repository :
      ℕ → Job → Service F (Value F) → W → Outcome StoreError Repository → Service F (Value F) × W
  unfolding indexed
  index_repository now job s w (err e) = fail_now f u codec env job (store_error_text e) s w
  index_repository now job s w (ok repo) = indexed now job s (env.index repo w)

  -- The index of a repository that has none.
  unfoldable pub index_written :
      ℕ
      → Job
      → Service F (Value F)
      → W
      → Memory F (Value F) × Option StoreError
      → Service F (Value F) × W
  unfolding index_repository
  index_written now job s w (m, some e) =
      fail_now f u codec env job (store_error_text e) (record s { store = m }) w
  index_written now job s w (m, none) =
      index_repository now job (record s { store = m }) w (repository m job.repository.id)

  unfoldable pub index_if_needed : ℕ → Job → Service F (Value F) → W → Service F (Value F) × W
  unfolding index_written prepare
  index_if_needed now job s w =
      let index = index_written now job s w (write_status now s job job.claimed index_check "") in
      if nat_eq job.repository.indexed_at 0 then index else prepare now job s w

  -- The run of a task of a known repository. `claimed` is the token of its lease, if it has one.
  unfoldable pub start_run :
      ℕ → Task → Option ℕ → Service F (Value F) → W → Repository → Service F (Value F) × W
  unfolding index_if_needed
  start_run now t claimed s w repo =
      let (run_id, m) = id s.store "run" in
      let token : ℕ = elim claimed [ none ↦ 0 | some n ↦ n ] in
      let run : TaskRun = record {
        id = run_id;
        task_id = t.id;
        status = index_check;
        fencing_token = token;
        started_at = now;
        ended_at = 0;
      } in
      index_if_needed now
        (record {
          task = t;
          repository = repo;
          run_id = run_id;
          token = token;
          claimed = is_some claimed;
          workspace = none;
        })
        (record s { store = add_run m run }) w

  unfoldable pub with_repository :
      ℕ
      → Task
      → Option ℕ
      → Service F (Value F)
      → W
      → Outcome StoreError Repository
      → Service F (Value F) × W
  unfolding start_run
  with_repository now t claimed s w (err e) = (fail f u codec now s t "" (store_error_text e), w)
  with_repository now t claimed s w (ok repo) = start_run now t claimed s w repo

  -- The part of `executeTask` between the entry of the task's context and its removal.
  unfoldable pub in_task_context :
      ℕ → Task → Option ℕ → Service F (Value F) → W → Service F (Value F) × W
  unfolding with_repository
  in_task_context now t claimed s w =
      let entered = record s { cancel_tasks = put s.cancel_tasks t.id false } in
      let (left, w') =
        with_repository now t claimed entered w (repository s.store t.repository_id) in
      (record left { cancel_tasks = delete left.cancel_tasks t.id }, w')

  unfoldable pub execute_found :
      Option ℕ → Service F (Value F) → W → Outcome StoreError Task → Service F (Value F) × W
  unfolding in_task_context
  execute_found claimed s w (err e) = (s, w)
  execute_found claimed s w (ok t) =
      let (now, w') = env.now w in
      let ran = in_task_context now t claimed s w' in if is_cancelled (ok t) then (s, w) else ran

  -- `executeTask`
  unfoldable pub execute_task :
      Option ℕ → Service F (Value F) → W → String → Service F (Value F) × W
  unfolding execute_found
  execute_task claimed s w task_id = execute_found claimed s w (task s.store task_id)
