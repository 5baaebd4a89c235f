-- ===== src/Runtime/KeepsTasks.antt =====
-- internal/runtime/service.go: the records of evaluations and memories leave the tasks of the store
-- as they are.
use code_co_driver.Prelude.{
  ltb, leb, Bool-cases, Option-cases, if◌then◌else◌, any, Outcome, ok, err, ℕ, String, ◌≡◌, refl,
  ap, ◌∙◌, inl, inr, Bool, true, false, ◌&&◌, ◌||◌, not, Option, none, some, List, [], ◌∷◌, arith,
  ◌==◌,
}
use code_co_driver.Prelude.Dict.{get_or}
use code_co_driver.Prelude.Text.{Unicode, is_empty}
use code_co_driver.Prelude.Float.{Float}
use code_co_driver.Prelude.Dict.{Dict}
use code_co_driver.Domain.{
  Task, TaskStatus, Repository, MemoryEntry, MemoryLink, EvaluationRun, EvaluationBatch,
  memory_mode_without,
}
use code_co_driver.Store.{
  Memory, StoreError, update_evaluation_run, replace_run, update_evaluation_batch,
  add_evaluation_metric_snapshot, all_evaluation_runs, add_memory, add_memory_link, same_target,
  repository,
}
use code_co_driver.Store.Ids.{id}
use code_co_driver.Agents.Values.{Codec, Value, Fields}
use code_co_driver.Runtime.State.{Service}
use code_co_driver.Runtime.Refinement.{send_memories, enqueue_memory_refinement, fresh_entries}
use code_co_driver.Runtime.Evaluations.{
  counted_batch, end_batch, refresh_found, refresh_evaluation_batch, finalized_run, finalize_runs,
  finalize_evaluation,
}
use code_co_driver.Runtime.Records.{
  add_link, add_links, persist_memory_links, failure_memory, add_failure_memory,
  failure_memory_found, persist_failure_memory,
}

module _ {F V : Type 0} where
  tasks-if :
      (b : Bool) (m m' : Memory F V) (ts : Dict Task)
      → m.tasks ≡ ts
      → m'.tasks ≡ ts
      → (if b then m else m').tasks ≡ ts
  tasks-if true m m' ts e e' = e
  tasks-if false m m' ts e e' = e'

  store-if :
      (b : Bool) (s s' : Service F V) (m : Memory F V)
      → s.store ≡ m
      → s'.store ≡ m
      → (if b then s else s').store ≡ m
  store-if true s s' m e e' = e
  store-if false s s' m e e' = e'

  update_evaluation_run-tasks :
      (m : Memory F V) (run : EvaluationRun) → (update_evaluation_run m run).0.tasks ≡ m.tasks
  unfolding update_evaluation_run
  update_evaluation_run-tasks m run = elim (Option-cases (replace_run run m.evaluation_runs)) [
    | inl e ↦ rw (e, update_evaluation_run) refl
    | inr (runs, e) ↦ rw (e, update_evaluation_run) refl
  ]

  update_evaluation_batch-tasks :
      (m : Memory F V) (batch : EvaluationBatch)
      → (update_evaluation_batch m batch).0.tasks ≡ m.tasks
  unfolding update_evaluation_batch
  update_evaluation_batch-tasks m batch = ground arith

  add_memory_link-tasks :
      (m : Memory F V) (link : MemoryLink) → (add_memory_link m link).tasks ≡ m.tasks
  unfolding add_memory_link
  add_memory_link-tasks m link =
      tasks-if (any (same_target link) (get_or m.links link.memory_id [])) m _ m.tasks refl refl

  send_memories-store :
      (s : Service F V) (entries : List (MemoryEntry F)) → (send_memories s entries).store ≡ s.store
  unfolding send_memories
  send_memories-store s [] = refl
  send_memories-store s (e ∷ es) = ground arith

  enqueue_memory_refinement-store :
      (s : Service F V) (entries : List (MemoryEntry F))
      → (enqueue_memory_refinement s entries).store ≡ s.store
  unfolding enqueue_memory_refinement
  enqueue_memory_refinement-store s entries =
      store-if s.has_refiner _ s s.store
        (send_memories-store
          (record s { memory_pending = (fresh_entries s.memory_pending entries).1 })
          (fresh_entries s.memory_pending entries).0)
        refl

module _ {F : Type 0} (f : Float F) (u : Unicode) (codec : Codec F) where
  refresh_found-tasks :
      (now : ℕ) (m : Memory F (Value F)) (found : Option EvaluationBatch)
      → (refresh_found f u codec now m found).tasks ≡ m.tasks
  unfolding refresh_found end_batch id add_evaluation_metric_snapshot
  refresh_found-tasks now m none = refl
  refresh_found-tasks now m (some batch) =
      let counted = counted_batch f u codec batch (all_evaluation_runs m) in
      elim (Bool-cases (leb counted.total counted.completed && ltb 0 counted.total)) [
        | inl e ↦ rw e (
            update_evaluation_batch-tasks _
              (end_batch f u codec now m counted (all_evaluation_runs m)).1)
        | inr e ↦ rw e (update_evaluation_batch-tasks m counted)
      ]

  finalize_runs-tasks :
      (now : ℕ) (t : Task) (status : TaskStatus) (context : Option (Fields F))
      (all : List EvaluationRun) (m : Memory F (Value F))
      → (finalize_runs f u codec now m t status context all).tasks ≡ m.tasks
  unfolding finalize_runs refresh_evaluation_batch
  finalize_runs-tasks now t status context [] m = refl
  finalize_runs-tasks now t status context (run ∷ all) m =
      finalize_runs-tasks now t status context all _
      ∙ tasks-if (not (run.task_id == t.id) || run.status == "completed" || run.status == "failed")
          m _ m.tasks refl
          (tasks-if (is_empty run.batch_id) written _ m.tasks kept
            (refresh_found-tasks now written _ ∙ kept))
    where
      written : Memory F (Value F)
      written = (update_evaluation_run m (finalized_run f u codec now m t status context run)).0

      kept : written.tasks ≡ m.tasks
      kept = update_evaluation_run-tasks m (finalized_run f u codec now m t status context run)

  pub finalize_evaluation-tasks :
      (now : ℕ) (m : Memory F (Value F)) (t : Task) (status : TaskStatus)
      (context : Option (Fields F))
      → (finalize_evaluation f u codec now m t status context).tasks ≡ m.tasks
  unfolding finalize_evaluation
  finalize_evaluation-tasks now m t status context =
      finalize_runs-tasks now t status context (all_evaluation_runs m) m

  add_link-tasks :
      (now : ℕ) (m : Memory F (Value F)) (e : MemoryEntry F) (target_type target_id label : String)
      → (add_link f u codec now m e target_type target_id label).tasks ≡ m.tasks
  unfolding add_link id
  add_link-tasks now m e target_type target_id label =
      tasks-if (is_empty target_type || is_empty target_id) m _ m.tasks refl
        (add_memory_link-tasks (id m "memory_link").1 _)

  add_links-tasks :
      (now : ℕ) (e : MemoryEntry F) (target_type label : String) (targets : List String)
      (m : Memory F (Value F))
      → (add_links f u codec now m e target_type label targets).tasks ≡ m.tasks
  unfolding add_links
  add_links-tasks now e target_type label [] m = refl
  add_links-tasks now e target_type label (target ∷ targets) m =
      add_links-tasks now e target_type label targets _
      ∙ add_link-tasks now m e target_type target label

  persist_memory_links-tasks :
      (now : ℕ) (m : Memory F (Value F)) (e : MemoryEntry F) (run_id : String)
      → (persist_memory_links f u codec now m e run_id).tasks ≡ m.tasks
  unfolding persist_memory_links
  persist_memory_links-tasks now m e run_id =
      add_links-tasks now e "symbol" "related_symbol" e.symbols _
      ∙ add_links-tasks now e "file" "changed_file" e.changed_files _
      ∙ add_link-tasks now _ e "run" _ "source_run"
      ∙ add_link-tasks now m e "task" e.task_id "source_task"

  failure_memory_found-tasks :
      (now : ℕ) (s : Service F (Value F)) (t : Task) (run_id error : String)
      (found : Outcome StoreError Repository)
      → (failure_memory_found f u codec now s t run_id error found).store.tasks ≡ s.store.tasks
  unfolding failure_memory_found add_failure_memory add_memory id
  failure_memory_found-tasks now s t run_id error (err e) = refl
  failure_memory_found-tasks now s t run_id error (ok repo) =
      let e = failure_memory f u codec now t run_id error repo (id s.store "memory").0 in
      let m = add_memory f u (id s.store "memory").1 e in
      ap (λ (m' : Memory F (Value F)). m'.tasks)
        (enqueue_memory_refinement-store
          (record s { store = persist_memory_links f u codec now m e run_id }) (e ∷ []))
      ∙ persist_memory_links-tasks now m e run_id

  pub persist_failure_memory-tasks :
      (now : ℕ) (s : Service F (Value F)) (t : Task) (run_id error : String)
      → (persist_failure_memory f u codec now s t run_id error).store.tasks ≡ s.store.tasks
  unfolding persist_failure_memory
  persist_failure_memory-tasks now s t run_id error =
      elim (Bool-cases (is_empty run_id || t.memory_mode == memory_mode_without)) [
        | inl e ↦ rw e refl
        | inr e ↦
            rw e
              (failure_memory_found-tasks now s t run_id error (repository s.store t.repository_id))
      ]
