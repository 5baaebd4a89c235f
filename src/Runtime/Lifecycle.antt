-- ===== src/Runtime/Lifecycle.antt =====
-- internal/runtime/service.go: `createTask`, `RerunTask` and `CancelTask`.
use code_co_driver.Prelude.{
  is_some, if◌then◌else◌, Outcome, ok, err, ℕ, String, Bool, true, ◌||◌, Option, none, some,
}
use code_co_driver.Prelude.Text.{trim_space, is_empty}
use code_co_driver.Prelude.Dict.{get, put}
use code_co_driver.Domain.{Task, created, cancelled, memory_mode_with}
use code_co_driver.Store.{StoreError, repository, add_task, task, update_task}
use code_co_driver.Store.Ids.{id}
use code_co_driver.Runtime.State.{
  Service, ServiceError, missing, description_required, already_terminal, still_active,
  unknown_skill, is_terminal,
}
use code_co_driver.Runtime.Queue.{enqueue}

module _ {F V : Type 0} where
  -- The last part of `createTask`, once the input is accepted.
  unfoldable pub add_new_task :
      ℕ
      → Service F V
      → String
      → String
      → String
      → String
      → String
      → Bool
      → Outcome ServiceError Task × Service F V
  unfolding enqueue
  add_new_task now s repo_id title description skill_name memory_mode queue =
      let (task_id, store) = id s.store "task" in
      let new : Task = record {
        id = task_id;
        repository_id = repo_id;
        title = trim_space title;
        description = trim_space description;
        skill_name = skill_name;
        status = created;
        error = "";
        memory_mode = if is_empty memory_mode then memory_mode_with else memory_mode;
        created_at = now;
        updated_at = now;
      } in
      let s' = record s { store = add_task store new } in
      (ok new, (if queue then enqueue s' task_id else s'))

  -- The tests of `createTask`.
  unfoldable pub refuse_task : Service F V → String → String → String → Option ServiceError
  refuse_task s repo_id description skill_name = elim (repository s.store repo_id) [
    | err e ↦ some missing
    | ok r ↦
        if is_empty (trim_space description)
        then some description_required
        else if is_empty skill_name || s.knows_skill skill_name
        then none
        else some (unknown_skill skill_name)
  ]

  unfoldable pub accept_task :
      ℕ
      → Service F V
      → String
      → String
      → String
      → String
      → String
      → Bool
      → Option ServiceError
      → Outcome ServiceError Task × Service F V
  unfolding add_new_task
  accept_task now s repo_id title description skill_name memory_mode queue (some e) = (err e, s)
  accept_task now s repo_id title description skill_name memory_mode queue none =
      add_new_task now s repo_id title description skill_name memory_mode queue

  -- `createTask`
  unfoldable pub create_task :
      ℕ
      → Service F V
      → String
      → String
      → String
      → String
      → String
      → Bool
      → Outcome ServiceError Task × Service F V
  unfolding accept_task refuse_task
  create_task now s repo_id title description skill_name memory_mode queue =
      let skill = trim_space skill_name in
      accept_task now s repo_id title description skill memory_mode queue
        (refuse_task s repo_id description skill)

  -- `CreateTaskWithSkill`; `CreateTask` gives no skill.
  unfoldable pub create_task_with_skill :
      ℕ → Service F V → String → String → String → String → Outcome ServiceError Task × Service F V
  unfolding create_task
  create_task_with_skill now s repo_id title description skill_name =
      create_task now s repo_id title description skill_name memory_mode_with true

  -- `RerunTask`, with what the store answers for the task.
  unfoldable pub rerun_found :
      ℕ → Service F V → Outcome StoreError Task → Outcome ServiceError Task × Service F V
  unfolding create_task
  rerun_found now s (err e) = (err missing, s)
  rerun_found now s (ok original) =
      if is_terminal original.status
      then create_task now s original.repository_id original.title original.description
          original.skill_name
          (if is_empty original.memory_mode then memory_mode_with else original.memory_mode) true
      else (err still_active, s)

  -- `RerunTask`
  unfoldable pub rerun_task : ℕ → Service F V → String → Outcome ServiceError Task × Service F V
  unfolding rerun_found
  rerun_task now s task_id = rerun_found now s (task s.store task_id)

  -- `if cancel := s.cancelTasks[taskID]; cancel != nil { cancel() }`
  unfoldable pub cancel_context : Service F V → String → Service F V
  cancel_context s task_id =
      if is_some (get s.cancel_tasks task_id)
      then record s { cancel_tasks = put s.cancel_tasks task_id true }
      else s

  -- `CancelTask`, with what the store answers for the task.
  unfoldable pub cancel_found :
      ℕ → Service F V → String → Outcome StoreError Task → Option ServiceError × Service F V
  unfolding cancel_context
  cancel_found now s task_id (err e) = (some missing, s)
  cancel_found now s task_id (ok t) = if is_terminal t.status then (some already_terminal, s) else (
    none,
    cancel_context
        (record s { store = update_task now s.store task_id cancelled "cancelled by user" })
        task_id,
  )

  -- `CancelTask`
  unfoldable pub cancel_task : ℕ → Service F V → String → Option ServiceError × Service F V
  unfolding cancel_found
  cancel_task now s task_id = cancel_found now s task_id (task s.store task_id)
