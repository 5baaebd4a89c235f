-- ===== src/Runtime/Recovery.antt =====
-- internal/runtime/service.go: `recoverTasks`, which a process calls when it starts.
use code_co_driver.Prelude.{nat_eq, if◌then◌else◌, ℕ, String, Bool, true, false, List, [], ◌∷◌}
use code_co_driver.Domain.{
  Task, TaskRun, TaskStatus, created, index_check, planning, retrieving_context, generating_patch,
  running_tests, reviewing, explaining, replan_required, human_review, cancelled, completed, failed,
}
use code_co_driver.Store.{Memory, tasks, runs, finish_run, update_task}
use code_co_driver.Runtime.State.{Service}
use code_co_driver.Runtime.Queue.{enqueue}

-- The statuses of a task that a worker was executing.
abbrev pub in_flight : TaskStatus → Bool
in_flight replan_required = true
in_flight index_check = true
in_flight planning = true
in_flight retrieving_context = true
in_flight generating_patch = true
in_flight running_tests = true
in_flight reviewing = true
in_flight explaining = true
in_flight created = false
in_flight human_review = false
in_flight cancelled = false
in_flight completed = false
in_flight failed = false

module _ {F V : Type 0} where
  -- The runs that are not over are ended as failed.
  unfoldable pub fail_open_runs : ℕ → Memory F V → String → List TaskRun → Memory F V
  fail_open_runs now m task_id [] = m
  fail_open_runs now m task_id (r ∷ rs) =
      fail_open_runs now (if nat_eq r.ended_at 0 then finish_run now m task_id r.id failed else m)
        task_id rs

  unfoldable pub reset_task : ℕ → Memory F V → String → Memory F V
  unfolding fail_open_runs
  reset_task now m task_id =
      update_task now (fail_open_runs now m task_id (runs m task_id)) task_id created
        "recovered after process restart"

  -- The body of the loop; `enqueue` does nothing where there is a leaser.
  unfoldable pub recover_task : ℕ → Service F V → Task → Service F V
  unfolding reset_task enqueue
  recover_task now s t =
      if in_flight t.status
      then enqueue (record s { store = reset_task now s.store t.id }) t.id
      else (elim t.status [ created ↦ enqueue s t.id | _ ↦ s ])

  unfoldable pub recover_all : ℕ → Service F V → List Task → Service F V
  unfolding recover_task
  recover_all now s [] = s
  recover_all now s (t ∷ ts) = recover_all now (recover_task now s t) ts

  -- `recoverTasks`
  unfoldable pub recover_tasks : ℕ → Service F V → Service F V
  unfolding recover_all
  recover_tasks now s = recover_all now s (tasks s.store)
