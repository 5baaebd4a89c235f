-- ===== src/Store/Tasks.antt =====
-- internal/store/memory.go: repositories, tasks, runs and fencing. A method that changes the store
-- returns the new store, with the error if there is one; `now` is what `time.Now` answers.
use code_co_driver.Prelude.{
  ltb, nat_eq, if◌then◌else◌, any, Outcome, or_error, ℕ, String, Bool, ◌&&◌, Option, none, some,
  List, [], ◌∷◌, ◌++◌, ◌==◌,
}
use code_co_driver.Prelude.Dict.{get, put, get_or, values}
use code_co_driver.Prelude.Sort.{sort}
use code_co_driver.Domain.{Repository, RepositoryFile, Symbol, Task, TaskRun, TaskStatus, created}
use code_co_driver.Store.State.{Memory, StoreError, not_found, stale_run}

-- The zero `Task`, which `m.tasks[id]` is for a missing id: its status is overwritten at once.
abbrev pub zero_task : Task
zero_task = record {
  id = "";
  repository_id = "";
  title = "";
  description = "";
  skill_name = "";
  status = created;
  error = "";
  memory_mode = "";
  created_at = 0;
  updated_at = 0;
}

-- `run.ID == runID && run.FencingToken == token`
abbrev pub holds_token : String → ℕ → TaskRun → Bool
holds_token run_id token run = run.id == run_id && nat_eq run.fencing_token token

-- The body of the loops of `FinishRun` and `FinishRunWithToken`, over the runs of a task.
unfoldable pub finish_matching : ℕ → (TaskRun → Bool) → TaskStatus → List TaskRun → List TaskRun
finish_matching now matches status [] = []
finish_matching now matches status (r ∷ rs) =
    (if matches r then record r { status = status; ended_at = now } else r)
    ∷ finish_matching now matches status rs

module _ {F V : Type 0} where
  unfoldable pub add_repository : Memory F V → Repository → Memory F V
  add_repository m r = record m { repositories = put m.repositories r.id r }

  unfoldable pub repository : Memory F V → String → Outcome StoreError Repository
  repository m id = or_error not_found (get m.repositories id)

  unfoldable pub repositories : Memory F V → List Repository
  repositories m = sort (λ a b. ltb a.created_at b.created_at) (values m.repositories)

  unfoldable pub set_index :
      Memory F V → Repository → List RepositoryFile → List Symbol → Memory F V
  set_index m r files symbols = record m {
    repositories = put m.repositories r.id r;
    files = put m.files r.id files;
    symbols = put m.symbols r.id symbols;
  }

  unfoldable pub files : Memory F V → String → List RepositoryFile
  files m id = get_or m.files id []

  unfoldable pub symbols : Memory F V → String → List Symbol
  symbols m id = get_or m.symbols id []

  unfoldable pub add_task : Memory F V → Task → Memory F V
  add_task m t = record m { tasks = put m.tasks t.id t }

  unfoldable pub task : Memory F V → String → Outcome StoreError Task
  task m id = or_error not_found (get m.tasks id)

  unfoldable pub tasks : Memory F V → List Task
  tasks m = sort (λ a b. ltb a.created_at b.created_at) (values m.tasks)

  -- `UpdateTask`: there is no error, also for a task that is not there.
  unfoldable pub update_task : ℕ → Memory F V → String → TaskStatus → String → Memory F V
  update_task now m id status error =
      let t = get_or m.tasks id zero_task in
      record m {
        tasks = put m.tasks id (record t { status = status; error = error; updated_at = now });
      }

  -- `UpdateTaskForRun`
  unfoldable pub update_task_for_run :
      ℕ → Memory F V → String → String → ℕ → TaskStatus → String → Memory F V × Option StoreError
  unfolding update_task
  update_task_for_run now m id run_id token status error =
      if any (holds_token run_id token) (get_or m.runs id [])
      then (update_task now m id status error, none)
      else (m, some stale_run)

  unfoldable pub add_run : Memory F V → TaskRun → Memory F V
  add_run m r = record m { runs = put m.runs r.task_id (get_or m.runs r.task_id [] ++ r ∷ []) }

  unfoldable pub finish_run : ℕ → Memory F V → String → String → TaskStatus → Memory F V
  unfolding finish_matching
  finish_run now m task_id run_id status = record m {
    runs =
        put m.runs task_id
          (finish_matching now (λ r. r.id == run_id) status (get_or m.runs task_id []));
  }

  unfoldable pub finish_run_with_token :
      ℕ → Memory F V → String → String → TaskStatus → ℕ → Memory F V × Option StoreError
  unfolding finish_matching
  finish_run_with_token now m task_id run_id status token =
      let rs = get_or m.runs task_id [] in
      (
        record m {
          runs = put m.runs task_id (finish_matching now (holds_token run_id token) status rs);
        },
        if any (holds_token run_id token) rs then none else some stale_run,
      )

  unfoldable pub runs : Memory F V → String → List TaskRun
  runs m id = get_or m.runs id []
