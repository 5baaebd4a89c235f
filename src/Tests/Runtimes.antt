-- ===== src/Tests/Runtimes.antt =====
-- The service with one task that is being executed and one that waits.
use code_co_driver.Prelude.{
  any, All, ℕ, String, ◌≡◌, refl, ◌⊎◌, true, false, none, [], ◌∷◌, ◌++◌, arith,
}
use code_co_driver.Prelude.Dict.{get, put, get_or}
use code_co_driver.Prelude.Sort.{sort}
use code_co_driver.Store.{add_repository, tasks, task, add_run, add_task, new_memory_with_embedding}
use code_co_driver.Runtime.{Service, recover_tasks, cancel_task, create_task, rerun_task}
use code_co_driver.Runtime.RecoveryLaws.{Recovered}
use code_co_driver.Runtime.RestartLaws.{is_hit, recover_tasks-restarts}
use code_co_driver.Runtime.CreationLaws.{Creates, create_task-Creates, Reruns, rerun_task-Reruns}
use code_co_driver.Runtime.LifecycleLaws.{Cancels, cancel_task-Cancels}
use code_co_driver.Runtime.QueueLaws.{
  IsQueue, enqueued, received, queue_step, queue_run, queue_run-IsQueue,
}
use code_co_driver.Runtime.Fifo
use code_co_driver.Runtime.QueueRefines.{delivered, queue_run_refines, queued_is_received}
use code_co_driver.Prelude.Members.{has_text}
use code_co_driver.Prelude.Text.{trim_space}
use code_co_driver.Runtime.{queue_capacity, enqueue}
use code_co_driver.Tests.Data.{busy_store, task_in}
use code_co_driver.Domain.{completed}

abbrev service : Service ℕ String
service = record {
  store = busy_store;
  queue = [];
  queued = [];
  leased = false;
  cancel_tasks = ("task-1", false) ∷ [];
  knows_skill = λ name. false;
  has_refiner = false;
  memory_queue = [];
  memory_pending = [];
}

cancel_task-Cancels_example : Cancels service "task-1" (cancel_task 9 service "task-1")
cancel_task-Cancels_example = cancel_task-Cancels 9 service "task-1"

cancel_task_accepts : (cancel_task 9 service "task-1").0 ≡ none
unfolding cancel_task task get put add_run add_task new_memory_with_embedding
cancel_task_accepts = refl

recover_tasks-restarts_example :
    All (Recovered 9 (omega arith) (recover_tasks 9 service).store) (tasks service.store)
    × ((j : String)
        → (any (is_hit j) (tasks service.store) ≡ true)
          ⊎ (get (recover_tasks 9 service).store.tasks j ≡ get service.store.tasks j))
recover_tasks-restarts_example = recover_tasks-restarts 9 (omega arith) service

recover_tasks_queues : (recover_tasks 9 service).queue ≡ "task-1" ∷ "task-2" ∷ []
unfolding recover_tasks tasks sort get_or put add_run add_task new_memory_with_embedding
recover_tasks_queues = refl

service-IsQueue : IsQueue service
unfolding get_or
service-IsQueue = record { tracked = λ x. refl; distinct = tt; bounded = omega arith }

queue_run-IsQueue_example :
    IsQueue (
      queue_run service (enqueued "task-2" ∷ enqueued "task-2" ∷ received ∷ enqueued "task-2" ∷ []))
queue_run-IsQueue_example =
    queue_run-IsQueue service
      (enqueued "task-2" ∷ enqueued "task-2" ∷ received ∷ enqueued "task-2" ∷ []) service-IsQueue

queue_run_refines_example :
    (
      delivered service (enqueued "task-2" ∷ received ∷ enqueued "task-3" ∷ []),
      (queue_run service (enqueued "task-2" ∷ received ∷ enqueued "task-3" ∷ [])).queue,
    )
    ≡ Fifo.run queue_capacity [] (enqueued "task-2" ∷ received ∷ enqueued "task-3" ∷ [])
queue_run_refines_example =
    queue_run_refines service (enqueued "task-2" ∷ received ∷ enqueued "task-3" ∷ [])
      service-IsQueue refl

abbrev full_service : Service ℕ String
full_service = queue_run service (enqueued "task-1" ∷ enqueued "task-2" ∷ [])

full_service-IsQueue : IsQueue full_service
full_service-IsQueue =
    queue_run-IsQueue service (enqueued "task-1" ∷ enqueued "task-2" ∷ []) service-IsQueue

full_service_leased : full_service.leased ≡ false
unfolding queue_run queue_step enqueue get_or put
full_service_leased = refl

full_service_queue : full_service.queue ≡ ("task-1" ∷ []) ++ "task-2" ∷ []
unfolding queue_run queue_step enqueue get_or put
full_service_queue = refl

queued_is_received_example :
    has_text "task-2" (delivered full_service (received ∷ enqueued "task-1" ∷ received ∷ [])) ≡ true
queued_is_received_example =
    queued_is_received full_service (received ∷ enqueued "task-1" ∷ received ∷ []) ("task-1" ∷ [])
      "task-2" [] full_service-IsQueue full_service_leased full_service_queue (omega arith)

abbrev known_service : Service ℕ String
known_service = record service {
  store = add_repository (add_task busy_store (task_in "task-3" completed 3)) (record {
    id = "repo-1";
    name = "repo";
    path = "/repo";
    test_command = "";
    primary_language = "go";
    file_count = 0;
    indexed_at = 0;
    created_at = 1;
  });
}

create_task-Creates_example :
    Creates 9 known_service "repo-1" "fix" " fix it "
      (trim_space "")
      ""
      (create_task 9 known_service "repo-1" "fix" " fix it " "" "" true)
create_task-Creates_example =
    create_task-Creates 9 known_service "repo-1" "fix" " fix it " "" "" true

rerun_task-Reruns_example : Reruns 9 known_service "task-3" (rerun_task 9 known_service "task-3")
rerun_task-Reruns_example = rerun_task-Reruns 9 known_service "task-3"
