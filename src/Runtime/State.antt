-- ===== src/Runtime/State.antt =====
-- internal/runtime/service.go: the fields of `Service` that change while it runs, and the statuses.
use code_co_driver.Prelude.{ℕ, String, Bool, true, false, List}
use code_co_driver.Prelude.Dict.{Dict}
use code_co_driver.Domain.{
  MemoryEntry, TaskStatus, created, index_check, planning, retrieving_context, generating_patch,
  running_tests, reviewing, explaining, replan_required, human_review, cancelled, completed, failed,
}
use code_co_driver.Store.{Memory}

-- `leased` says whether there is a leaser; `knows_skill` is what the skill registry answers;
-- `has_refiner` says whether there is a client of the model that refines memories, and
-- `memory_queue` is the channel to the workers that do. `cancel_tasks` holds for each running task whether its context was cancelled.
pub record Service (F V : Type 0) : Type 0 where
  pub store : Memory F V
  pub queue : List String
  pub queued : Dict Bool
  pub leased : Bool
  pub cancel_tasks : Dict Bool
  pub knows_skill : String → Bool
  pub has_refiner : Bool
  pub memory_queue : List (List (MemoryEntry F))
  pub memory_pending : Dict Bool

pub data ServiceError : Type 0 where
  missing description_required already_terminal still_active : ServiceError
  not_waiting feedback_required : ServiceError
  unknown_skill : String → ServiceError

-- The capacity of the channel `queue`.
abbrev pub queue_capacity : ℕ
queue_capacity = 128

-- `claimableStatus`
abbrev pub claimable_status : TaskStatus → Bool
claimable_status created = true
claimable_status index_check = true
claimable_status planning = true
claimable_status retrieving_context = true
claimable_status generating_patch = true
claimable_status running_tests = true
claimable_status reviewing = true
claimable_status explaining = true
claimable_status replan_required = true
claimable_status human_review = false
claimable_status cancelled = false
claimable_status completed = false
claimable_status failed = false

-- The statuses that `CancelTask` refuses and `RerunTask` asks for.
abbrev pub is_terminal : TaskStatus → Bool
is_terminal completed = true
is_terminal failed = true
is_terminal cancelled = true
is_terminal human_review = true
is_terminal _ = false
