-- ===== src/Domain/Status.antt =====
-- internal/domain/models.go: the statuses of a task and of its runs, and the memory modes.
use code_co_driver.Prelude.{String}

pub data TaskStatus : Type 0 where
  created index_check planning retrieving_context generating_patch running_tests : TaskStatus
  reviewing explaining replan_required human_review cancelled completed failed : TaskStatus

pub TaskStatus-discrete : Discrete TaskStatus
TaskStatus-discrete = hlevel

abbrev pub memory_mode_with : String
memory_mode_with = "with_memory"

abbrev pub memory_mode_without : String
memory_mode_without = "without_memory"
