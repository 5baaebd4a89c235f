-- ===== src/Runtime.antt =====
-- internal/runtime/service.go: the life of a task, from its creation to the worker that takes it.
mod State
mod Queue
mod Lifecycle
mod Recovery
mod Claiming
mod Refinement
pub mod Evidence
mod Evaluations
mod EvaluationTasks
mod Records
mod ExecutionRecords
mod Failing
mod HumanReview
mod EvaluationReview
pub mod KeepsTasks
pub mod ReviewLaws
pub mod QueueLaws
pub mod Fifo
pub mod QueueRefines
pub mod CreationLaws
pub mod LifecycleLaws
pub mod RecoveryLaws
pub mod RestartLaws
pub mod ClaimLaws
pub mod ClaimProgress
pub use State.*
unfoldable pub use Queue.*
unfoldable pub use Lifecycle.*
unfoldable pub use Recovery.*
unfoldable pub use Claiming.*
unfoldable pub use Refinement.*
unfoldable pub use Evaluations.*
unfoldable pub use EvaluationTasks.*
unfoldable pub use Records.*
unfoldable pub use ExecutionRecords.*
unfoldable pub use Failing.*
unfoldable pub use HumanReview.*
unfoldable pub use EvaluationReview.*
