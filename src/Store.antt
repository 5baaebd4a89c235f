-- ===== src/Store.antt =====
-- internal/store/memory.go: the in-process store. Each method takes the lock once, so a method is
-- one step of the model.
mod State
mod Tasks
mod Records
pub mod Ids
pub mod EditDistance
pub mod Tokens
pub mod Score
mod Memories
pub mod Fencing
pub mod Runs
pub mod Recall
pub mod Links
pub mod Ranking
pub mod Search
unfoldable pub use State.*
unfoldable pub use Tasks.*
unfoldable pub use Records.*
unfoldable pub use Memories.*
