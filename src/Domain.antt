-- ===== src/Domain.antt =====
-- internal/domain/models.go: the records that the parts exchange.
mod Status
mod Tasks
mod Memories
mod Evaluations
pub use Status.*
pub use Tasks.*
pub use Memories.*
pub use Evaluations.*
