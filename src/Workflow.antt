-- ===== src/Workflow.antt =====
-- internal/runtime/workflow.go and the execution of a task in internal/runtime/service.go.
pub mod Specs
pub mod Steps
pub mod Attempt
pub mod PatchLoop
pub mod Nodes
pub mod Execution
pub mod Planned
pub mod Tasks
pub mod Closed
pub mod Termination
pub mod Outcomes
pub mod Attempted
pub mod Turns
pub mod Attempts
