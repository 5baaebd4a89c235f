-- ===== src/Sandbox.antt =====
-- internal/sandbox: the part that reads the diffs that agents propose.
pub mod Diff
pub mod Preflight
pub mod Accepted
pub mod Paths
pub mod Targets
