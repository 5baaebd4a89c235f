-- ===== src/Tests.antt =====
-- Runs of the model at concrete inputs.
mod Data
mod Stores
mod Leases
mod Gateways
mod Runtimes
mod Skills
mod Workflows
mod Diffs
mod Memories
