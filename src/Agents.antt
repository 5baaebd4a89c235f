-- ===== src/Agents.antt =====
-- internal/runtime: the agents that a workflow runs, as far as they are functions of their request:
-- the context that they share, the prompts of skills, and what is read from their answers.
pub mod Values
pub mod Requests
pub mod Guidance
pub mod SkillPrompts
pub mod Accepted
pub mod Review
pub mod Repair
pub mod Recall
pub mod Planner
pub mod Selection
pub mod Compaction
pub mod ContextCompaction
