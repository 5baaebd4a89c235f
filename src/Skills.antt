-- ===== src/Skills.antt =====
-- internal/skills: skills, their registry and the router that chooses one for a task.
pub mod Prompt
pub mod Registry
pub mod Router
pub mod Rendering
pub mod Invariant
