-- ===== src/MemoryService.antt =====
-- internal/memory: the service that works on the long-term memories.
pub mod Similarity
pub mod Dedup
pub mod Refine
pub mod Answers
pub mod Conflicts
pub mod Longer
pub mod Growth
pub mod Grouping
pub mod Overlap
pub mod Marking
pub mod Batches
pub mod KeepsMemories
