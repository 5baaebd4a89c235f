-- ===== src/MemoryService/Grouping.antt =====
-- internal/memory/conflict.go: `resolveConflict` puts the success and the failure in the group of
-- the pattern that it adds.
use code_co_driver.Prelude.Float.{Float}
