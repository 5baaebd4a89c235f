-- ===== src/Tests/Memories.antt =====
-- The memory service on a store with two memories, and a model that answers with a fixed text.
use code_co_driver.Prelude.{select, All, ok, ℕ, ◌+◌, ◌≡◌, some, [], ◌∷◌}
use code_co_driver.MemoryService.Refine.{RefinedMemory, batches, refinable}
use code_co_driver.MemoryService.Batches.{joined, IsBatch, batches_cut}
use code_co_driver.MemoryService.KeepsMemories.{names}
use code_co_driver.MemoryService.Answers.{ConflictResolution, Reader, Client}
use code_co_driver.MemoryService.Conflicts.{process}
use code_co_driver.MemoryService.Longer.{Longer}
use code_co_driver.MemoryService.Growth.{process-keeps_memories}
use code_co_driver.Tests.Data.{floats, ascii, knowing_store, two_entries}

abbrev refined_parser : RefinedMemory ℕ
refined_parser = record {
  title = "parser";
  summary = "fix the parser";
  symptom = "";
  root_cause = "";
  changed_files = [];
  symbols = [];
  condition = "";
  success_score = 1;
}

abbrev resolution : ConflictResolution
resolution = record {
  condition = "on empty input";
  resolution = "check the length";
  recommendation = "";
  changed_files = [];
  symbols = [];
}

-- A clock that counts, and decoders that find the same in every text.
abbrev reader : Reader ℕ ℕ
reader = record {
  now = λ w. (w, w + 1);
  decode_memory = λ text. some refined_parser;
  decode_memories = λ text. some (refined_parser ∷ refined_parser ∷ []);
  decode_resolution = λ text. some resolution;
}

abbrev client : Client ℕ
client system prompt w = (ok "{}", w)

process-keeps_memories_example :
    Longer (names two_entries) (
      names (process floats ascii reader (some client) (knowing_store, 9) two_entries).1.0.memories)
process-keeps_memories_example =
    process-keeps_memories floats ascii reader (some client) (knowing_store, 9) two_entries

batches_cut_example :
    (joined (batches [] two_entries) ≡ select refinable two_entries)
    × All IsBatch (batches [] two_entries)
batches_cut_example = batches_cut two_entries
