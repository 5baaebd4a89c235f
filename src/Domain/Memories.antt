-- ===== src/Domain/Memories.antt =====
-- internal/domain/models.go: long-term memory entries and their links. `F` stands for `float64`.
use code_co_driver.Prelude.{ℕ, String, Option, List}
use code_co_driver.Prelude.Dict.{Dict}

pub record MemoryLink : Type 0 where
  pub id : String
  pub memory_id : String
  pub repository_id : String
  pub target_type : String
  pub target_id : String
  pub label : String
  pub created_at : ℕ

pub record MemoryEntry (F : Type 0) : Type 0 where
  pub id : String
  pub repository_id : String
  pub task_id : String
  pub kind : String
  pub content : String
  pub title : String
  pub summary : String
  pub symptom : String
  pub root_cause : String
  pub changed_files : List String
  pub symbols : List String
  pub test_command : String
  pub verification_evidence : String
  pub success_score : F
  pub source_run_id : String
  pub duplicate_of : String
  pub conflict_group_id : String
  pub condition : String
  pub refined_at : Option ℕ
  pub source : String
  pub score : F
  pub metadata : Dict String
  pub embedding : List F
  pub links : List MemoryLink
  pub last_accessed_at : ℕ
  pub access_count : ℕ
  pub created_at : ℕ
