-- ===== src/Store/Search.antt =====
-- internal/store/memory.go, `SearchMemoryLimit`: which entries it answers, in which order, and what
-- it writes.
use code_co_driver.Prelude.{All, ℕ, String, ◌≡◌, ◌⊎◌, true, List, map}
use code_co_driver.Prelude.Text.{Unicode, is_empty}
use code_co_driver.Prelude.Float.{Float}
use code_co_driver.Prelude.Sort.{IsSorted}
use code_co_driver.Domain.{MemoryEntry}
use code_co_driver.Store.Ranking.{rank, first_of, ranking}
use code_co_driver.Store.State.{Memory}

abbrev pub scores : {F : Type 0} → List (MemoryEntry F) → List F
scores = map (λ e. e.score)

abbrev pub homes : {F : Type 0} → List (MemoryEntry F) → List String
homes = map (λ e. e.repository_id)

-- The entry without what an access changes.
abbrev pub unaccessed : {F : Type 0} → MemoryEntry F → MemoryEntry F
unaccessed e = record e { access_count = 0; last_accessed_at = 0 }

module _ {F : Type 0} where
  module _ (f : Float F) (u : Unicode) (now : ℕ) (repo_id q : String) (vector : List F) where
    abbrev IsHit : MemoryEntry F → Type 0
    IsHit e =
        (e.repository_id ≡ repo_id) × ((is_empty q ≡ true) ⊎ (f.lt (f.lit 0 0) e.score ≡ true))

-- What a search answers, and what it leaves behind.
pub record IsAnswer {F V : Type 0} (f : Float F) (u : Unicode) (now : ℕ) (m : Memory F V)
    (repo_id q : String) (vector : List F) (limit : ℕ) (out : List (MemoryEntry F))
    (m' : Memory F V) : Type 0 where
  pub best : map rank out ≡ first_of limit (ranking f u now repo_id q vector m.memories)
  pub home : All (λ r. r ≡ repo_id) (homes out)
  pub relevant : (is_empty q ≡ true) ⊎ All (λ s. f.lt (f.lit 0 0) s ≡ true) (scores out)
  pub ranked : IsSorted (λ a b. f.lt b a) (scores out)
  pub kept : map unaccessed m'.memories ≡ map unaccessed m.memories
  pub tasks_kept : m'.tasks ≡ m.tasks
