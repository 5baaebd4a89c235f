-- ===== src/MemoryService/Marking.antt =====
-- internal/memory/dedup.go: what `dedupeAll` does to a pair of memories that are alike.
use code_co_driver.Prelude.{if◌then◌else◌, ok, err, String, ◌≡◌, ◌⊎◌, Option, none, some, ◌==◌}
use code_co_driver.Prelude.Float.{Float}
use code_co_driver.Domain.{MemoryEntry}
use code_co_driver.Store.{Memory, StoreError, not_found, get_memory}

module _ {F V : Type 0} (m : Memory F V) where
  -- The store after a mark: the one memory is a duplicate of the other, and each id but its own
  -- finds what it found before.
  abbrev pub IsMarked : MemoryEntry F → MemoryEntry F → Memory F V → Type 0
  IsMarked primary secondary m' =
      (i : String)
      → get_memory m' i ≡ (
          if secondary.id == i
          then ok (record secondary { duplicate_of = primary.id })
          else get_memory m i)

  -- What happens to a pair, of which the second is to be marked.
  abbrev pub Marks : MemoryEntry F → MemoryEntry F → Option StoreError × Memory F V → Type 0
  Marks primary secondary (e, m') =
      ((secondary.id ≡ primary.id) × (e ≡ none) × (m' ≡ m))
      ⊎ (((e ≡ none)
            × ((old : MemoryEntry F) × (get_memory m secondary.id ≡ ok old))
            × IsMarked primary secondary m')
          ⊎ ((e ≡ some not_found) × (m' ≡ m) × (get_memory m secondary.id ≡ err not_found)))
