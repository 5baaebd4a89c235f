-- ===== src/Tests/Stores.antt =====
-- The store with two tasks and two memories.
use code_co_driver.Prelude.{
  if◌then◌else◌, select, any, count, IsDistinct, ℕ, ◌≤◌, String, ◌≡◌, true, not, none, some, [],
  ◌∷◌, map, ◌==◌,
}
use code_co_driver.Prelude.Dict.{get_or}
use code_co_driver.Domain.{MemoryEntry, MemoryLink, completed}
use code_co_driver.Store.{
  stale_run, add_task, new_memory_with_embedding, holds_token, update_task_for_run, add_run,
  finish_run_with_token, runs, record_memory_access, update_memory, add_memory_link, memory_links,
  same_target,
}
use code_co_driver.Store.Ids.{ids}
use code_co_driver.Store.Ids.Distinct.{ids-IsDistinct}
use code_co_driver.Store.EditDistance.{edit_distance, runes}
use code_co_driver.Store.EditDistance.Script.{Script, keep, add, done}
use code_co_driver.Store.EditDistance.Rows.{edit_distance-le, edit_distance-Script}
use code_co_driver.Store.Fencing.{
  FencedWrite, start_runs, update_task_for_run-FencedWrite, stale_write_accepted,
}
use code_co_driver.Store.Runs.{ended, finish_run_with_token_ends}
use code_co_driver.Store.Recall.{
  UpdatesEntry, accessed, record_memory_access_counts, update_memory-UpdatesEntry,
}
use code_co_driver.Store.Links.{HasDistinctLinks, add_memory_link-HasDistinctLinks}
use code_co_driver.Tests.Data.{busy_store, knowing_store, two_entries, entry_of, run_of}

update_task_for_run-FencedWrite_example :
    FencedWrite 9 busy_store "task-1" "run-1" 1 completed ""
      (update_task_for_run 9 busy_store "task-1" "run-1" 1 completed "").0
      (update_task_for_run 9 busy_store "task-1" "run-1" 1 completed "").1
update_task_for_run-FencedWrite_example =
    update_task_for_run-FencedWrite 9 busy_store "task-1" "run-1" 1 completed ""

stale_write_accepted_example :
    (update_task_for_run 9
      (start_runs (add_run busy_store (run_of "run-3" "task-1" 3)) (run_of "run-4" "task-1" 4 ∷ []))
      "task-1"
      "run-3"
      3
      completed
      "").1
    ≡ none
stale_write_accepted_example =
    stale_write_accepted 9 busy_store (run_of "run-3" "task-1" 3) (run_of "run-4" "task-1" 4 ∷ [])
      completed ""

finish_run_with_token_ends_example :
    let m' = (finish_run_with_token 9 busy_store "task-1" "run-1" completed 1).0 in
    (select (holds_token "run-1" 1) (runs m' "task-1")
      ≡ map (ended 9 completed) (select (holds_token "run-1" 1) (runs busy_store "task-1")))
    × (select (λ r. not (holds_token "run-1" 1 r)) (runs m' "task-1")
        ≡ select (λ r. not (holds_token "run-1" 1 r)) (runs busy_store "task-1"))
    × ((j : String) → runs m' j ≡ (if "task-1" == j then runs m' "task-1" else runs busy_store j))
    × ((finish_run_with_token 9 busy_store "task-1" "run-1" completed 1).1
        ≡ (if any (holds_token "run-1" 1) (runs busy_store "task-1") then none else some stale_run))
finish_run_with_token_ends_example =
    finish_run_with_token_ends 9 busy_store "task-1" "run-1" completed 1

ids-IsDistinct_example : IsDistinct (ids busy_store ("task" ∷ "run" ∷ "task" ∷ []))
ids-IsDistinct_example = ids-IsDistinct busy_store ("task" ∷ "run" ∷ "task" ∷ [])

edit_distance-Script_example :
    Script (runes "parser") (runes "parsers") (edit_distance "parser" "parsers")
edit_distance-Script_example = edit_distance-Script "parser" "parsers"

edit_distance-le_example : edit_distance "ab" "abc" ≤ 1
unfolding runes
edit_distance-le_example = edit_distance-le "ab" "abc" (keep (keep (add done)))

record_memory_access_counts_example :
    (record_memory_access 9 knowing_store ("memory-1" ∷ "memory-1" ∷ [])).memories
    ≡ map
        (λ (e : MemoryEntry ℕ).
          accessed 9 (count (λ i. e.id == i) ("memory-1" ∷ "memory-1" ∷ [])) e)
        two_entries
record_memory_access_counts_example =
    record_memory_access_counts knowing_store 9 ("memory-1" ∷ "memory-1" ∷ [])

update_memory-UpdatesEntry_example :
    UpdatesEntry knowing_store
      (entry_of "memory-2" "new title")
      (update_memory knowing_store (entry_of "memory-2" "new title"))
update_memory-UpdatesEntry_example =
    update_memory-UpdatesEntry knowing_store (entry_of "memory-2" "new title")

abbrev file_link : MemoryLink
file_link = record {
  id = "memory_link-1";
  memory_id = "memory-1";
  repository_id = "repo-1";
  target_type = "file";
  target_id = "parser.go";
  label = "";
  created_at = 2;
}

knowing_store-HasDistinctLinks : HasDistinctLinks knowing_store
unfolding memory_links get_or add_run add_task new_memory_with_embedding
knowing_store-HasDistinctLinks = λ i. tt

add_memory_link-HasDistinctLinks_example :
    HasDistinctLinks (add_memory_link knowing_store file_link)
    × (any
          (same_target file_link)
          (memory_links (add_memory_link knowing_store file_link) "memory-1")
        ≡ true)
add_memory_link-HasDistinctLinks_example =
    add_memory_link-HasDistinctLinks knowing_store file_link knowing_store-HasDistinctLinks
