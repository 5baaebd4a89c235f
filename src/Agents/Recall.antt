-- ===== src/Agents/Recall.antt =====
-- internal/runtime/service.go: which of the memories that the store finds are given to the agents.
-- The runtime has its own copy of the keyword search of the store.
use code_co_driver.Prelude.{
  ltb, leb, if◌then◌else◌, take, select, any, count, ℕ, ◌+◌, ◌/◌, String, Bool, false, ◌&&◌, ◌||◌,
  not, List, [], ◌∷◌, ◌++◌, ◌==◌,
}
use Prim.Native.Char.{Char}
use code_co_driver.Prelude.Text.{
  Unicode, to_lower, is_empty, contains, fields_func, byte_length, has_prefix, join,
}
use code_co_driver.Prelude.Float.{Float}
use code_co_driver.Prelude.Sort.{sort}
use code_co_driver.Domain.{MemoryEntry}
use code_co_driver.Store.EditDistance.{runes, cost}
use code_co_driver.Store.Tokens.{add_words, add_bigrams}

-- `runtimeMin`
unfoldable pub runtime_min : ℕ → ℕ → ℕ → ℕ
runtime_min left middle right =
    let left' = if ltb middle left then middle else left in if ltb right left' then right else left'

-- The inner loop of `runtimeEditDistance`.
unfoldable pub runtime_row : Char → List Char → List ℕ → ℕ → List ℕ
unfolding runtime_min
runtime_row c [] previous cell = []
runtime_row c (d ∷ right) [] cell = []
runtime_row c (d ∷ right) (p ∷ []) cell = []
runtime_row c (d ∷ right) (p ∷ q ∷ previous) cell =
    let next = runtime_min (q + 1) (cell + 1) (p + cost c d) in
    next ∷ runtime_row c right (q ∷ previous) next

-- The outer loop.
unfoldable pub runtime_rows : ℕ → List Char → List Char → List ℕ → List ℕ
unfolding runtime_row
runtime_rows i [] right previous = previous
runtime_rows i (c ∷ left) right previous =
    runtime_rows (i + 1) left right ((i + 1) ∷ runtime_row c right previous (i + 1))

unfoldable pub runtime_first_row : ℕ → List Char → List ℕ
runtime_first_row j [] = j ∷ []
runtime_first_row j (d ∷ right) = j ∷ runtime_first_row (j + 1) right

unfoldable pub last_cell : ℕ → List ℕ → ℕ
last_cell z [] = z
last_cell z (x ∷ xs) = last_cell x xs

-- `runtimeEditDistance`
unfoldable pub runtime_edit_distance : String → String → ℕ
unfolding runtime_rows runtime_first_row last_cell
runtime_edit_distance left right =
    last_cell 0 (runtime_rows 0 (runes left) (runes right) (runtime_first_row 0 (runes right)))

-- `fuzzyRuntimeMemoryTokenMatch`
unfoldable pub fuzzy_runtime_memory_token_match : String → String → Bool
unfolding runtime_edit_distance
fuzzy_runtime_memory_token_match left right =
    if ltb (byte_length left) 4 || ltb (byte_length right) 4
    then false
    else let third = byte_length left / 3 in
      let larger = if ltb third (byte_length right / 3) then byte_length right / 3 else third in
      leb (runtime_edit_distance left right) (if ltb larger 1 then 1 else larger)

-- `runtimeMemoryTokens`
unfoldable pub runtime_memory_tokens : Unicode → String → List String
unfolding add_words add_bigrams
runtime_memory_tokens u value =
    let lower = to_lower u value in
    let words = fields_func (λ r. not (u.is_letter r) && not (u.is_number r)) lower in
    add_bigrams u (add_words [] words) (runes lower)

-- `runtimeMemoryTextRelevant`
unfoldable pub runtime_memory_text_relevant : Unicode → String → String → Bool
unfolding fuzzy_runtime_memory_token_match runtime_memory_tokens
runtime_memory_text_relevant u query text =
    let text_tokens = runtime_memory_tokens u text in
    any (λ q. any (λ t. q == t || fuzzy_runtime_memory_token_match q t) text_tokens)
      (runtime_memory_tokens u query)
    || contains (to_lower u text) (to_lower u query)

module _ {F : Type 0} where
  -- `failureMemoryRelevant`
  unfoldable pub failure_memory_relevant : Unicode → MemoryEntry F → String → Bool
  unfolding runtime_memory_text_relevant
  failure_memory_relevant u m query =
      runtime_memory_text_relevant u query
        (to_lower u (join (m.title ∷ m.symptom ∷ m.root_cause ∷ m.condition ∷ m.summary ∷ []) " "))

  -- `memoryPriorityScore`
  unfoldable pub memory_priority_score : Float F → MemoryEntry F → F
  memory_priority_score f m =
      let resolved =
        if m.kind == "resolved_pattern"
        then f.add m.success_score (f.lit 1 0)
        else m.success_score in
      let refined = if has_prefix m.kind "refined_" then f.add resolved (f.lit 5 1) else resolved in
      f.add refined (f.mul m.score (f.lit 1 1))

  -- The kinds that the selection looks at.
  abbrev pub is_success_kind : MemoryEntry F → Bool
  is_success_kind m =
      m.kind == "resolved_pattern"
      || m.kind == "execution_success"
      || m.kind == "refined_execution_success"

  abbrev pub is_failure_kind : MemoryEntry F → Bool
  is_failure_kind m = m.kind == "failure_pattern" || m.kind == "refined_failure_pattern"

  -- The loop of `selectMemoryForContext`, once for each of its two lists.
  unfoldable pub high_memories : List (MemoryEntry F) → List (MemoryEntry F)
  high_memories memories = select (λ m. is_empty m.duplicate_of && is_success_kind m) memories

  unfoldable pub failure_memories : Unicode → String → List (MemoryEntry F) → List (MemoryEntry F)
  unfolding failure_memory_relevant
  failure_memories u query memories =
      select
        (λ m. is_empty m.duplicate_of && is_failure_kind m && failure_memory_relevant u m query)
        memories

  -- `selectMemoryForContext`
  unfoldable pub select_memory_for_context :
      Float F → Unicode → List (MemoryEntry F) → String → List (MemoryEntry F)
  unfolding high_memories failure_memories
  select_memory_for_context f u memories query =
      let better : MemoryEntry F → MemoryEntry F → Bool =
        λ a b. f.lt (memory_priority_score f b) (memory_priority_score f a) in
      take 5
        (sort better (high_memories memories) ++ sort better (failure_memories u query memories))

  -- `memorySourceCounts`: successes, failures, resolved and refined ones.
  unfoldable pub memory_source_counts : List (MemoryEntry F) → ((ℕ × ℕ) × ℕ) × ℕ
  memory_source_counts memories = (
    (
      (
        count
            (λ (m : MemoryEntry F).
              m.kind == "execution_success" || m.kind == "refined_execution_success")
            memories,
        count is_failure_kind memories,
      ),
      count (λ (m : MemoryEntry F). m.kind == "resolved_pattern") memories,
    ),
    count (λ (m : MemoryEntry F). has_prefix m.kind "refined_") memories,
  )
