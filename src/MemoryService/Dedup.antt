-- ===== src/MemoryService/Dedup.antt =====
-- internal/memory/dedup.go: `dedupeAll` over the store in memory. Of its calls only `GetMemory` and
-- `UpdateMemory` can fail there. `now` is what `time.Now` answers during a search.
use code_co_driver.Prelude.{
  if◌then◌else◌, Outcome, ok, err, first_error, ℕ, String, Bool, false, ◌&&◌, ◌||◌, not, Option,
  none, some, List, [], ◌∷◌, ◌==◌,
}
use code_co_driver.Prelude.Text.{Unicode, trim_space, is_empty, join}
use code_co_driver.Prelude.Float.{Float}
use code_co_driver.Domain.{MemoryEntry, MemoryLink}
use code_co_driver.Store.{
  Memory, StoreError, get_memory, update_memory, search_memory_limit, memory_links, add_memory_link,
}
use code_co_driver.Store.Ids.{id}
use code_co_driver.MemoryService.Similarity.{similarity_score, pick_primary}

module _ {F : Type 0} where
  -- `dedupCandidate`
  unfoldable pub dedup_candidate : MemoryEntry F → Bool
  dedup_candidate entry =
      if not (is_empty entry.duplicate_of) || not (is_empty entry.conflict_group_id)
      then false
      else entry.kind == "execution_success" || entry.kind == "failure_pattern"

  -- `sameDedupKind`
  unfoldable pub same_dedup_kind : MemoryEntry F → MemoryEntry F → Bool
  same_dedup_kind left right =
      left.kind == right.kind && is_empty right.duplicate_of && is_empty right.conflict_group_id

  -- `dedupQuery`
  unfoldable pub dedup_query : MemoryEntry F → String
  dedup_query entry = trim_space (join (entry.title ∷ entry.symptom ∷ entry.summary ∷ []) " ")

  -- What the inner loop passes over.
  unfoldable pub passed_over : Float F → Unicode → MemoryEntry F → MemoryEntry F → Bool
  unfolding similarity_score same_dedup_kind
  passed_over f u entry candidate =
      not (same_dedup_kind entry candidate)
      || not (is_empty candidate.duplicate_of)
      || candidate.id == entry.id
      || f.lt (similarity_score f u entry candidate) (f.lit 75 2)

module _ {F V : Type 0} where
  -- The loop of `mergeMemoryLinks`.
  unfoldable pub merge_links : Memory F V → String → String → List MemoryLink → Memory F V
  merge_links m from_id to_id [] = m
  merge_links m from_id to_id (link ∷ links) =
      let (link_id, m') = id m "memory_link" in
      let merged : MemoryLink = record {
        id = link_id;
        memory_id = to_id;
        repository_id = link.repository_id;
        target_type = link.target_type;
        target_id = link.target_id;
        label = join ("merged_from:" ∷ from_id ∷ []) "";
        created_at = link.created_at;
      } in
      merge_links (add_memory_link m' merged) from_id to_id links

  -- `mergeMemoryLinks`
  unfoldable pub merge_memory_links : Memory F V → String → String → Memory F V
  unfolding merge_links
  merge_memory_links m from_id to_id = merge_links m from_id to_id (memory_links m from_id)

  -- What follows the call of `UpdateMemory`.
  abbrev pub after_update :
      Option StoreError
      → String
      → String
      → Memory F V × Option StoreError
      → Option StoreError × Memory F V
  after_update first secondary primary (m, none) = (first, merge_memory_links m secondary primary)
  after_update first secondary primary (m, some e) = (first_error first (some e), m)

  -- A pair that is alike: the weaker memory becomes a duplicate of the stronger one.
  unfoldable pub mark_duplicate :
      Option StoreError
      → Memory F V
      → MemoryEntry F × MemoryEntry F
      → Option StoreError × Memory F V
  unfolding merge_memory_links
  mark_duplicate first m (primary, secondary) =
      if secondary.id == primary.id
      then (first, m)
      else after_update first secondary.id primary.id
          (update_memory m (record secondary { duplicate_of = primary.id }))

  module _ (f : Float F) (u : Unicode) where
    -- The loop over the candidates.
    unfoldable pub dedupe_entry :
        Option StoreError
        → Memory F V
        → MemoryEntry F
        → List (MemoryEntry F)
        → Option StoreError × Memory F V
    unfolding mark_duplicate pick_primary passed_over
    dedupe_entry first m entry [] = (first, m)
    dedupe_entry first m entry (candidate ∷ candidates) =
        let (first', m') =
          if passed_over f u entry candidate
          then (first, m)
          else mark_duplicate first m (pick_primary f entry candidate) in
        dedupe_entry first' m' entry candidates

    -- The body of the outer loop, with what the store answers for the memory.
    unfoldable pub dedupe_found :
        ℕ
        → Option StoreError
        → Memory F V
        → Outcome StoreError (MemoryEntry F)
        → Option StoreError × Memory F V
    unfolding dedupe_entry dedup_candidate dedup_query
    dedupe_found now first m (err e) = (first_error first (some e), m)
    dedupe_found now first m (ok entry) =
        let (candidates, m') =
          search_memory_limit f u now m entry.repository_id (dedup_query entry) 10 in
        if dedup_candidate entry then dedupe_entry first m' entry candidates else (first, m)

    -- `dedupeAll`, with the first error so far.
    unfoldable pub dedupe_all :
        ℕ → Option StoreError → Memory F V → List (MemoryEntry F) → Option StoreError × Memory F V
    unfolding dedupe_found
    dedupe_all now first m [] = (first, m)
    dedupe_all now first m (original ∷ originals) =
        let (first', m') = dedupe_found now first m (get_memory m original.id) in
        dedupe_all now first' m' originals
