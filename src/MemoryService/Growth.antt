-- ===== src/MemoryService/Growth.antt =====
-- internal/memory: `Process` adds memories, and removes and reorders none.
use code_co_driver.Prelude.{
  Bool-cases, length, Outcome, ok, err, first_error, String, inl, inr, Option, none, some, List, [],
  ◌∷◌,
}
use code_co_driver.Prelude.Text.{Unicode}
use code_co_driver.Prelude.Float.{Float}
use code_co_driver.Domain.{MemoryEntry}
use code_co_driver.Store.{Memory, StoreError, get_memory, search_memory_limit}
use code_co_driver.MemoryService.KeepsMemories.{names, names-search, names-dedupe_all}
use code_co_driver.MemoryService.Refine.{RefinedMemory, batches, refine_batches, refine_all}
use code_co_driver.MemoryService.Answers.{
  ConflictResolution, Reader, Client, MemoryError, parse_refined_batch, persist_at, refine_one,
  refine_each, persist_each, batch_answered, refine_batch,
}
use code_co_driver.MemoryService.Conflicts.{
  conflict_candidate, conflict_query, no_conflict, parse_resolution, store_resolution,
  resolve_conflict, resolve_candidates, resolve_memory, resolve_conflicts, process, as_memory_error,
}
use code_co_driver.MemoryService.Longer.{
  Longer, Longer-equal, Longer-refl, Longer-trans, Grown, persist_refined_memory-Grown,
  store_resolution-Grown,
}

module _ {F V W : Type 0} (f : Float F) (u : Unicode) (reader : Reader F W) where
  -- A step on the store and the world answers a store that has grown.
  abbrev Grows : {E : Type 0} → Memory F V → E × (Memory F V × W) → Type 0
  Grows m o = Grown m o.1.0

  module _ (client : Client W) where
    persist_at-Grows :
        (entry : MemoryEntry F) (parsed : Outcome MemoryError (RefinedMemory F))
        (s : Memory F V × W)
        → Grows s.0 (persist_at f u reader client entry parsed s)
    unfolding persist_at
    persist_at-Grows entry (err e) s = Longer-refl
    persist_at-Grows entry (ok parsed) (m, w) =
        persist_refined_memory-Grown f u (reader.now w).0 m entry parsed

    refine_one-Grows :
        (s : Memory F V × W) (entry : MemoryEntry F)
        → Grows s.0 (refine_one f u reader client s entry)
    unfolding refine_one
    refine_one-Grows (m, w) entry = persist_at-Grows entry _ (m, _)

    refine_each-Grows :
        (first : Option MemoryError) (s : Memory F V × W) (entries : List (MemoryEntry F))
        → Grows s.0 (refine_each f u reader client first s entries)
    unfolding refine_each
    refine_each-Grows first s [] = Longer-refl
    refine_each-Grows first s (entry ∷ entries) =
        let (e, s') = refine_one f u reader client s entry in
        Longer-trans (refine_one-Grows s entry) (refine_each-Grows (first_error first e) s' entries)

    persist_each-Grows :
        (first : Option MemoryError) (s : Memory F V × W) (entries : List (MemoryEntry F))
        (parts : List (RefinedMemory F))
        → Grows s.0 (persist_each f u reader client first s entries parts)
    unfolding persist_each
    persist_each-Grows first s [] parts = Longer-refl
    persist_each-Grows first s (entry ∷ entries) [] = Longer-refl
    persist_each-Grows first s (entry ∷ entries) (parsed ∷ parts) =
        let (e, s') = persist_at f u reader client entry (ok parsed) s in
        Longer-trans (persist_at-Grows entry (ok parsed) s)
          (persist_each-Grows (first_error first e) s' entries parts)

    batch_answered-Grows :
        (entries : List (MemoryEntry F)) (answer : Outcome String String) (s : Memory F V × W)
        → Grows s.0 (batch_answered f u reader client entries answer s)
    unfolding batch_answered
    batch_answered-Grows entries (err e) s = Longer-refl
    batch_answered-Grows entries (ok content) s =
        go (parse_refined_batch reader content (length entries))
      where
        go :
            (o : Outcome MemoryError (List (RefinedMemory F)))
            → Grows {E = Option MemoryError} s.0 (elim o [
              | err e ↦ refine_each f u reader client none s entries
              | ok parts ↦ persist_each f u reader client none s entries parts
            ])
        go (err e) = refine_each-Grows none s entries
        go (ok parts) = persist_each-Grows none s entries parts

    refine_batch-Grows :
        (s : Memory F V × W) (entries : List (MemoryEntry F))
        → Grows s.0 (refine_batch f u reader client s entries)
    unfolding refine_batch
    refine_batch-Grows s [] = Longer-refl
    refine_batch-Grows s (entry ∷ []) = refine_one-Grows s entry
    refine_batch-Grows (m, w) (entry ∷ next ∷ rest) =
        batch_answered-Grows (entry ∷ next ∷ rest) _ (m, _)

    refine_batches-Grows :
        (first : Option MemoryError) (s : Memory F V × W) (bs : List (List (MemoryEntry F)))
        → Grows s.0 (refine_batches (refine_batch f u reader client) first s bs)
    unfolding refine_batches
    refine_batches-Grows first s [] = Longer-refl
    refine_batches-Grows first s (b ∷ bs) =
        let (e, s') = refine_batch f u reader client s b in
        Longer-trans (refine_batch-Grows s b) (refine_batches-Grows (first_error first e) s' bs)

    resolve_conflict-Grows :
        (s : Memory F V × W) (success failure : MemoryEntry F)
        → Grows s.0 (resolve_conflict f u reader client s success failure)
    unfolding resolve_conflict
    resolve_conflict-Grows (m, w) success failure = go (parse_resolution reader _) _
      where
        go :
            (o : Outcome MemoryError ConflictResolution) (w' : W)
            → Grows {E = Option MemoryError} m (elim o [
              | err e ↦ (some e, (m, w'))
              | ok parsed ↦
                  let (m', e) = store_resolution f u (reader.now w).0 m success failure parsed in
                  (as_memory_error e, (m', w'))
            ])
        go (err e) w' = Longer-refl
        go (ok parsed) w' = store_resolution-Grown f u (reader.now w).0 m success failure parsed

    resolve_candidates-Grows :
        (success : MemoryEntry F) (failures : List (MemoryEntry F)) (pairs : List String)
        (first : Option MemoryError) (s : Memory F V × W)
        → Grows s.0 (resolve_candidates f u reader client pairs first s success failures).1
    unfolding resolve_candidates
    resolve_candidates-Grows success [] pairs first s = Longer-refl
    resolve_candidates-Grows success (failure ∷ failures) pairs first s =
        elim (Bool-cases (no_conflict f u pairs success failure)) [
          | inl passed ↦
              rw (resolve_candidates, passed)
                (resolve_candidates-Grows success failures pairs first s)
          | inr c ↦
              rw (resolve_candidates, c)
                (Longer-trans (resolve_conflict-Grows s success failure)
                  (resolve_candidates-Grows success failures _ _ _))
        ]

    resolve_memory-Grows :
        (pairs : List String) (first : Option MemoryError) (s : Memory F V × W)
        (o : Outcome StoreError (MemoryEntry F))
        → Grows s.0 (resolve_memory f u reader client pairs first s o).1
    unfolding resolve_memory
    resolve_memory-Grows pairs first s (err e) = Longer-refl
    resolve_memory-Grows pairs first (m, w) (ok success) =
        elim (Bool-cases (conflict_candidate success "execution_success")) [
          | inl c ↦
              let (candidates, m') =
                search_memory_limit f u (reader.now w).0 m success.repository_id
                  (conflict_query success) 10 in
              rw (resolve_memory, c)
                (Longer-trans
                  (Longer-equal (
                    names-search f u (reader.now w).0 m success.repository_id
                      (conflict_query success) 10))
                  (resolve_candidates-Grows success candidates pairs first (m', (reader.now w).1)))
          | inr c ↦ rw (resolve_memory, c) Longer-refl
        ]

    resolve_conflicts-Grows :
        (originals : List (MemoryEntry F)) (pairs : List String) (first : Option MemoryError)
        (s : Memory F V × W)
        → Grows s.0 (resolve_conflicts f u reader client pairs first s originals)
    unfolding resolve_conflicts
    resolve_conflicts-Grows [] pairs first s = Longer-refl
    resolve_conflicts-Grows (original ∷ originals) pairs first s =
        Longer-trans (resolve_memory-Grows pairs first s (get_memory s.0 original.id))
          (resolve_conflicts-Grows originals _ _ _)

  -- `Process` of a service with a store never removes, renames or reorders a memory, whatever the model answers and whatever
  -- errors it meets: the ids of the store that it leaves are the ids that were there, in their
  -- order, and the ids of what it has added behind them.
  pub process-keeps_memories :
      (client : Option (Client W)) (s : Memory F V × W) (entries : List (MemoryEntry F))
      → Longer (names s.0.memories) (names (process f u reader client s entries).1.0.memories)
  unfolding process refine_all
  process-keeps_memories none (m, w) entries =
      Longer-equal (names-dedupe_all f u (reader.now w).0 entries none m)
  process-keeps_memories (some client) s entries =
      Longer-trans (refine_batches-Grows client none s (batches [] entries)) (
        Longer-trans (Longer-equal (names-dedupe_all f u _ entries none _))
          (resolve_conflicts-Grows client entries [] none _))
