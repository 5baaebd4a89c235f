-- ===== src/Runtime/Refinement.antt =====
-- internal/runtime/service.go: the queue of the memories that wait for their refinement.
use code_co_driver.Prelude.{
  ltb, nat_eq, if◌then◌else◌, length, ℕ, zero, suc, ◌+◌, Bool, true, false, ◌||◌, List, [], ◌∷◌,
  ◌++◌,
}
use code_co_driver.Prelude.Text.{is_empty}
use code_co_driver.Prelude.Dict.{Dict, get_or, put, delete}
use code_co_driver.Domain.{MemoryEntry}
use code_co_driver.Store.{unrefined_memories}
use code_co_driver.Runtime.State.{Service}

-- `memoryQueueCapacity`, `maxMemoryRefineAttempts`
abbrev pub memory_queue_capacity : ℕ
memory_queue_capacity = 256

abbrev pub max_memory_refine_attempts : ℕ
max_memory_refine_attempts = 3

module _ {F : Type 0} where
  -- The entries that are not pending, each marked as pending when it is met, and the marks.
  unfoldable pub fresh_entries : Dict Bool → List (MemoryEntry F) → List (MemoryEntry F) × Dict Bool
  fresh_entries pending [] = ([], pending)
  fresh_entries pending (entry ∷ entries) =
      let passed = fresh_entries pending entries in
      let (fresh, marked) = fresh_entries (put pending entry.id true) entries in
      if is_empty entry.id || get_or pending entry.id false then passed else (entry ∷ fresh, marked)

  unfoldable pub clear_marks : Dict Bool → List (MemoryEntry F) → Dict Bool
  clear_marks pending [] = pending
  clear_marks pending (entry ∷ entries) = clear_marks (delete pending entry.id) entries

  module _ {V : Type 0} where
    -- `clearMemoryPending`
    unfoldable pub clear_memory_pending : Service F V → List (MemoryEntry F) → Service F V
    unfolding clear_marks
    clear_memory_pending s entries = record s {
      memory_pending = clear_marks s.memory_pending entries;
    }

    -- The send of `enqueueMemoryRefinement`, which gives the marks back where the channel is full.
    unfoldable pub send_memories : Service F V → List (MemoryEntry F) → Service F V
    unfolding clear_memory_pending
    send_memories s [] = s
    send_memories s (entry ∷ entries) =
        if ltb (length s.memory_queue) memory_queue_capacity
        then record s { memory_queue = s.memory_queue ++ (entry ∷ entries) ∷ [] }
        else clear_memory_pending s (entry ∷ entries)

    -- `enqueueMemoryRefinement`
    unfoldable pub enqueue_memory_refinement : Service F V → List (MemoryEntry F) → Service F V
    unfolding fresh_entries send_memories
    enqueue_memory_refinement s entries =
        let (fresh, pending) = fresh_entries s.memory_pending entries in
        if s.has_refiner then send_memories (record s { memory_pending = pending }) fresh else s

    -- `recoverMemoryRefinement`
    unfoldable pub recover_memory_refinement : Service F V → Service F V
    unfolding enqueue_memory_refinement
    recover_memory_refinement s =
        if s.has_refiner then enqueue_memory_refinement s (unrefined_memories s.store 50) else s

    -- The loop of `runMemoryRefinementWithRetry`: `process` answers whether it succeeded, and
    -- `cancelled` whether the context is done in the pause behind an attempt. The result has the
    -- number of attempts.
    unfoldable pub refine_attempts :
        (Service F V → List (MemoryEntry F) → Bool × Service F V)
        → (ℕ → Bool)
        → ℕ
        → ℕ
        → Service F V
        → List (MemoryEntry F)
        → ℕ × Service F V
    refine_attempts process cancelled zero attempt s entries = (attempt, s)
    refine_attempts process cancelled (suc left) attempt s entries =
        let (succeeded, s') = process s entries in
        let rest = refine_attempts process cancelled left (attempt + 1) s' entries in
        if succeeded || nat_eq left 0 || cancelled (attempt + 1) then (attempt + 1, s') else rest

    -- `runMemoryRefinementWithRetry`
    unfoldable pub run_memory_refinement_with_retry :
        (Service F V → List (MemoryEntry F) → Bool × Service F V)
        → (ℕ → Bool)
        → Service F V
        → List (MemoryEntry F)
        → Service F V
    unfolding refine_attempts
    run_memory_refinement_with_retry process cancelled s entries =
        if s.has_refiner
        then (refine_attempts process cancelled max_memory_refine_attempts 0 s entries).1
        else s

    -- What `memoryWorker` does when it receives.
    unfoldable pub memory_worker_receive :
        (Service F V → List (MemoryEntry F) → Bool × Service F V)
        → (ℕ → Bool)
        → Service F V
        → List (List (MemoryEntry F))
        → Service F V
    unfolding run_memory_refinement_with_retry clear_memory_pending
    memory_worker_receive process cancelled s [] = s
    memory_worker_receive process cancelled s (entries ∷ rest) =
        clear_memory_pending
          (run_memory_refinement_with_retry process cancelled (record s { memory_queue = rest })
            entries)
          entries
