-- ===== src/MemoryService/Longer.antt =====
-- internal/memory: what is stored of an answer of the model stands behind the memories of before.
use code_co_driver.Prelude.{
  ℕ, String, ◌≡◌, refl, sym, ap, ◌∙◌, Option, none, some, List, [], ◌∷◌, ◌++◌,
}
use mathlib.Core.List.{append_assoc, append-nil}
use code_co_driver.Prelude.Text.{Unicode}
use code_co_driver.Prelude.Float.{Float}
use code_co_driver.Domain.{MemoryEntry}
use code_co_driver.Store.{Memory, StoreError, add_memory}
use code_co_driver.Store.Ids.{id}
use code_co_driver.MemoryService.KeepsMemories.{
  names, names-update_memory, memories-add_memory_link,
}
use code_co_driver.MemoryService.Refine.{
  RefinedMemory, refined_entry, link_memory, persist_refined_memory,
}
use code_co_driver.MemoryService.Answers.{ConflictResolution}
use code_co_driver.MemoryService.Conflicts.{
  group_failure, grouped_success, resolved_pattern, store_resolution,
}

module _ {F : Type 0} where
  names-append : (es fs : List (MemoryEntry F)) → names (es ++ fs) ≡ names es ++ names fs
  names-append [] fs = refl
  names-append (e ∷ es) fs = ap (λ ns. e.id ∷ ns) (names-append es fs)

-- The second list is the first one, with more behind it.
pub record Longer (ns ns' : List String) : Type 0 where
  pub added : List String
  pub behind : ns' ≡ ns ++ added

pub Longer-equal : {ns ns' : List String} → ns' ≡ ns → Longer ns ns'
Longer-equal e = record { added = []; behind = e ∙ sym (append-nil _) }

pub Longer-refl : {ns : List String} → Longer ns ns
Longer-refl = Longer-equal refl

pub Longer-trans : {ns ns' ns'' : List String} → Longer ns ns' → Longer ns' ns'' → Longer ns ns''
Longer-trans {ns} p q = record {
  added = p.added ++ q.added;
  behind = q.behind ∙ ap (λ xs. xs ++ q.added) p.behind ∙ append_assoc ns p.added q.added;
}

module _ {F V : Type 0} where
  -- The second store has the memories of the first one, and others behind them.
  abbrev pub Grown : Memory F V → Memory F V → Type 0
  Grown m m' = Longer (names m.memories) (names m'.memories)

  names-link_memory :
      (now : ℕ) (m : Memory F V) (e : MemoryEntry F) (type_ target label : String)
      → names (link_memory now m e type_ target label).memories ≡ names m.memories
  unfolding link_memory id
  names-link_memory now m e type_ target label = ap names (memories-add_memory_link _ _)

  names-group_failure :
      (group : String) (failure : MemoryEntry F) (o : Memory F V × Option StoreError)
      → names (group_failure group failure o).0.memories ≡ names o.0.memories
  unfolding group_failure
  names-group_failure group failure (m, some e) = refl
  names-group_failure group failure (m, none) =
      names-update_memory m (record failure { conflict_group_id = group })

  module _ (f : Float F) (u : Unicode) where
    names-add_memory :
        (m : Memory F V) (e : MemoryEntry F)
        → names (add_memory f u m e).memories ≡ names m.memories ++ e.id ∷ []
    unfolding add_memory
    names-add_memory m e = names-append m.memories _

    pub persist_refined_memory-Grown :
        (now : ℕ) (m : Memory F V) (entry : MemoryEntry F) (parsed : RefinedMemory F)
        → Grown m (persist_refined_memory f u now m entry parsed).0
    unfolding persist_refined_memory id
    persist_refined_memory-Grown now m entry parsed =
        let (memory_id, m1) = id m "memory" in
        let refined = refined_entry f now memory_id entry parsed in
        let m2 = add_memory f u m1 refined in
        record {
          added = refined.id ∷ [];
          behind =
              names-update_memory _ (record entry { refined_at = some now })
              ∙ names-link_memory now m2 refined "memory" entry.id "refined_from"
              ∙ names-add_memory m1 refined;
        }

    pub store_resolution-Grown :
        (now : ℕ) (m : Memory F V) (success failure : MemoryEntry F) (parsed : ConflictResolution)
        → Grown m (store_resolution f u now m success failure parsed).0
    unfolding store_resolution id
    store_resolution-Grown now m success failure parsed =
        let (group, m1) = id m "conflict" in
        let pattern = resolved_pattern f now group success failure parsed in
        let m2 = add_memory f u m1 pattern in
        let m3 = link_memory now m2 pattern "memory" success.id "success_source" in
        record {
          added = pattern.id ∷ [];
          behind =
              names-group_failure group failure _
              ∙ names-update_memory _ (grouped_success group success failure)
              ∙ names-link_memory now m3 pattern "memory" failure.id "failure_source"
              ∙ names-link_memory now m2 pattern "memory" success.id "success_source"
              ∙ names-add_memory m1 pattern;
        }
