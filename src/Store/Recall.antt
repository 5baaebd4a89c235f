-- ===== src/Store/Recall.antt =====
-- internal/store/memory.go: what the methods on memory entries and their links promise.
use code_co_driver.Prelude.{
  nat_eq, Bool-cases, Option-cases, if◌then◌else◌, take, select, find_first, count, ok, err,
  or_error, ℕ, zero, suc, ◌+◌, String, ◌≡◌, refl, sym, ap, ◌∙◌, ◌⊎◌, inl, inr, Bool, true, false,
  Option, none, some, List, [], ◌∷◌, map, arith, ◌==◌, eq_iff,
}
use mathlib.Core.Option.{some-injective}
use mathlib.Core.Path.{ap₂, subst}
use code_co_driver.Domain.{MemoryEntry}
use code_co_driver.Store.State.{Memory, StoreError, not_found}
use code_co_driver.Store.Memories.{
  replaced, replace_entry, is_unrefined, unrefined_from, touch, touch_for, get_memory,
  update_memory, unrefined_memories, record_memory_access,
}

module _ {F : Type 0} where
  unrefined_from-eq-take :
      (room : ℕ) (es : List (MemoryEntry F))
      → unrefined_from room es ≡ take room (select is_unrefined es)
  unfolding unrefined_from
  unrefined_from-eq-take zero [] = refl
  unrefined_from-eq-take zero (e ∷ es) = refl
  unrefined_from-eq-take (suc room) [] = refl
  unrefined_from-eq-take (suc room) (e ∷ es) = elim (Bool-cases (is_unrefined e)) [
    | inl h ↦ rw h (ap (λ l. e ∷ l) (unrefined_from-eq-take room es))
    | inr h ↦ rw h (unrefined_from-eq-take (suc room) es)
  ]

  -- The entry after it was accessed a number of times.
  abbrev pub accessed : ℕ → ℕ → MemoryEntry F → MemoryEntry F
  accessed now times e = record e {
    access_count = e.access_count + times;
    last_accessed_at = if nat_eq times 0 then e.last_accessed_at else now;
  }

  touch_for-eq-accessed :
      (now : ℕ) (ids : List String) (e : MemoryEntry F)
      → touch_for now ids e ≡ accessed now (count (λ id. e.id == id) ids) e
  unfolding touch_for touch
  touch_for-eq-accessed now [] e =
      ap (λ (n : ℕ). record e { access_count = n; last_accessed_at = e.last_accessed_at })
        (omega arith)
  touch_for-eq-accessed now (id ∷ ids) e = elim (Bool-cases (e.id == id)) [
    | inl h ↦
        rw (h, touch_for)
          (touch_for-eq-accessed now ids (touch now e)
            ∙ ap₂ (λ (n at : ℕ). record e { access_count = n; last_accessed_at = at }) (omega arith)
                (ground arith))
    | inr h ↦
        rw (h, touch_for)
          (touch_for-eq-accessed now ids e ∙ ap (λ (n : ℕ). accessed now n e) (omega arith))
  ]

  map-touch_for :
      (now : ℕ) (ids : List String) (es : List (MemoryEntry F))
      → map (touch_for now ids) es ≡ map (λ e. accessed now (count (λ id. e.id == id) ids) e) es
  map-touch_for now ids [] = refl
  map-touch_for now ids (e ∷ es) =
      ap₂ (λ x xs. x ∷ xs) (touch_for-eq-accessed now ids e) (map-touch_for now ids es)

  replace_entry-found :
      (entry : MemoryEntry F) (es es' : List (MemoryEntry F)) (id : String)
      → replace_entry entry es ≡ some es'
      → find_first (λ e. e.id == id) es'
        ≡ (if entry.id == id then some entry else find_first (λ e. e.id == id) es)
  unfolding replace_entry
  replace_entry-found entry [] es' id h = cc
  replace_entry-found entry (e ∷ es) es' id h = elim (Bool-cases (e.id == entry.id)) [
    | inl same ↦
        let new : entry ∷ es ≡ es' = some-injective _ _ (rw same at h) in
        rw (← new) (ground (arith, eq_iff e.id entry.id, eq_iff e.id id, eq_iff entry.id id))
    | inr other ↦ elim (Option-cases (replace_entry entry es)) [
      | inl n ↦ cc (rw (other, n) at h)
      | inr (rest, found) ↦
          let new : e ∷ rest ≡ es' = some-injective _ _ (rw (other, found) at h) in
          rw (← new) (
            ground (
              arith,
              eq_iff e.id entry.id,
              eq_iff e.id id,
              eq_iff entry.id id,
              replace_entry-found entry es rest id found,
            ))
    ]
  ]

  replace_entry-missing :
      (entry : MemoryEntry F) (es : List (MemoryEntry F))
      → replace_entry entry es ≡ none
      → find_first (λ e. e.id == entry.id) es ≡ none
  unfolding replace_entry
  replace_entry-missing entry [] h = refl
  replace_entry-missing entry (e ∷ es) h = elim (Bool-cases (e.id == entry.id)) [
    | inl same ↦ cc (rw same at h)
    | inr other ↦ elim (Option-cases (replace_entry entry es)) [
      | inl n ↦ rw other (replace_entry-missing entry es n)
      | inr (rest, found) ↦ cc (rw (other, found) at h)
    ]
  ]

  replace_entry-was_there :
      (entry : MemoryEntry F) (es es' : List (MemoryEntry F))
      → replace_entry entry es ≡ some es'
      → (old : MemoryEntry F) × (find_first (λ e. e.id == entry.id) es ≡ some old)
  unfolding replace_entry
  replace_entry-was_there entry [] es' h = cc h
  replace_entry-was_there entry (e ∷ es) es' h = elim (Bool-cases (e.id == entry.id)) [
    | inl same ↦ (e, rw same refl)
    | inr other ↦ elim (Option-cases (replace_entry entry es)) [
      | inl n ↦ cc (rw (other, n) at h)
      | inr (rest, found) ↦ rw other (replace_entry-was_there entry es rest found)
    ]
  ]

module _ {F V : Type 0} (m : Memory F V) where
  -- `UnrefinedMemories` lists the first entries, `limit` of them at most, that are neither refined
  -- nor marked as duplicate or in conflict and are of a kind that is refined.
  pub unrefined_memories-eq-take :
      (limit : ℕ) → unrefined_memories m limit ≡ take limit (select is_unrefined m.memories)
  unfolding unrefined_memories
  unrefined_memories-eq-take limit = unrefined_from-eq-take limit m.memories

  -- `RecordMemoryAccess` adds to each entry's access count the number of times that its id is
  -- listed, and sets the time of its last access if that is not zero; nothing else of any entry
  -- changes, nor does their order.
  pub record_memory_access_counts :
      (now : ℕ) (ids : List String)
      → (record_memory_access now m ids).memories
        ≡ map (λ e. accessed now (count (λ id. e.id == id) ids) e) m.memories
  unfolding record_memory_access
  record_memory_access_counts now ids = map-touch_for now ids m.memories

  or_error-if :
      (entry : MemoryEntry F) (b : Bool) (o : Option (MemoryEntry F))
      → or_error {E = StoreError} not_found (if b then some entry else o)
        ≡ (if b then ok entry else or_error not_found o)
  or_error-if entry true o = refl
  or_error-if entry false o = refl

  -- What an update of an entry comes to.
  abbrev pub UpdatesEntry : MemoryEntry F → Memory F V × Option StoreError → Type 0
  UpdatesEntry entry (m', e) =
      ((e ≡ none)
        × ((old : MemoryEntry F) × (get_memory m entry.id ≡ ok old))
        × ((id : String)
            → get_memory m' id ≡ (if entry.id == id then ok entry else get_memory m id)))
      ⊎ ((e ≡ some not_found) × (m' ≡ m) × (get_memory m entry.id ≡ err not_found))

  -- If the id of the entry is in the store, then after `UpdateMemory` it finds the entry and every
  -- other id finds what it found before; where the id is missing it answers `ErrNotFound` and changes nothing.
  pub update_memory-UpdatesEntry :
      (entry : MemoryEntry F) → UpdatesEntry entry (update_memory m entry)
  unfolding update_memory get_memory
  update_memory-UpdatesEntry entry = elim (Option-cases (replace_entry entry m.memories)) [
    | inl missing ↦
        subst (λ o. UpdatesEntry entry (replaced m o)) (sym missing)
          (inr
            (refl, refl, ap (or_error not_found) (replace_entry-missing entry m.memories missing)))
    | inr (es, found) ↦
        subst (λ o. UpdatesEntry entry (replaced m o)) (sym found)
          (inl (
            refl,
            let (old, there) = replace_entry-was_there entry m.memories es found in
                (old, ap (or_error not_found) there),
            λ id.
                ap (or_error not_found) (replace_entry-found entry m.memories es id found)
                ∙ or_error-if entry (entry.id == id) _,
          ))
  ]
