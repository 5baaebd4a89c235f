-- ===== src/Store/Memories.antt =====
-- internal/store/memory.go: the memory entries, their search and their links. `now` is what
-- `time.Now` answers during the call. The vector of `textEmbedding` is used where the provider
-- fails or gives nothing. A limit is a number, and 0 stands for every limit that is not positive.
use code_co_driver.Prelude.{
  ltb, is_some, if◌then◌else◌, length, take, any, find_first, Outcome, or_error, ℕ, zero, suc, ◌+◌,
  String, Bool, ◌&&◌, ◌||◌, not, Option, none, some, List, [], ◌∷◌, ◌++◌, map, ◌==◌,
}
use code_co_driver.Prelude.Text.{Unicode, to_lower, is_empty}
use code_co_driver.Prelude.Float.{Float}
use code_co_driver.Prelude.Dict.{get, put, get_or}
use code_co_driver.Prelude.Sort.{sort}
use code_co_driver.Domain.{MemoryEntry, MemoryLink}
use code_co_driver.Store.State.{Memory, EmbeddingProvider, StoreError, not_found}
use code_co_driver.Store.Score.{text_embedding, memory_rerank_score}

module _ {F : Type 0} where
  -- The first vector of the provider's answer, or the local one.
  unfoldable pub embed_one : EmbeddingProvider F → String → List F → List F
  embed_one provider value local = elim (provider.embed (value ∷ [])) [
    | none ↦ local
    | some [] ↦ local
    | some (vector ∷ vectors) ↦ vector
  ]

  -- Replaces the first entry of that id; `none` where there is none.
  unfoldable pub replace_entry :
      MemoryEntry F → List (MemoryEntry F) → Option (List (MemoryEntry F))
  replace_entry entry [] = none
  replace_entry entry (e ∷ es) =
      let rest = replace_entry entry es in
      if e.id == entry.id
      then some (entry ∷ es)
      else elim rest [ none ↦ none | some es' ↦ some (e ∷ es') ]

  -- What `UnrefinedMemories` does not pass over.
  unfoldable pub is_unrefined : MemoryEntry F → Bool
  is_unrefined e =
      not (
        is_some e.refined_at || not (is_empty e.duplicate_of) || not (is_empty e.conflict_group_id))
      && (e.kind == "execution_success" || e.kind == "failure_pattern")

  -- The loop of `UnrefinedMemories`, with `room` places left in `out`.
  unfoldable pub unrefined_from : ℕ → List (MemoryEntry F) → List (MemoryEntry F)
  unfolding is_unrefined
  unrefined_from zero es = []
  unrefined_from (suc room) [] = []
  unrefined_from (suc room) (e ∷ es) =
      let chosen = e ∷ unrefined_from room es in
      let passed = unrefined_from (suc room) es in if is_unrefined e then chosen else passed

  -- `m.memories[j].AccessCount++` and the time of the access.
  unfoldable pub touch : ℕ → MemoryEntry F → MemoryEntry F
  touch now e = record e { access_count = e.access_count + 1; last_accessed_at = now }

  unfoldable pub touch_id : ℕ → String → List (MemoryEntry F) → List (MemoryEntry F)
  unfolding touch
  touch_id now id [] = []
  touch_id now id (e ∷ es) = (if e.id == id then touch now e else e) ∷ touch_id now id es

  -- What a hit copies from the entries of its id, the last of them in the end.
  unfoldable pub copy_access : MemoryEntry F → List (MemoryEntry F) → MemoryEntry F
  copy_access hit [] = hit
  copy_access hit (e ∷ es) =
      copy_access
        (if e.id == hit.id
          then record hit { access_count = e.access_count; last_accessed_at = e.last_accessed_at }
          else hit)
        es

  -- The body of the loop of `RecordMemoryAccess` over `ids`, for one entry.
  unfoldable pub touch_for : ℕ → List String → MemoryEntry F → MemoryEntry F
  unfolding touch
  touch_for now [] e = e
  touch_for now (id ∷ ids) e = touch_for now ids (if e.id == id then touch now e else e)

  abbrev pub with_links : Option (List MemoryLink) → MemoryEntry F → MemoryEntry F
  with_links none hit = hit
  with_links (some ls) hit = record hit { links = ls }

  -- The loop over the hits: the entries are marked as accessed, and a hit takes its links.
  unfoldable pub access_hits :
      ℕ
      → (String → Option (List MemoryLink))
      → List (MemoryEntry F)
      → List (MemoryEntry F)
      → List (MemoryEntry F) × List (MemoryEntry F)
  unfolding touch_id copy_access
  access_hits now links memories [] = ([], memories)
  access_hits now links memories (hit ∷ hits) =
      let memories' = touch_id now hit.id memories in
      let counted = copy_access hit memories' in
      let (rest, final) = access_hits now links memories' hits in
      (with_links (links hit.id) counted ∷ rest, final)

  module _ (f : Float F) (u : Unicode) where
    -- The loop over the entries: those of the repository, scored, if the score is above zero.
    unfoldable pub scored_hits :
        ℕ → String → String → List F → List (MemoryEntry F) → List (MemoryEntry F)
    scored_hits now repo_id q vector [] = []
    scored_hits now repo_id q vector (e ∷ es) =
        let rest = scored_hits now repo_id q vector es in
        let plain = record e { score = f.lit 0 0 } in
        let scored = record e { score = memory_rerank_score f u e q vector now } in
        if e.repository_id == repo_id
        then (if is_empty q
            then plain ∷ rest
            else if f.lt (f.lit 0 0) scored.score
            then scored ∷ rest
            else rest)
        else rest

  -- `if limit > 0 && len(out) > limit { out = out[:limit] }`
  unfoldable pub cut : ℕ → List (MemoryEntry F) → List (MemoryEntry F)
  cut limit out = if ltb 0 limit && ltb limit (length out) then take limit out else out

abbrev pub same_target : MemoryLink → MemoryLink → Bool
same_target link existing =
    existing.target_type == link.target_type && existing.target_id == link.target_id

module _ {F V : Type 0} where
  module _ (f : Float F) (u : Unicode) where
    -- `AddMemory`
    unfoldable pub add_memory : Memory F V → MemoryEntry F → Memory F V
    unfolding embed_one
    add_memory m e =
        let vector : List F = elim e.embedding [
          | [] ↦ embed_one m.embeddings e.content (text_embedding f u e.content)
          | x ∷ xs ↦ x ∷ xs
        ] in
        record m { memories = m.memories ++ record e { embedding = vector } ∷ [] }

    -- `SearchMemoryLimit`
    unfoldable pub search_memory_limit :
        ℕ → Memory F V → String → String → ℕ → List (MemoryEntry F) × Memory F V
    unfolding embed_one scored_hits cut access_hits
    search_memory_limit now m repo_id query limit =
        let q = to_lower u query in
        let local = text_embedding f u q in
        let vector = if is_empty q then local else embed_one m.embeddings q local in
        let hits = scored_hits f u now repo_id q vector m.memories in
        let ranked = cut limit (sort (λ a b. f.lt b.score a.score) hits) in
        let (out, memories) = access_hits now (get m.links) m.memories ranked in
        (out, record m { memories = memories })

    -- `SearchMemory`
    unfoldable pub search_memory :
        ℕ → Memory F V → String → String → List (MemoryEntry F) × Memory F V
    unfolding search_memory_limit
    search_memory now m repo_id query = search_memory_limit now m repo_id query 20

  -- `GetMemory`
  unfoldable pub get_memory : Memory F V → String → Outcome StoreError (MemoryEntry F)
  get_memory m id = or_error not_found (find_first (λ entry. entry.id == id) m.memories)

  -- The entries with one replaced, or `ErrNotFound`.
  abbrev pub replaced : Memory F V → Option (List (MemoryEntry F)) → Memory F V × Option StoreError
  replaced m none = (m, some not_found)
  replaced m (some es) = (record m { memories = es }, none)

  -- `UpdateMemory`
  unfoldable pub update_memory : Memory F V → MemoryEntry F → Memory F V × Option StoreError
  update_memory m entry = replaced m (replace_entry entry m.memories)

  -- `UnrefinedMemories`
  unfoldable pub unrefined_memories : Memory F V → ℕ → List (MemoryEntry F)
  unfolding unrefined_from
  unrefined_memories m limit = unrefined_from limit m.memories

  -- `RecordMemoryAccess`
  unfoldable pub record_memory_access : ℕ → Memory F V → List String → Memory F V
  unfolding touch_for
  record_memory_access now m ids = record m { memories = map (touch_for now ids) m.memories }

  -- `AddMemoryLink`
  unfoldable pub add_memory_link : Memory F V → MemoryLink → Memory F V
  add_memory_link m link =
      let existing = get_or m.links link.memory_id [] in
      if any (same_target link) existing
      then m
      else record m { links = put m.links link.memory_id (existing ++ link ∷ []) }

  -- `MemoryLinks`
  unfoldable pub memory_links : Memory F V → String → List MemoryLink
  memory_links m memory_id = get_or m.links memory_id []
