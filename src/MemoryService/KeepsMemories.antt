-- ===== src/MemoryService/KeepsMemories.antt =====
-- internal/memory/dedup.go: `dedupeAll` marks memories, and neither adds nor removes one.
use code_co_driver.Prelude.{
  Bool-cases, Option-cases, if◌then◌else◌, Outcome, ok, err, ℕ, String, ◌≡◌, refl, sym, ap, ◌∙◌,
  inl, inr, Bool, true, false, Option, none, some, List, [], ◌∷◌, arith, ◌==◌, eq_iff,
}
use code_co_driver.Prelude.Text.{Unicode, to_lower, is_empty}
use code_co_driver.Prelude.Dict.{get}
use code_co_driver.Prelude.Sort.{sort}
use code_co_driver.Store.Score.{text_embedding}
use mathlib.Core.Option.{some-injective}
use code_co_driver.Prelude.Float.{Float}
use code_co_driver.Domain.{MemoryEntry, MemoryLink}
use code_co_driver.Store.{
  Memory, StoreError, get_memory, update_memory, replace_entry, replaced, search_memory_limit,
  access_hits, touch, touch_id, memory_links, add_memory_link, embed_one, scored_hits, cut,
}
use code_co_driver.Store.Ids.{id}
use code_co_driver.MemoryService.Similarity.{pick_primary}
use code_co_driver.MemoryService.Dedup.{
  merge_links, merge_memory_links, mark_duplicate, after_update, passed_over, dedup_candidate,
  dedup_query, dedupe_entry, dedupe_found, dedupe_all,
}

module _ {F : Type 0} where
  -- The ids of the memories, with the kind of each, in their order.
  abbrev pub names : List (MemoryEntry F) → List String
  names [] = []
  names (e ∷ es) = e.id ∷ names es

  names-replace_entry :
      (entry : MemoryEntry F) (es es' : List (MemoryEntry F))
      → replace_entry entry es ≡ some es'
      → names es' ≡ names es
  unfolding replace_entry
  names-replace_entry entry [] es' h = cc h
  names-replace_entry entry (e ∷ es) es' h = elim (Bool-cases (e.id == entry.id)) [
    | inl same ↦
        let k : some (entry ∷ es) ≡ some es' = rw same at h in
        sym (ap names (some-injective _ _ k))
        ∙ ap (λ i. i ∷ names es) (sym ((eq_iff e.id entry.id).0 same))
    | inr other ↦ elim (Option-cases (replace_entry entry es)) [
      | inl missing ↦ cc (rw (other, missing) at h)
      | inr (rest, found) ↦
          let k : some (e ∷ rest) ≡ some es' = rw (other, found) at h in
          sym (ap names (some-injective _ _ k))
          ∙ ap (λ ns. e.id ∷ ns) (names-replace_entry entry es rest found)
    ]
  ]

  id-touch :
      (now : ℕ) (i : String) (e : MemoryEntry F) → (if e.id == i then touch now e else e).id ≡ e.id
  unfolding touch
  id-touch now i e = id-if (e.id == i)
    where
      id-if : (b : Bool) → (if b then touch now e else e).id ≡ e.id
      id-if true = refl
      id-if false = refl

  names-touch_id :
      (now : ℕ) (i : String) (es : List (MemoryEntry F)) → names (touch_id now i es) ≡ names es
  unfolding touch_id
  names-touch_id now i [] = refl
  names-touch_id now i (e ∷ es) =
      ap (λ i'. i' ∷ names (touch_id now i es)) (id-touch now i e)
      ∙ ap (λ ns. e.id ∷ ns) (names-touch_id now i es)

  names-access_hits :
      (now : ℕ) (links : String → Option (List MemoryLink)) (es hits : List (MemoryEntry F))
      → names (access_hits now links es hits).1 ≡ names es
  unfolding access_hits
  names-access_hits now links es [] = refl
  names-access_hits now links es (hit ∷ hits) =
      names-access_hits now links (touch_id now hit.id es) hits ∙ names-touch_id now hit.id es

module _ {F V : Type 0} where
  pub names-update_memory :
      (m : Memory F V) (e : MemoryEntry F) → names (update_memory m e).0.memories ≡ names m.memories
  unfolding update_memory
  names-update_memory m e = names-replaced (replace_entry e m.memories) refl
    where
      names-replaced :
          (o : Option (List (MemoryEntry F)))
          → replace_entry e m.memories ≡ o
          → names (replaced m o).0.memories ≡ names m.memories
      names-replaced none h = refl
      names-replaced (some es) h = names-replace_entry e m.memories es h

  pub memories-add_memory_link :
      (m : Memory F V) (link : MemoryLink) → (add_memory_link m link).memories ≡ m.memories
  unfolding add_memory_link
  memories-add_memory_link m link = ground arith

  pub memories-merge_links :
      (m : Memory F V) (from_id to_id : String) (links : List MemoryLink)
      → (merge_links m from_id to_id links).memories ≡ m.memories
  unfolding merge_links id
  memories-merge_links m from_id to_id [] = refl
  memories-merge_links m from_id to_id (link ∷ links) =
      memories-merge_links (add_memory_link _ _) from_id to_id links ∙ memories-add_memory_link _ _

  names-after_update :
      (first : Option StoreError) (secondary primary : String) (o : Memory F V × Option StoreError)
      → names (after_update first secondary primary o).1.memories ≡ names o.0.memories
  unfolding merge_memory_links
  names-after_update first secondary primary (m, none) =
      ap names (memories-merge_links m secondary primary (memory_links m secondary))
  names-after_update first secondary primary (m, some e) = refl

  names-mark_duplicate :
      (first : Option StoreError) (m : Memory F V) (p : MemoryEntry F × MemoryEntry F)
      → names (mark_duplicate first m p).1.memories ≡ names m.memories
  unfolding mark_duplicate
  names-mark_duplicate first m (primary, secondary) =
      elim (Bool-cases (secondary.id == primary.id)) [
        | inl e ↦ rw e refl
        | inr e ↦ rw e (
            names-after_update first secondary.id primary.id
              (update_memory m (record secondary { duplicate_of = primary.id }))
            ∙ names-update_memory m (record secondary { duplicate_of = primary.id }))
      ]

  module _ (f : Float F) (u : Unicode) where
    names-dedupe_entry :
        (candidates : List (MemoryEntry F)) (first : Option StoreError) (m : Memory F V)
        (entry : MemoryEntry F)
        → names (dedupe_entry f u first m entry candidates).1.memories ≡ names m.memories
    unfolding dedupe_entry
    names-dedupe_entry [] first m entry = refl
    names-dedupe_entry (c ∷ cs) first m entry = elim (Bool-cases (passed_over f u entry c)) [
      | inl e ↦ rw (dedupe_entry, e) (names-dedupe_entry cs first m entry)
      | inr e ↦
          let (first', m') = mark_duplicate first m (pick_primary f entry c) in
          rw (dedupe_entry, e)
            (names-dedupe_entry cs first' m' entry
              ∙ names-mark_duplicate first m (pick_primary f entry c))
    ]

    pub names-search :
        (now : ℕ) (m : Memory F V) (repo_id query : String) (limit : ℕ)
        → names (search_memory_limit f u now m repo_id query limit).1.memories ≡ names m.memories
    unfolding search_memory_limit
    names-search now m repo_id query limit =
        let q = to_lower u query in
        let local = text_embedding f u q in
        let vector = if is_empty q then local else embed_one m.embeddings q local in
        let hits = scored_hits f u now repo_id q vector m.memories in
        names-access_hits now (get m.links) m.memories
          (cut limit (sort (λ (a b : MemoryEntry F). f.lt b.score a.score) hits))

    names-dedupe_found :
        (now : ℕ) (first : Option StoreError) (m : Memory F V)
        (o : Outcome StoreError (MemoryEntry F))
        → names (dedupe_found f u now first m o).1.memories ≡ names m.memories
    unfolding dedupe_found
    names-dedupe_found now first m (err e) = refl
    names-dedupe_found now first m (ok entry) = elim (Bool-cases (dedup_candidate entry)) [
      | inl e ↦
          let (candidates, m') =
            search_memory_limit f u now m entry.repository_id (dedup_query entry) 10 in
          rw (dedupe_found, e)
            (names-dedupe_entry candidates first m' entry
              ∙ names-search now m entry.repository_id (dedup_query entry) 10)
      | inr e ↦ rw (dedupe_found, e) refl
    ]

    pub names-dedupe_all :
        (now : ℕ) (originals : List (MemoryEntry F)) (first : Option StoreError) (m : Memory F V)
        → names (dedupe_all f u now first m originals).1.memories ≡ names m.memories
    unfolding dedupe_all
    names-dedupe_all now [] first m = refl
    names-dedupe_all now (o ∷ os) first m =
        let (first', m') = dedupe_found f u now first m (get_memory m o.id) in
        names-dedupe_all now os first' m' ∙ names-dedupe_found now first m (get_memory m o.id)
