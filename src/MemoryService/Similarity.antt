-- ===== src/MemoryService/Similarity.antt =====
-- internal/memory/dedup.go: the scores by which two memories are compared. A Go map used as a set
-- is the list of its keys.
use code_co_driver.Prelude.{
  ltb, leb, nat_eq, if◌then◌else◌, length, count, ℕ, ◌+◌, ◌-◌, String, Bool, ◌&&◌, ◌||◌, not, List,
  [], ◌∷◌, ◌++◌, ◌==◌,
}
use code_co_driver.Prelude.Text.{Unicode, fields, join, to_lower, trim_space, byte_length, is_empty}
use code_co_driver.Prelude.Members.{has_text}
use code_co_driver.Prelude.Float.{Float}
use code_co_driver.Domain.{MemoryEntry}
use code_co_driver.Store.Score.{sum_products}

-- `out[value] = true`
abbrev pub add_key : List String → String → List String
add_key out value = if has_text value out then out else out ++ value ∷ []

unfoldable pub add_tokens : List String → List String → List String
add_tokens out [] = out
add_tokens out (token ∷ tokens) =
    add_tokens (if leb 3 (byte_length token) then add_key out token else out) tokens

-- `tokenSet`
unfoldable pub token_set : Unicode → String → List String
unfolding add_tokens
token_set u value = add_tokens [] (fields (to_lower u value))

unfoldable pub add_strings : Unicode → List String → List String → List String
add_strings u out [] = out
add_strings u out (value ∷ values) =
    add_strings u (add_key out (to_lower u (trim_space value))) values

-- `stringSet`
unfoldable pub string_set : Unicode → List String → List String
unfolding add_strings
string_set u values = add_strings u [] values

-- `overlap`, the keys of the left set that the right one has.
abbrev pub overlap : List String → List String → ℕ
overlap left right = count (λ key. has_text key right) left

module _ {F : Type 0} (f : Float F) where
  -- The quotient that `tokenOverlap` and `jaccard` end with.
  unfoldable pub set_similarity : List String → List String → F
  set_similarity [] right = f.lit 0 0
  set_similarity (x ∷ xs) [] = f.lit 0 0
  set_similarity (x ∷ xs) (y ∷ ys) =
      let both = overlap (x ∷ xs) (y ∷ ys) in
      let union = length (x ∷ xs) + length (y ∷ ys) - both in
      if nat_eq union 0 then f.lit 0 0 else f.div (f.of_nat both) (f.of_nat union)

  -- `cosineSimilarity`: 0 for vectors of different lengths.
  unfoldable pub cosine_similarity : List F → List F → F
  unfolding sum_products
  cosine_similarity [] right = f.lit 0 0
  cosine_similarity (x ∷ xs) [] = f.lit 0 0
  cosine_similarity (x ∷ xs) (y ∷ ys) =
      let dot = sum_products f (f.lit 0 0) (x ∷ xs) (y ∷ ys) in
      let left_norm = sum_products f (f.lit 0 0) (x ∷ xs) (x ∷ xs) in
      let right_norm = sum_products f (f.lit 0 0) (y ∷ ys) (y ∷ ys) in
      if not (nat_eq (length xs) (length ys))
      then f.lit 0 0
      else if f.eq left_norm (f.lit 0 0) || f.eq right_norm (f.lit 0 0)
      then f.lit 0 0
      else f.div dot (f.mul (f.sqrt left_norm) (f.sqrt right_norm))

  -- `memoryStrength`
  unfoldable pub memory_strength : MemoryEntry F → F
  memory_strength entry =
      let base =
        if f.eq entry.success_score (f.lit 0 0) && entry.kind == "failure_pattern"
        then f.lit 5 1
        else entry.success_score in
      let verified =
        if is_empty entry.verification_evidence then base else f.add base (f.lit 25 2) in
      if ltb 0 entry.access_count
      then f.add verified (f.mul (f.lit 1 1) (f.of_nat entry.access_count))
      else verified

  -- `a >= b`
  abbrev pub at_least : F → F → Bool
  at_least a b = f.lt b a || f.eq a b

  -- `pickPrimary`
  unfoldable pub pick_primary : MemoryEntry F → MemoryEntry F → MemoryEntry F × MemoryEntry F
  unfolding memory_strength
  pick_primary left right =
      if at_least (memory_strength left) (memory_strength right)
      then (left, right)
      else (right, left)

  module _ (u : Unicode) where
    -- `tokenOverlap`
    unfoldable pub token_overlap : String → String → F
    unfolding token_set set_similarity
    token_overlap left right = set_similarity (token_set u left) (token_set u right)

    -- `jaccard`
    unfoldable pub jaccard : List String → List String → F
    unfolding string_set set_similarity
    jaccard left right = set_similarity (string_set u left) (string_set u right)

    -- The text that `similarityScore` compares.
    abbrev pub compared : MemoryEntry F → String
    compared e = join (e.title ∷ e.summary ∷ e.content ∷ []) " "

    -- `similarityScore`
    unfoldable pub similarity_score : MemoryEntry F → MemoryEntry F → F
    unfolding cosine_similarity token_overlap jaccard
    similarity_score left right =
        let cosine = cosine_similarity left.embedding right.embedding in
        let keyword = token_overlap (compared left) (compared right) in
        let file_similarity = jaccard left.changed_files right.changed_files in
        let root_cause_similarity =
          if not (is_empty left.root_cause) && left.root_cause == right.root_cause
          then f.lit 1 0
          else f.lit 0 0 in
        f.add
          (f.add (f.add (f.mul cosine (f.lit 35 2)) (f.mul keyword (f.lit 30 2)))
            (f.mul file_similarity (f.lit 20 2)))
          (f.mul root_cause_similarity (f.lit 15 2))
