-- ===== src/Store/Score.antt =====
-- internal/store/embedding.go: the local embedding and the score by which memories are ranked. A
-- time is in nanoseconds, and a span of time fits Go's `Duration` (292 years).
use Prim.Native.Nat.{bit_xor}
use Prim.Native.Char.{code}
use code_co_driver.Prelude.{
  ltb, if◌then◌else◌, ℕ, zero, suc, ◌+◌, ◌-◌, ◌*◌, ◌/◌, ◌%◌, String, List, [], ◌∷◌, ◌++◌, map,
}
use code_co_driver.Prelude.Text.{Unicode, fields, to_lower, byte_length, join, is_empty}
use code_co_driver.Prelude.Float.{Float}
use code_co_driver.Domain.{MemoryEntry}
use code_co_driver.Store.Tokens.{memory_score}

-- The bytes of a character, and of a text.
unfoldable pub char_bytes : ℕ → List ℕ
char_bytes c =
    if ltb c 0x80
    then c ∷ []
    else if ltb c 0x800
    then (0xC0 + c / 64) ∷ (0x80 + c % 64) ∷ []
    else if ltb c 0x10000
    then (0xE0 + c / 4096) ∷ (0x80 + c / 64 % 64) ∷ (0x80 + c % 64) ∷ []
    else (0xF0 + c / 262144) ∷ (0x80 + c / 4096 % 64) ∷ (0x80 + c / 64 % 64) ∷ (0x80 + c % 64) ∷ []

unfoldable pub text_bytes : String → List ℕ
unfolding char_bytes
text_bytes String.[] = []
text_bytes (String.◌∷◌ c s) = char_bytes (code c) ++ text_bytes s

-- `fnv.New32a`
unfoldable pub fnv32a : ℕ → List ℕ → ℕ
fnv32a h [] = h
fnv32a h (b ∷ bs) = fnv32a (bit_xor h b * 16777619 % 4294967296) bs

abbrev pub embedding_dimensions : ℕ
embedding_dimensions = 32

module _ {F : Type 0} (f : Float F) where
  unfoldable pub zeros : ℕ → List F
  zeros zero = []
  zeros (suc n) = f.lit 0 0 ∷ zeros n

  unfoldable pub increment : List F → ℕ → List F
  increment [] i = []
  increment (x ∷ xs) zero = f.add x (f.lit 1 0) ∷ xs
  increment (x ∷ xs) (suc i) = x ∷ increment xs i

  unfoldable pub sum_products : F → List F → List F → F
  sum_products acc [] ys = acc
  sum_products acc (x ∷ xs) [] = acc
  sum_products acc (x ∷ xs) (y ∷ ys) = sum_products (f.add acc (f.mul x y)) xs ys

  -- `normalizeEmbedding`
  unfoldable pub normalize_embedding : List F → List F
  unfolding sum_products
  normalize_embedding vector =
      let norm = sum_products (f.lit 0 0) vector vector in
      if f.eq norm (f.lit 0 0) then vector else map (λ x. f.div x (f.sqrt norm)) vector

  unfoldable pub count_terms : List F → List String → List F
  unfolding increment fnv32a text_bytes
  count_terms vector [] = vector
  count_terms vector (term ∷ terms) =
      count_terms
        (if ltb (byte_length term) 2
          then vector
          else increment vector (fnv32a 2166136261 (text_bytes term) % embedding_dimensions))
        terms

  -- `textEmbedding`
  unfoldable pub text_embedding : Unicode → String → List F
  unfolding zeros count_terms normalize_embedding
  text_embedding u value =
      normalize_embedding (count_terms (zeros embedding_dimensions) (fields (to_lower u value)))

  -- `cosineSimilarity`: the products up to the shorter length.
  unfoldable pub cosine_similarity : List F → List F → F
  unfolding sum_products
  cosine_similarity [] right = f.lit 0 0
  cosine_similarity (x ∷ xs) [] = f.lit 0 0
  cosine_similarity (x ∷ xs) (y ∷ ys) = sum_products (f.lit 0 0) (x ∷ xs) (y ∷ ys)

  -- `memorySearchScore`
  unfoldable pub memory_search_score : Unicode → MemoryEntry F → String → List F → List F → F
  unfolding cosine_similarity
  memory_search_score u memory query memory_embedding query_embedding =
      let searchable = to_lower u (
        join
          (memory.content
            ∷ memory.title
            ∷ memory.summary
            ∷ memory.symptom
            ∷ memory.root_cause
            ∷ join memory.changed_files " "
            ∷ join memory.symbols " "
            ∷ [])
          " ") in
      f.add (f.mul (memory_score f u searchable (to_lower u query)) (f.lit 7 1))
        (f.mul (cosine_similarity memory_embedding query_embedding) (f.lit 3 1))

  abbrev pub hour : ℕ
  hour = 3_600_000_000_000

  -- `Duration.Hours`
  abbrev pub hours : ℕ → F
  hours d = f.add (f.of_nat (d / hour)) (f.div (f.of_nat (d % hour)) (f.of_nat hour))

  -- `memoryRerankScore`; an age below zero counts as zero, as `-` on ℕ gives it.
  unfoldable pub memory_rerank_score : Unicode → MemoryEntry F → String → List F → ℕ → F
  unfolding memory_search_score
  memory_rerank_score u memory query query_embedding now =
      let base =
        if is_empty query
        then f.lit 0 0
        else memory_search_score u memory query memory.embedding query_embedding in
      let age = hours (now - memory.created_at) in
      let freshness = f.div (f.lit 1 0) (f.add (f.lit 1 0) (f.div age (f.of_nat 720))) in
      let importance = f.add (f.lit 1 0) (f.mul (f.lit 5 2) (f.of_nat memory.access_count)) in
      f.mul (f.mul base (f.add (f.lit 8 1) (f.mul (f.lit 2 1) freshness))) importance
