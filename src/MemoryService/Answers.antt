-- ===== src/MemoryService/Answers.antt =====
-- internal/memory/service.go and refine.go: what the model is asked, and how its answers are read.
use code_co_driver.Prelude.{
  nat_eq, if◌then◌else◌, length, any, Outcome, ok, err, first_error, ℕ, ◌+◌, String, not, Option,
  none, some, List, [], ◌∷◌,
}
use code_co_driver.Prelude.Text.{Unicode, is_empty, join}
use code_co_driver.Prelude.Slices.{cut, cut_last}
use code_co_driver.Prelude.Decimal.{decimal}
use code_co_driver.Prelude.Float.{Float}
use code_co_driver.Domain.{MemoryEntry}
use code_co_driver.Store.{Memory, StoreError}
use code_co_driver.MemoryService.Refine.{
  RefinedMemory, is_valid_refined, memory_evidence, persist_refined_memory,
}

-- `conflictResolution`
pub record ConflictResolution : Type 0 where
  pub condition : String
  pub resolution : String
  pub recommendation : String
  pub changed_files : List String
  pub symbols : List String

-- The clock, and the decoders of `encoding/json` for the answers, which may fail.
pub record Reader (F W : Type 0) : Type 0 where
  pub now : W → ℕ × W
  pub decode_memory : String → Option (RefinedMemory F)
  pub decode_memories : String → Option (List (RefinedMemory F))
  pub decode_resolution : String → Option ConflictResolution

-- The client of the model: `Complete` of a system prompt and a prompt.
abbrev pub Client : Type 0 → Type 0
Client W = String → String → W → Outcome String String × W

pub data MemoryError : Type 0 where
  model_error : String → MemoryError
  no_json : MemoryError
  bad_json : MemoryError
  wrong_count : ℕ → MemoryError
  missing_fields : MemoryError
  missing_resolution : MemoryError
  store_error : StoreError → MemoryError

-- From the first opening mark to the last closing mark behind it.
unfoldable pub enclosed : String → String → String → String
enclosed opening closing value = elim (cut value opening) [
  | none ↦ ""
  | some (before, rest) ↦ elim (cut_last rest closing) [
    | none ↦ ""
    | some (body, behind) ↦ join (opening ∷ body ∷ closing ∷ []) ""
  ]
]

-- `extractJSON`
abbrev pub extract_json : String → String
extract_json value = enclosed "{" "}" value

-- `extractJSONArray`
abbrev pub extract_json_array : String → String
extract_json_array value = enclosed "[" "]" value

module _ {F W : Type 0} (reader : Reader F W) where
  -- `parseRefinedMemory`
  unfoldable pub parse_refined_memory : String → Outcome MemoryError (RefinedMemory F)
  parse_refined_memory content =
      let raw = extract_json content in
      if is_empty raw then err no_json else elim (reader.decode_memory raw) [
        | none ↦ err bad_json
        | some parsed ↦ if is_valid_refined parsed then ok parsed else err missing_fields
      ]

  -- The tests of `parseRefinedBatch` on what was decoded.
  unfoldable pub check_batch :
      List (RefinedMemory F) → ℕ → Outcome MemoryError (List (RefinedMemory F))
  check_batch parsed n =
      if not (nat_eq (length parsed) n)
      then err (wrong_count (length parsed))
      else if any (λ p. not (is_valid_refined p)) parsed
      then err missing_fields
      else ok parsed

  -- `parseRefinedBatch`
  unfoldable pub parse_refined_batch : String → ℕ → Outcome MemoryError (List (RefinedMemory F))
  unfolding check_batch
  parse_refined_batch content n =
      let raw = extract_json_array content in
      if is_empty raw then err no_json else elim (reader.decode_memories raw) [
        | none ↦ err bad_json
        | some parsed ↦ check_batch parsed n
      ]

abbrev pub refiner_system : String
refiner_system =
    "You are a careful memory refiner for a software engineering agent. Preserve evidence; do not invent file paths or symbols."

-- The numbered memories of the prompt for a batch.
unfoldable pub numbered_evidence : {F : Type 0} → ℕ → List (MemoryEntry F) → String
numbered_evidence n [] = ""
numbered_evidence n (entry ∷ entries) =
    join (decimal n ∷ ".\n" ∷ memory_evidence entry ∷ "\n" ∷ numbered_evidence (n + 1) entries ∷ [])
      ""

module _ {F V W : Type 0} (f : Float F) (u : Unicode) (reader : Reader F W)
    (client : Client W) where
  -- `persistRefinedMemory`, with the time that it reads.
  unfoldable pub persist_at :
      MemoryEntry F
      → Outcome MemoryError (RefinedMemory F)
      → Memory F V × W
      → Option MemoryError × (Memory F V × W)
  persist_at entry (err e) s = (some e, s)
  persist_at entry (ok parsed) (m, w) =
      let (now, w') = reader.now w in
      let (m', e) = persist_refined_memory f u now m entry parsed in
      (elim e [ none ↦ none | some e' ↦ some (store_error e') ], (m', w'))

  -- `refineOne`, with `callRefiner`.
  unfoldable pub refine_one : Memory F V × W → MemoryEntry F → Option MemoryError × (Memory F V × W)
  unfolding persist_at parse_refined_memory
  refine_one (m, w) entry =
      let prompt =
        join
          ("Convert this engineering execution memory into concise, reusable knowledge. Return strict JSON only with fields: title, summary, symptom, root_cause, changed_files, symbols, condition, success_score.\n\n"
            ∷ memory_evidence entry
            ∷ [])
          "" in
      let (answer, w') = client refiner_system prompt w in
      let parsed : Outcome MemoryError (RefinedMemory F) = elim answer [
        | err e ↦ err (model_error e)
        | ok content ↦ parse_refined_memory reader content
      ] in
      persist_at entry parsed (m, w')

  -- The loop over the memories where the answer to the batch cannot be used.
  unfoldable pub refine_each :
      Option MemoryError
      → Memory F V × W
      → List (MemoryEntry F)
      → Option MemoryError × (Memory F V × W)
  unfolding refine_one
  refine_each first s [] = (first, s)
  refine_each first s (entry ∷ entries) =
      let (e, s') = refine_one s entry in refine_each (first_error first e) s' entries

  -- The loop over the memories with the parts of the answer.
  unfoldable pub persist_each :
      Option MemoryError
      → Memory F V × W
      → List (MemoryEntry F)
      → List (RefinedMemory F)
      → Option MemoryError × (Memory F V × W)
  unfolding persist_at
  persist_each first s (entry ∷ entries) (parsed ∷ rest) =
      let (e, s') = persist_at entry (ok parsed) s in
      persist_each (first_error first e) s' entries rest
  persist_each first s [] rest = (first, s)
  persist_each first s (entry ∷ entries) [] = (first, s)

  -- What `refineBatch` does with the answer to a batch.
  unfoldable pub batch_answered :
      List (MemoryEntry F)
      → Outcome String String
      → Memory F V × W
      → Option MemoryError × (Memory F V × W)
  unfolding refine_each persist_each parse_refined_batch
  batch_answered entries (err e) s = (some (model_error e), s)
  batch_answered entries (ok content) s =
      elim (parse_refined_batch reader content (length entries)) [
        | err e ↦ refine_each none s entries
        | ok parsed ↦ persist_each none s entries parsed
      ]

  -- `refineBatch`
  unfoldable pub refine_batch :
      Memory F V × W → List (MemoryEntry F) → Option MemoryError × (Memory F V × W)
  unfolding refine_one batch_answered numbered_evidence
  refine_batch s [] = (none, s)
  refine_batch s (entry ∷ []) = refine_one s entry
  refine_batch (m, w) (entry ∷ next ∷ rest) =
      let entries = entry ∷ next ∷ rest in
      let prompt =
        join
          ("Refine each numbered engineering memory into concise, reusable knowledge. Return a JSON array with one object per input. Each object must have fields: title, summary, symptom, root_cause, changed_files, symbols, condition, success_score.\n\n"
            ∷ numbered_evidence 1 entries
            ∷ [])
          "" in
      let (answer, w') = client refiner_system prompt w in batch_answered entries answer (m, w')
