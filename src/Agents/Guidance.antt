-- ===== src/Agents/Guidance.antt =====
-- internal/runtime/agents.go and service.go: the texts that an agent is shown of memories and of
-- earlier attempts.
use code_co_driver.Prelude.{
  ltb, leb, if◌then◌else◌, length, ℕ, zero, suc, ◌*◌, String, List, [], ◌∷◌,
}
use Prim.Native.String.{◌++◌ as append}
use code_co_driver.Prelude.Text.{trim_space, is_empty, byte_length, join}
use code_co_driver.Prelude.Slices.{size, to_byte}
use code_co_driver.Domain.{MemoryEntry}
use code_co_driver.Agents.Values.{Codec}

-- The first `n` characters.
unfoldable pub first_runes : ℕ → String → String
first_runes zero s = String.[]
first_runes (suc n) String.[] = String.[]
first_runes (suc n) (String.◌∷◌ c s) = String.◌∷◌ c (first_runes n s)

-- `truncateMemoryText`
unfoldable pub truncate_memory_text : String → ℕ → String
unfolding first_runes
truncate_memory_text value max =
    if leb (size value) max then value else append (first_runes max value) "..."

-- `truncateFeedback`
unfoldable pub truncate_feedback : String → String
truncate_feedback value =
    if leb (byte_length value) (8 * 1024)
    then value
    else append (to_byte (8 * 1024) value) "\n[FEEDBACK TRUNCATED]"

-- `retrievedSourceForPrompt`
unfoldable pub retrieved_source_for_prompt : String → String
retrieved_source_for_prompt source =
    if leb (byte_length source) (48 * 1024)
    then source
    else append (to_byte (48 * 1024) source) "\n[SOURCE TRUNCATED]"

-- A part of the detail that is left out where it is empty.
abbrev pub labelled : String → String → String
labelled label value = if is_empty value then "" else append label value

module _ {F : Type 0} (codec : Codec F) where
  -- The line of one memory, up to what is cut.
  unfoldable pub memory_detail : MemoryEntry F → String
  memory_detail m =
      let summary = trim_space m.summary in
      let files =
        if ltb 0 (length m.changed_files)
        then append "; files=" (join m.changed_files ",")
        else "" in
      let symbols =
        if ltb 0 (length m.symbols) then append "; symbols=" (join m.symbols ",") else "" in
      join
        ((if is_empty summary then trim_space m.content else summary)
          ∷ labelled "; symptom=" m.symptom
          ∷ labelled "; root_cause=" m.root_cause
          ∷ files
          ∷ symbols
          ∷ [])
        ""

  -- `memoryGuidance`
  unfoldable pub memory_guidance : List (MemoryEntry F) → String
  unfolding memory_detail truncate_memory_text
  memory_guidance [] = ""
  memory_guidance (m ∷ ms) =
      join
        ("- "
          ∷ (if is_empty m.kind then "memory" else m.kind)
          ∷ " [score "
          ∷ codec.two_digits m.score
          ∷ "]: "
          ∷ truncate_memory_text (memory_detail m) 800
          ∷ "\n"
          ∷ memory_guidance ms
          ∷ [])
        ""
