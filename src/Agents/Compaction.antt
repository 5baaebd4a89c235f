-- ===== src/Agents/Compaction.antt =====
-- internal/runtime/compaction.go: the texts that are shortened.
use code_co_driver.Prelude.{
  leb, nat_eq, if◌then◌else◌, length, take, ℕ, zero, suc, ◌+◌, ◌-◌, ◌/◌, String, Bool, false, ◌&&◌,
  ◌||◌, Option, none, some, List, [], ◌∷◌,
}
use Prim.Native.Char.{code}
use Prim.Native.Char.{len_utf8}
use Prim.Native.String.{◌++◌ as append}
use code_co_driver.Prelude.Text.{trim_space, is_empty, byte_length, contains, join}
use code_co_driver.Prelude.Slices.{cut, after_prefix}
use code_co_driver.Prelude.Decimal.{decimal}

pub record CompactConfig : Type 0 where
  pub threshold_tokens : ℕ
  pub keep_recent_turns : ℕ
  pub max_tool_bytes : ℕ
  pub max_context_bytes : ℕ

-- `approximateTokenCount`
unfoldable pub approximate_token_count : String → ℕ
approximate_token_count value = if is_empty value then 0 else (byte_length value + 3) / 4

-- `safePrefixBytes`: the whole characters of the first `limit` bytes.
unfoldable pub safe_prefix_bytes : String → ℕ → String
safe_prefix_bytes String.[] limit = String.[]
safe_prefix_bytes (String.◌∷◌ c s) limit =
    let rest = safe_prefix_bytes s (limit - len_utf8 c) in
    if leb (len_utf8 c) limit then String.◌∷◌ c rest else String.[]

-- `safeSuffixBytes`: the whole characters of the last `limit` bytes.
unfoldable pub safe_suffix_bytes : String → ℕ → String
safe_suffix_bytes String.[] limit = String.[]
safe_suffix_bytes (String.◌∷◌ c s) limit =
    let rest = safe_suffix_bytes s limit in
    if leb (byte_length (String.◌∷◌ c s)) limit then String.◌∷◌ c s else rest

-- `compactString`
unfoldable pub compact_string : String → ℕ → String
unfolding safe_prefix_bytes safe_suffix_bytes
compact_string value max_bytes =
    let half = if nat_eq (max_bytes / 2) 0 then 1 else max_bytes / 2 in
    if nat_eq max_bytes 0 || leb (byte_length value) max_bytes
    then value
    else join
        (safe_prefix_bytes value half
          ∷ "\n...[compacted "
          ∷ decimal (byte_length value - max_bytes)
          ∷ " bytes]...\n"
          ∷ safe_suffix_bytes value half
          ∷ [])
        ""

-- The entries behind the first `n`.
abbrev pub drop {ℓ} : {A : Type ℓ} → ℕ → List A → List A
drop zero xs = xs
drop (suc n) [] = []
drop (suc n) (x ∷ xs) = drop n xs

-- `toolNameFromEntry`
unfoldable pub name_behind : String → String → Option String
name_behind shown marker = elim (cut shown marker) [
  | none ↦ none
  | some (before, body) ↦ elim (cut body ")") [
    | none ↦ none
    | some (name, rest) ↦ some (trim_space name)
  ]
]

unfoldable pub tool_name_from_entry : String → String
unfolding name_behind
tool_name_from_entry shown = elim (name_behind shown "TOOL_RESULT(") [
  | some name ↦ name
  | none ↦ elim (name_behind shown "TOOL_RESULT_ERROR(") [ some name ↦ name | none ↦ "unknown" ]
]

-- The loops over the older and the recent entries.
unfoldable pub summarise_entries : List String → String
unfolding tool_name_from_entry approximate_token_count
summarise_entries [] = ""
summarise_entries (e ∷ es) =
    join
      ("- "
        ∷ tool_name_from_entry e
        ∷ ": "
        ∷ decimal (approximate_token_count e)
        ∷ " estimated tokens\n"
        ∷ summarise_entries es
        ∷ [])
      ""

unfoldable pub compact_entries : CompactConfig → List String → String
unfolding compact_string
compact_entries cfg [] = ""
compact_entries cfg (e ∷ es) = append (compact_string e cfg.max_tool_bytes) (compact_entries cfg es)

-- Whether the part of the expression behind the two newlines matches here.
unfoldable pub entry_at : String → Bool
entry_at s =
    let closes : Option String → Bool = λ rest. elim rest [
      | none ↦ false
      | some r ↦ elim (cut r "\n") [
        | none ↦ contains r "):"
        | some (line, below) ↦ contains line "):"
      ]
    ] in
    closes (after_prefix s "TOOL_RESULT(") || closes (after_prefix s "TOOL_RESULT_ERROR(")

-- The text in front of the first entry, and the entries; `newlines` stand in front of the text.
unfoldable pub entries_from : ℕ → String → String × List String
unfolding entry_at
entries_from newlines String.[] = (String.[], [])
entries_from newlines (String.◌∷◌ c s) =
    let (head, rest) = entries_from (if nat_eq (code c) 10 then newlines + 1 else 0) s in
    if leb 2 newlines && entry_at (String.◌∷◌ c s)
    then (String.[], String.◌∷◌ c head ∷ rest)
    else (String.◌∷◌ c head, rest)

-- `splitToolTranscript`
unfoldable pub split_tool_transcript : String → List String
unfolding entries_from
split_tool_transcript transcript = elim (entries_from 0 transcript).1 [
  | [] ↦ transcript ∷ []
  | e ∷ es ↦ e ∷ es
]

-- `compactRecentToolEntries`
unfoldable pub compact_recent_tool_entries : String → CompactConfig → String
unfolding compact_entries split_tool_transcript
compact_recent_tool_entries transcript cfg = elim (split_tool_transcript transcript) [
  | [] ↦ compact_string transcript cfg.max_tool_bytes
  | e ∷ es ↦ compact_entries cfg (e ∷ es)
]

-- `compactToolTranscript`
unfoldable pub compact_tool_transcript : String → CompactConfig → String
unfolding compact_recent_tool_entries summarise_entries
compact_tool_transcript transcript cfg =
    let entries = split_tool_transcript transcript in
    let older = length entries - cfg.keep_recent_turns in
    if is_empty transcript
    then transcript
    else if leb (length entries) cfg.keep_recent_turns
    then compact_recent_tool_entries transcript cfg
    else join
        ("\n\nCOMPACTED_TOOL_HISTORY:\n"
          ∷ summarise_entries (take older entries)
          ∷ "\nRECENT TOOL RESULTS:\n"
          ∷ compact_entries cfg (drop older entries)
          ∷ [])
        ""

-- `maybeCompactAgentPrompt`
unfoldable pub maybe_compact_agent_prompt : String → String → CompactConfig → String
unfolding compact_tool_transcript
maybe_compact_agent_prompt initial_prompt transcript cfg =
    let full = append initial_prompt transcript in
    if leb (approximate_token_count full) cfg.threshold_tokens
    then full
    else append initial_prompt (compact_tool_transcript transcript cfg)
