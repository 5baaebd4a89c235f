-- ===== src/Retrieval.antt =====
-- internal/retrieval/context.go: the source files that an agent is shown, within a budget. The reader
-- of the files is a parameter; a number of the configuration that is negative is 0 here.
pub mod Budget
pub mod Coverage
use code_co_driver.Prelude.{
  ltb, leb, nat_eq, if◌then◌else◌, length, any, Outcome, ok, err, ℕ, ◌+◌, ◌-◌, ◌*◌, ◌/◌, ◌%◌,
  String, Bool, true, false, ◌&&◌, ◌||◌, not, Option, none, some, List, [], ◌∷◌, ◌++◌, ◌==◌,
}
use Prim.Native.Nat.{min}
use Prim.Native.String.{◌++◌ as append}
use code_co_driver.Prelude.Text.{
  Unicode, trim_space, to_lower, is_empty, contains, byte_length, has_prefix, join,
}
use code_co_driver.Prelude.Slices.{size, trim_suffix, cut_last, split, replace_all, to_byte}
use code_co_driver.Prelude.Decimal.{decimal}
use code_co_driver.Prelude.Members.{has_text}
use code_co_driver.Domain.{RepositoryFile}

pub record Config : Type 0 where
  pub max_files : ℕ
  pub max_file_bytes : ℕ
  pub max_total_bytes : ℕ

pub record SourceSnippet : Type 0 where
  pub path : String
  pub language : String
  pub content : String
  pub truncated : Bool

pub record SkippedFile : Type 0 where
  pub path : String
  pub reason : String

pub record ContextPack : Type 0 where
  pub snippets : List SourceSnippet
  pub skipped : List SkippedFile
  pub total_bytes : ℕ
  pub budget_bytes : ℕ

-- `New`
unfoldable pub new_builder : Config → Config
new_builder c = record {
  max_files = if nat_eq c.max_files 0 then 5 else c.max_files;
  max_file_bytes = if nat_eq c.max_file_bytes 0 then 12 * 1024 else c.max_file_bytes;
  max_total_bytes = if nat_eq c.max_total_bytes 0 then 32 * 1024 else c.max_total_bytes;
}

-- `filepath.Base`, with the slash as the separator.
unfoldable pub strip_slashes : String → String
strip_slashes String.[] = String.[]
strip_slashes (String.◌∷◌ c s) =
    let rest = strip_slashes s in
    if is_empty rest && String.◌∷◌ c String.[] == "/" then String.[] else String.◌∷◌ c rest

unfoldable pub base_name : String → String
unfolding strip_slashes
base_name path =
    let stripped = strip_slashes path in
    if is_empty path
    then "."
    else if is_empty stripped
    then "/"
    else elim (cut_last stripped "/") [ none ↦ stripped | some (dir, name) ↦ name ]

-- `filepath.Ext` of a name without a slash.
unfoldable pub extension : String → String
extension name = elim (cut_last name ".") [ none ↦ "" | some (stem, ext) ↦ append "." ext ]

-- `sensitiveReason`
unfoldable pub sensitive_reason : Unicode → String → String
unfolding base_name extension
sensitive_reason u path =
    let base = to_lower u (base_name path) in
    let ext = to_lower u (extension base) in
    if base == ".env" || has_prefix base ".env."
    then "sensitive environment file"
    else if has_text ext (".pem" ∷ ".key" ∷ ".p12" ∷ ".pfx" ∷ ".jks" ∷ [])
    then "private key or certificate file"
    else if any (contains base) ("credential" ∷ "credentials" ∷ "secret" ∷ "secrets" ∷ [])
    then "sensitive filename"
    else ""

-- The lines that a `bufio.Scanner` reads: it stops at a line that does not fit its buffer, and drops
-- a carriage return at the end of a line. The piece behind the last newline is a line if it is not
-- empty.
unfoldable pub scan_lines : List String → List String
scan_lines [] = []
scan_lines (line ∷ []) =
    if is_empty line || leb (64 * 1024) (byte_length line) then [] else trim_suffix line "\r" ∷ []
scan_lines (line ∷ next ∷ lines) =
    let rest = scan_lines (next ∷ lines) in
    if leb (64 * 1024) (byte_length line) then [] else trim_suffix line "\r" ∷ rest

-- `%4d`
unfoldable pub pad_four : String → String
pad_four digits =
    if leb 4 (size digits)
    then digits
    else if nat_eq (size digits) 3
    then append " " digits
    else if nat_eq (size digits) 2
    then append "  " digits
    else append "   " digits

unfoldable pub number_lines : ℕ → List String → String
unfolding pad_four
number_lines n [] = ""
number_lines n (line ∷ lines) =
    join (pad_four (decimal n) ∷ " | " ∷ line ∷ "\n" ∷ number_lines (n + 1) lines ∷ []) ""

-- `addLineNumbers`
unfoldable pub add_line_numbers : String → String
unfolding scan_lines number_lines
add_line_numbers content = trim_suffix (number_lines 1 (scan_lines (split content "\n"))) "\n"

-- What the reader answers: the error, or the content if the result has one.
module _ {W : Type 0} (u : Unicode)
    (reader : Option (String → W → Outcome String (Option String) × W)) where
  -- The part of `readFileThroughReader` behind the call: the content, its length in bytes, and
  -- whether it was cut.
  unfoldable pub read_content :
      ℕ → Outcome String (Option String) → Outcome String ((String × ℕ) × Bool)
  read_content limit (err e) = err (append "read file: " e)
  read_content limit (ok none) = err "read file: missing content"
  read_content limit (ok (some raw)) =
      let content = replace_all raw "\r\n" "\n" in
      if ltb limit (byte_length content)
      then ok ((to_byte limit content, limit), true)
      else ok ((content, byte_length content), false)

  unfoldable pub call_reader :
      Option (String → W → Outcome String (Option String) × W)
      → String
      → ℕ
      → W
      → Outcome String ((String × ℕ) × Bool) × W
  unfolding read_content
  call_reader none path limit w = (err "workspace file reader unavailable", w)
  call_reader (some read) path limit w = let (r, w') = read path w in (read_content limit r, w')

  -- `readFileThroughReader`
  unfoldable pub read_file_through_reader :
      String → ℕ → W → Outcome String ((String × ℕ) × Bool) × W
  unfolding call_reader
  read_file_through_reader path limit w =
      let called = call_reader reader path limit w in
      if nat_eq limit 0 then (err "context budget exhausted", w) else called

  -- What the loop adds to the pack for a file that was read, or not.
  unfoldable pub add_file :
      ContextPack → RepositoryFile → Outcome String ((String × ℕ) × Bool) → ContextPack
  unfolding add_line_numbers
  add_file pack file (err e) = record pack {
    skipped = pack.skipped ++ record { path = file.path; reason = e } ∷ [];
  }
  add_file pack file (ok ((content, bytes), truncated)) = record pack {
    snippets =
        pack.snippets
        ++ record {
          path = file.path;
          language = file.language;
          content = add_line_numbers content;
          truncated = truncated;
        }
          ∷ [];
    total_bytes = pack.total_bytes + bytes;
  }

  -- One turn of the loop.
  unfoldable pub build_file : Config → ContextPack → RepositoryFile → W → ContextPack × W
  unfolding sensitive_reason read_file_through_reader add_file
  build_file c pack file w =
      let reason = sensitive_reason u file.path in
      let (answer, w') =
        read_file_through_reader file.path
          (min c.max_file_bytes (c.max_total_bytes - pack.total_bytes)) w in
      if is_empty reason then (add_file pack file answer, w') else (
        record pack { skipped = pack.skipped ++ record { path = file.path; reason = reason } ∷ [] },
        w,
      )

  -- The loop of `Build`.
  unfoldable pub build_files : Config → ContextPack → List RepositoryFile → W → ContextPack × W
  unfolding build_file
  build_files c pack [] w = (pack, w)
  build_files c pack (file ∷ files) w =
      let (next, w') = build_file c pack file w in
      let rest = build_files c next files w' in
      if leb c.max_files (length pack.snippets) || leb c.max_total_bytes pack.total_bytes
      then (pack, w)
      else rest

  -- `Build`
  unfoldable pub build : Config → List RepositoryFile → W → ContextPack × W
  unfolding build_files
  build c files w =
      build_files c
        (record { snippets = []; skipped = []; total_bytes = 0; budget_bytes = c.max_total_bytes })
        files w

-- The loops of `Render`.
unfoldable pub render_snippets : List SourceSnippet → String
render_snippets [] = ""
render_snippets (s ∷ ss) =
    let cut = if s.truncated then "\n[TRUNCATED BY CONTEXT BUDGET]" else "" in
    join
      ("===== FILE: "
        ∷ s.path
        ∷ " ("
        ∷ s.language
        ∷ ") =====\n"
        ∷ s.content
        ∷ cut
        ∷ "\n\n"
        ∷ render_snippets ss
        ∷ [])
      ""

unfoldable pub render_skipped : List SkippedFile → String
render_skipped [] = ""
render_skipped (s ∷ ss) = join (s.path ∷ ": " ∷ s.reason ∷ "\n" ∷ render_skipped ss ∷ []) ""

-- `Render`
unfoldable pub render_pack : ContextPack → String
unfolding render_snippets render_skipped
render_pack pack =
    let skipped =
      if ltb 0 (length pack.skipped)
      then append "===== SKIPPED =====\n" (render_skipped pack.skipped)
      else "" in
    trim_space (append (render_snippets pack.snippets) skipped)
