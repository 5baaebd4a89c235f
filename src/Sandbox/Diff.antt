-- ===== src/Sandbox/Diff.antt =====
-- internal/sandbox/runner.go: how a unified diff is found in the text of a proposal, brought to the
-- form that git reads, and cut into files and hunks.
use code_co_driver.Prelude.{
  ltb, leb, if◌then◌else◌, Outcome, ok, err, ℕ, String, ◌≡◌, refl, Bool, false, ◌&&◌, ◌||◌, not,
  Option, none, some, List, [], ◌∷◌, ◌++◌, map, ◌==◌,
}
use Prim.Native.String.{◌++◌ as append}
use code_co_driver.Prelude.Text.{is_empty, trim_space, has_prefix, fields, join, byte_length}
use code_co_driver.Prelude.Slices.{
  size, trim_prefix, trim_suffix, cut, cut_last, split, replace_all, to_byte,
}

-- The errors of the functions on diffs; each but the first three names the file.
pub data PatchError : Type 0 where
  no_diff : PatchError
  empty_diff : PatchError
  no_sections : PatchError
  no_target : PatchError
  no_source_header : String → PatchError
  no_hunks : String → PatchError
  repeated_hunk : String → String → PatchError

-- The text from a marker on, behind so many characters.
unfoldable pub from_marker : String → String → Option (ℕ × String)
from_marker proposal marker = elim (cut proposal marker) [
  | none ↦ none
  | some (front, rest) ↦ some (size front, append marker rest)
]

-- The one that begins first.
unfoldable pub earlier : Option (ℕ × String) → Option (ℕ × String) → Option String
earlier none none = none
earlier (some (n, s)) none = some s
earlier none (some (m, t)) = some t
earlier (some (n, s)) (some (m, t)) = some (if ltb m n then t else s)

-- `firstDiffHeader`, with the text from its index on.
unfoldable pub first_diff_header : String → Option String
unfolding from_marker earlier
first_diff_header proposal =
    earlier (from_marker proposal "--- a/") (from_marker proposal "--- /dev/null")

-- The diff of a fenced block, if the block is one.
unfoldable pub fenced_diff : String → Option String
fenced_diff proposal = elim (cut proposal "```diff") [
  | none ↦ none
  | some (front, body) ↦ elim (cut_last body "```") [
    | none ↦ none
    | some (inner, rest) ↦
        let diff = trim_space inner in
        if has_prefix diff "--- " || has_prefix diff "diff --git "
        then some (append diff "\n")
        else none
  ]
]

-- The diff that begins at a header, up to a fence.
unfoldable pub bare_diff : String → Outcome PatchError String
bare_diff text =
    let trimmed = trim_space text in
    let diff : String = elim (cut trimmed "\n```") [
      | none ↦ trimmed
      | some (front, rest) ↦ trim_space front
    ] in
    if is_empty diff then err empty_diff else ok (append diff "\n")

-- `ExtractDiff`
unfoldable pub extract_diff : String → Outcome PatchError String
unfolding fenced_diff first_diff_header bare_diff
extract_diff proposal = elim (fenced_diff proposal) [
  | some diff ↦ ok diff
  | none ↦ elim (first_diff_header proposal) [ none ↦ err no_diff | some text ↦ bare_diff text ]
]

-- The two names of a file in the header of git.
unfoldable pub both_names : String → String
both_names path = join ("a/" ∷ path ∷ " b/" ∷ path ∷ []) ""

-- The loop of `diffHeaderTarget`, over the lines behind the header.
unfoldable pub target_behind : List String → String
unfolding both_names
target_behind [] = "a/file b/file"
target_behind (line ∷ lines) =
    let behind = target_behind lines in
    if not (has_prefix line "+++ ") then behind else elim (fields (trim_prefix line "+++ ")) [
      | [] ↦ behind
      | name ∷ names ↦
          let to = trim_prefix name "b/" in if to == "/dev/null" then behind else both_names to
    ]

-- `diffHeaderTarget`, of a line and those behind it.
unfoldable pub diff_header_target : String → List String → String
unfolding target_behind both_names
diff_header_target line lines = elim (fields (trim_prefix line "--- ")) [
  | [] ↦ "a/file b/file"
  | name ∷ names ↦
      let from = trim_prefix name "a/" in
      if from == "/dev/null" then target_behind lines else both_names from
]

-- The lines that `normalizeDiff` puts in front of a line.
unfoldable pub added_headers : Bool → Bool → String → List String → List String
unfolding diff_header_target
added_headers has_git has_mode line lines =
    let git = if has_git then [] else append "diff --git " (diff_header_target line lines) ∷ [] in
    let mode =
      if has_prefix line "--- /dev/null" && not has_mode then "new file mode 100644" ∷ [] else [] in
    if not (has_prefix line "diff --git ") && has_prefix line "--- " then git ++ mode else []

-- Whether a header of git, and a mode, stands in front of the next line.
unfoldable pub git_behind : Bool → String → Bool
git_behind has_git line =
    has_prefix line "diff --git "
    || has_git && not (has_prefix line "--- ") && not (has_prefix line "+++ ")

unfoldable pub mode_behind : Bool → String → Bool
mode_behind has_mode line =
    not (has_prefix line "diff --git ")
    && (has_mode || has_prefix line "--- /dev/null" || has_prefix line "new file mode ")

-- The loop of `normalizeDiff`.
unfoldable pub normalize_lines : Bool → Bool → List String → List String
unfolding added_headers git_behind mode_behind
normalize_lines has_git has_mode [] = []
normalize_lines has_git has_mode (line ∷ lines) =
    added_headers has_git has_mode line lines
    ++ line ∷ normalize_lines (git_behind has_git line) (mode_behind has_mode line) lines

-- `normalizeDiff`
unfoldable pub normalize_diff : String → String
unfolding normalize_lines
normalize_diff diff = join (normalize_lines false false (split diff "\n")) "\n"

-- `normalizePatchLineEndings`
unfoldable pub normalize_patch_line_endings : String → String
normalize_patch_line_endings diff = replace_all (replace_all diff "\r\n" "\n") "\r" ""

-- The loop of `splitDiffFiles`, behind the first part.
unfoldable pub file_chunks : List String → List String
file_chunks [] = []
file_chunks (part ∷ parts) =
    let rest = file_chunks parts in
    if is_empty (trim_space part) then rest else append (trim_space part) "\n" ∷ rest

-- The parts, each but the first with the separator that `Split` took.
unfoldable pub diff_parts : List String → List String
diff_parts [] = []
diff_parts (part ∷ parts) = part ∷ map (append "diff --git ") parts

-- `splitDiffFiles`
unfoldable pub split_diff_files : String → List String
unfolding file_chunks diff_parts
split_diff_files diff =
    let lines = replace_all diff "\r\n" "\n" in
    elim (file_chunks (diff_parts (split lines "\ndiff --git "))) [
      | [] ↦ if is_empty (trim_space lines) then [] else lines ∷ []
      | chunk ∷ chunks ↦ chunk ∷ chunks
    ]

-- The loop of `splitDiffHunks`, with the hunk that it is in: the lines of the header, and the hunks.
unfoldable pub hunk_lines : Option String → List String → List String × List String
hunk_lines none [] = ([], [])
hunk_lines (some current) [] = ([], trim_suffix current "\n" ∷ [])
hunk_lines none (line ∷ lines) =
    let starts = has_prefix line "@@ " in
    let (headers, hunks) = hunk_lines (if starts then some (append line "\n") else none) lines in
    (if starts || is_empty (trim_space line) then headers else line ∷ headers, hunks)
hunk_lines (some current) (line ∷ lines) =
    let starts = has_prefix line "@@ " in
    let (headers, hunks) =
      hunk_lines (some (append (if starts then line else append current line) "\n")) lines in
    (headers, if starts then trim_suffix current "\n" ∷ hunks else hunks)

-- `splitDiffHunks`
unfoldable pub split_diff_hunks : String → String × List String
unfolding hunk_lines
split_diff_hunks chunk =
    let (headers, hunks) = hunk_lines none (split (replace_all chunk "\r\n" "\n") "\n") in
    (append (join headers "\n") "\n", hunks)

-- The loop of `diffFileState`.
unfoldable pub state_behind : String → Bool → List String → String × Bool
state_behind path new_file [] = (path, new_file)
state_behind path new_file (line ∷ lines) =
    let from = trim_space (trim_prefix line "--- ") in
    let to = trim_prefix (trim_space (trim_prefix line "+++ ")) "b/" in
    let is_source = has_prefix line "--- " in
    let names_target = not is_source && has_prefix line "+++ " && not (to == "/dev/null") in
    state_behind (if names_target then to else path)
      (if is_source then from == "/dev/null" else new_file) lines

-- `diffFileState`
unfoldable pub diff_file_state : String → String × Bool
unfolding state_behind
diff_file_state chunk = state_behind "" false (split chunk "\n")

-- `limitOutput`
unfoldable pub limit_output : String → ℕ → String
limit_output output max_bytes =
    if leb (byte_length output) max_bytes
    then output
    else append (to_byte max_bytes output) "\n[OUTPUT TRUNCATED]"

extract_diff_runs :
    extract_diff "Fix:\n```diff\n--- a/x\n+++ b/x\n@@ -1 +1 @@\n-a\n+b\n```"
    ≡ ok "--- a/x\n+++ b/x\n@@ -1 +1 @@\n-a\n+b\n"
unfolding extract_diff cut cut_last has_prefix trim_space
extract_diff_runs = refl

normalize_diff_runs : normalize_diff "--- a/x\n+++ b/x" ≡ "diff --git a/x b/x\n--- a/x\n+++ b/x"
unfolding normalize_diff join split fields trim_prefix
normalize_diff_runs = refl

split_diff_hunks_runs :
    split_diff_hunks "--- a/x\n+++ b/x\n@@ -1 +1 @@\n-a\n+b\n"
    ≡ ("--- a/x\n+++ b/x\n", "@@ -1 +1 @@\n-a\n+b\n" ∷ [])
unfolding split_diff_hunks join split replace_all trim_space trim_suffix
split_diff_hunks_runs = refl
