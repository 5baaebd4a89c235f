-- ===== src/Sandbox/Preflight.antt =====
-- internal/sandbox/runner.go: `PreflightDiff`, which refuses a diff that lacks a header or hunks, or
-- repeats the header of a hunk, and what an accepted diff is.
use code_co_driver.Prelude.{
  ltb, if◌then◌else◌, Outcome, ok, err, ℕ, ◌+◌, String, ◌&&◌, not, none, some, List, [], ◌∷◌,
}
use code_co_driver.Prelude.Dict.{Dict, put, get_or}
use code_co_driver.Prelude.Text.{is_empty, trim_space, contains, join}
use code_co_driver.Prelude.Slices.{cut}
use code_co_driver.Sandbox.Diff.{
  PatchError, no_sections, no_target, no_source_header, no_hunks, repeated_hunk, extract_diff,
  normalize_diff, split_diff_files, split_diff_hunks, diff_file_state,
}

-- The header of a hunk: its first line.
unfoldable pub hunk_header : String → String
hunk_header hunk = trim_space (elim (cut hunk "\n") [ none ↦ hunk | some (line, rest) ↦ line ])

-- The key under which a hunk is counted.
unfoldable pub hunk_key : String → String → String
unfolding hunk_header
hunk_key path hunk = join (path ∷ "|" ∷ hunk_header hunk ∷ []) ""

-- The loop over the hunks of a file, with what was counted before.
unfoldable pub count_hunks :
    String → Outcome PatchError (Dict ℕ) → List String → Outcome PatchError (Dict ℕ)
unfolding hunk_key
count_hunks path (err e) hunks = err e
count_hunks path (ok seen) [] = ok seen
count_hunks path (ok seen) (hunk ∷ hunks) =
    let key = hunk_key path hunk in
    let times = get_or seen key 0 + 1 in
    let rest = count_hunks path (ok (put seen key times)) hunks in
    if ltb 5 times then err (repeated_hunk path (hunk_header hunk)) else rest

-- The body of the loop over the files.
unfoldable pub check_chunk : Dict ℕ → String → Outcome PatchError (Dict ℕ)
unfolding count_hunks
check_chunk seen chunk =
    let (headers, hunks) = split_diff_hunks chunk in
    let (path, new_file) = diff_file_state chunk in
    let counted = count_hunks path (ok seen) hunks in
    if is_empty path
    then err no_target
    else if not new_file && not (contains headers "--- a/")
    then err (no_source_header path)
    else elim hunks [ [] ↦ err (no_hunks path) | hunk ∷ others ↦ counted ]

unfoldable pub check_chunks :
    Outcome PatchError (Dict ℕ) → List String → Outcome PatchError (Dict ℕ)
unfolding check_chunk
check_chunks (err e) chunks = err e
check_chunks (ok seen) [] = ok seen
check_chunks (ok seen) (chunk ∷ chunks) = check_chunks (check_chunk seen chunk) chunks

-- The part of `PreflightDiff` behind the normal form of the diff.
unfoldable pub check_diff : String → Outcome PatchError String
unfolding check_chunks
check_diff diff = elim (split_diff_files diff) [
  | [] ↦ err no_sections
  | chunk ∷ chunks ↦ elim (check_chunks (ok []) (chunk ∷ chunks)) [
    | err e ↦ err e
    | ok seen ↦ ok diff
  ]
]

-- `PreflightDiff`
unfoldable pub preflight_diff : String → Outcome PatchError String
unfolding check_diff
preflight_diff proposal = elim (extract_diff proposal) [
  | err e ↦ err e
  | ok diff ↦ check_diff (normalize_diff diff)
]
