-- ===== src/Sandbox/Paths.antt =====
-- internal/sandbox/runner.go: which files a patch may change (`validatePaths`), with the paths of
-- Unix.
use code_co_driver.Prelude.{
  ltb, nat_eq, if◌then◌else◌, length, any, Outcome, ok, err, ℕ, String, Bool, ◌||◌, not, Option,
  none, some, List, [], ◌∷◌, ◌++◌, ◌==◌,
}
use code_co_driver.Prelude.Text.{Unicode, is_empty, to_lower, has_prefix, contains, fields}
use code_co_driver.Prelude.Slices.{trim_prefix, split}
use code_co_driver.Prelude.Members.{has_text}
use code_co_driver.Retrieval.{base_name, extension}

-- The errors of `validatePaths`.
pub data PathError : Type 0 where
  unsafe_path : String → PathError
  sensitive_file : String → PathError
  no_files : PathError
  too_many_files : ℕ → PathError

-- `safePatchPath`
unfoldable pub safe_patch_path : String → Outcome PathError String
safe_patch_path path =
    let clean = trim_prefix (trim_prefix path "a/") "b/" in
    if is_empty clean
      || has_prefix clean "/"
      || clean == ".."
      || has_prefix clean "../"
      || contains clean "/../"
    then err (unsafe_path clean)
    else ok clean

-- `sensitivePath`
unfoldable pub sensitive_path : Unicode → String → Bool
sensitive_path u path =
    let base = to_lower u (base_name path) in
    base == ".env"
    || has_prefix base ".env."
    || has_text (to_lower u (extension base)) (".pem" ∷ ".key" ∷ ".p12" ∷ ".pfx" ∷ ".jks" ∷ [])
    || any (contains base) ("credential" ∷ "credentials" ∷ "secret" ∷ "secrets" ∷ [])

-- The target that a line names, if it names one.
unfoldable pub line_target : String → Option String
line_target line =
    if not (has_prefix line "+++ ") then none else elim (fields (trim_prefix line "+++ ")) [
      | [] ↦ none
      | name ∷ names ↦ if name == "/dev/null" then none else some name
    ]

-- A path that is safe, or not, among the files.
unfoldable pub add_clean :
    Unicode → List String → Outcome PathError String → Outcome PathError (List String)
unfolding sensitive_path
add_clean u files (err e) = err e
add_clean u files (ok path) =
    if sensitive_path u path
    then err (sensitive_file path)
    else ok (if has_text path files then files else files ++ path ∷ [])

unfoldable pub add_target : Unicode → List String → Option String → Outcome PathError (List String)
unfolding add_clean safe_patch_path
add_target u files none = ok files
add_target u files (some name) = add_clean u files (safe_patch_path name)

-- The loop of `validatePaths`.
unfoldable pub validate_lines :
    Unicode → Outcome PathError (List String) → List String → Outcome PathError (List String)
unfolding add_target line_target
validate_lines u (err e) lines = err e
validate_lines u (ok files) [] = ok files
validate_lines u (ok files) (line ∷ lines) =
    validate_lines u (add_target u files (line_target line)) lines

-- The end of `validatePaths`.
unfoldable pub within_limit : ℕ → Outcome PathError (List String) → Outcome PathError (List String)
within_limit max_files (err e) = err e
within_limit max_files (ok files) =
    if nat_eq (length files) 0
    then err no_files
    else if ltb max_files (length files)
    then err (too_many_files (length files))
    else ok files

-- `validatePaths`
unfoldable pub validate_paths : Unicode → String → ℕ → Outcome PathError (List String)
unfolding validate_lines within_limit
validate_paths u diff max_files =
    within_limit max_files (validate_lines u (ok []) (split diff "\n"))
