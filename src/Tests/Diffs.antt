-- ===== src/Tests/Diffs.antt =====
-- A proposal with a fenced diff of one file.
use code_co_driver.Prelude.{ok, err, String, ◌≡◌, refl, [], ◌∷◌}
use code_co_driver.Prelude.Text.{has_prefix, trim_space, fields, join, contains, to_lower}
use code_co_driver.Prelude.Slices.{cut, cut_last, split, trim_prefix, trim_suffix, replace_all}
use code_co_driver.Prelude.Dict.{get_or}
use code_co_driver.Sandbox.Paths.{sensitive_file, validate_paths}
use code_co_driver.Sandbox.Targets.{Validates, validate_paths-Validates}
use code_co_driver.Retrieval.{base_name, extension}
use code_co_driver.Tests.Data.{ascii}
use code_co_driver.Sandbox.Diff.{
  no_hunks, extract_diff, normalize_diff, split_diff_files, split_diff_hunks, diff_file_state,
}
use code_co_driver.Sandbox.Preflight.{preflight_diff}
use code_co_driver.Sandbox.Accepted.{IsAccepted, preflight_diff-Accepts}

abbrev proposal : String
proposal = "Fix:\n```diff\n--- a/x\n+++ b/x\n@@ -1 +1 @@\n-a\n+b\n```"

abbrev raw : String
raw = "--- a/x\n+++ b/x\n@@ -1 +1 @@\n-a\n+b\n"

abbrev normal : String
normal = "diff --git a/x b/x\n--- a/x\n+++ b/x\n@@ -1 +1 @@\n-a\n+b\n"

preflight_diff-Accepts_example : (normal ≡ normalize_diff raw) × IsAccepted normal
unfolding preflight_diff extract_diff normalize_diff split_diff_files split_diff_hunks
    diff_file_state cut cut_last has_prefix trim_space split replace_all fields trim_prefix contains
    get_or join trim_suffix
preflight_diff-Accepts_example = preflight_diff-Accepts proposal

without_hunk_runs : preflight_diff "--- a/x\n+++ b/x\n" ≡ err (no_hunks "x")
unfolding preflight_diff extract_diff normalize_diff split_diff_files split_diff_hunks
    diff_file_state cut cut_last has_prefix trim_space split replace_all fields trim_prefix contains
    get_or join trim_suffix
without_hunk_runs = refl

validate_paths-Validates_example :
    Validates ascii (split normal "\n") 10 (validate_paths ascii normal 10)
validate_paths-Validates_example = validate_paths-Validates ascii normal 10

clean_target_runs : validate_paths ascii normal 10 ≡ ok ("x" ∷ [])
unfolding validate_paths split fields trim_prefix has_prefix contains cut_last to_lower base_name
    extension
clean_target_runs = refl

sensitive_target_runs : validate_paths ascii "+++ b/.env" 10 ≡ err (sensitive_file ".env")
unfolding validate_paths split fields trim_prefix has_prefix contains cut_last to_lower base_name
    extension
sensitive_target_runs = refl
