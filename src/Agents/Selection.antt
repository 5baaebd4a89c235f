-- ===== src/Agents/Selection.antt =====
-- internal/runtime/agents.go: how the codebase agent chooses the files that it retrieves.
use code_co_driver.Prelude.{
  leb, if◌then◌else◌, length, any, find_first, ℕ, String, Bool, ◌&&◌, ◌||◌, not, none, some, List,
  [], ◌∷◌, ◌++◌, ◌==◌,
}
use Prim.Native.Char.{code}
use Prim.Native.String.{◌++◌ as append}
use code_co_driver.Prelude.Text.{Unicode, to_lower, contains, fields_func, has_prefix}
use code_co_driver.Prelude.Slices.{replace_all, has_suffix, trim_suffix}
use code_co_driver.Prelude.Members.{has_text}
use code_co_driver.Domain.{RepositoryFile, Symbol}
use code_co_driver.Store.Tokens.{add_words}

-- `tokenize`
unfoldable pub tokenize : Unicode → String → List String
unfolding add_words
tokenize u s = add_words [] (
    fields_func
      (λ r.
        not ((leb b'a' (code r) && leb (code r) b'z') || (leb b'0' (code r) && leb (code r) b'9')))
      (to_lower u s))

-- `primaryTaskToken`
unfoldable pub primary_task_token : Unicode → List RepositoryFile → String → String
unfolding tokenize
primary_task_token u files title =
    elim (find_first
      (λ term. any (λ (file : RepositoryFile). contains (to_lower u file.path) term) files)
      (tokenize u title)) [ none ↦ "" | some term ↦ term ]

-- `wantsTestCoverage`
unfoldable pub wants_test_coverage : List String → Bool
wants_test_coverage terms =
    any (λ term. has_prefix term "test" || term == "coverage" || term == "spec" || term == "case")
      terms

-- The closure `add` of `selectContextFiles`: the keys of `seen` are the entries of the list.
unfoldable pub add_selected : ℕ → List String → String → List String
add_selected max selected path =
    if leb max (length selected) || has_text path selected then selected else selected ++ path ∷ []

-- The partner of a source or test file.
unfoldable pub add_partner : ℕ → List String → String → List String
unfolding add_selected
add_partner max selected path =
    if has_suffix path "_test.go"
    then add_selected max selected (append (trim_suffix path "_test.go") ".go")
    else if has_suffix path ".go"
    then add_selected max selected (append (trim_suffix path ".go") "_test.go")
    else selected

-- The loop of `selectContextFiles`, over the paths of the ranked files.
unfoldable pub select_files : Bool → ℕ → List String → List String → List String
unfolding add_selected add_partner
select_files wants_tests max selected [] = selected
select_files wants_tests max selected (path ∷ paths) =
    let added = add_selected max selected path in
    let rest =
      select_files wants_tests max (if wants_tests then add_partner max added path else added)
        paths in
    if leb 5 (length selected) then selected else rest

-- `selectContextFiles`
unfoldable pub select_context_files : List String → Bool → ℕ → List String
unfolding select_files
select_context_files ranked wants_tests max = select_files wants_tests max [] ranked

-- `isTestHelperPath`
unfoldable pub is_test_helper_path : Unicode → String → Bool
is_test_helper_path u path =
    let normalized = to_lower u (replace_all path "\\" "/") in
    contains normalized "/test/" || has_suffix normalized "/test"

-- `fileHasTermSymbol`, with the keys of the map as a list.
unfoldable pub file_has_term_symbol : Unicode → String → List Symbol → List String → Bool
file_has_term_symbol u path symbols terms =
    any
      (λ (s : Symbol).
        s.file_path == path
        && any
            (λ term.
              to_lower u s.name == term
              || contains (to_lower u s.name) term
              || contains term (to_lower u s.name))
            terms)
      symbols

-- `fileHasMemorySymbol`, with the keys of the map as a list.
unfoldable pub file_has_memory_symbol : String → List Symbol → List String → Bool
file_has_memory_symbol path symbols wanted =
    any (λ (s : Symbol). s.file_path == path && has_text s.name wanted) symbols

-- The loop of `symbolsForFiles`.
unfoldable pub symbols_from : List String → List String → List Symbol → List String
symbols_from files out [] = out
symbols_from files out (s ∷ ss) =
    let longer = out ++ s.name ∷ [] in
    let passed = symbols_from files out ss in
    let rest = symbols_from files longer ss in
    if not (has_text s.file_path files) || has_text s.name out
    then passed
    else if leb 50 (length longer)
    then longer
    else rest

-- `symbolsForFiles`
unfoldable pub symbols_for_files : List Symbol → List String → List String
unfolding symbols_from
symbols_for_files symbols files = symbols_from files [] symbols
