-- ===== src/Sandbox/Targets.antt =====
-- internal/sandbox/runner.go: what a patch is whose files `validatePaths` accepts or refuses.
use code_co_driver.Prelude.{
  ltb, nat_eq, ltb→lt, Bool-cases, if◌then◌else◌, length, any, All, IsDistinct, Outcome, ok, err, ℕ,
  ◌≤◌, ◌<◌, String, ◌≡◌, refl, ◌∙◌, inl, inr, Bool, true, false, ◌||◌, not, Option, none, some,
  List, [], ◌∷◌, ◌++◌, arith, ◌==◌, eq_iff, eq_refl,
}
use mathlib.Core.Path.{subst}
use code_co_driver.Prelude.Text.{Unicode}
use code_co_driver.Prelude.Slices.{split}
use code_co_driver.Prelude.Members.{has_text, has_text-append, not-has_text, IsDistinct-append_new}
use code_co_driver.Sandbox.Paths.{
  PathError, unsafe_path, sensitive_file, no_files, too_many_files, safe_patch_path, sensitive_path,
  line_target, add_clean, add_target, validate_lines, within_limit, validate_paths,
}

-- A path that is safe and not sensitive.
abbrev pub is_clean : Unicode → Outcome PathError String → Bool
is_clean u (err e) = false
is_clean u (ok path) = not (sensitive_path u path)

-- A line that names no target, or such a path.
abbrev pub is_allowed : Unicode → Option String → Bool
is_allowed u none = true
is_allowed u (some name) = is_clean u (safe_patch_path name)

abbrev found : Outcome PathError String → List String
found (err e) = []
found (ok path) = path ∷ []

abbrev found_in : Option String → List String
found_in none = []
found_in (some name) = found (safe_patch_path name)

-- The safe paths that the lines name, as often as they do.
abbrev pub targets : List String → List String
targets [] = []
targets (line ∷ lines) = found_in (line_target line) ++ targets lines

abbrev pub AllAllowed : Unicode → List String → Type 0
AllAllowed u lines = All (λ line. is_allowed u (line_target line) ≡ true) lines

abbrev pub SomeForbidden : Unicode → List String → Type 0
SomeForbidden u lines = any (λ line. not (is_allowed u (line_target line))) lines ≡ true

-- The files are the targets of the lines, each once.
abbrev pub Lists : List String → List String → Type 0
Lists files lines =
    IsDistinct files × ((path : String) → has_text path files ≡ has_text path (targets lines))

-- Which patches are accepted, and which are refused with which error.
abbrev pub Validates : Unicode → List String → ℕ → Outcome PathError (List String) → Type 0
Validates u lines limit (err (unsafe_path path)) = SomeForbidden u lines
Validates u lines limit (err (sensitive_file path)) = SomeForbidden u lines
Validates u lines limit (err no_files) = AllAllowed u lines × (targets lines ≡ [])
Validates u lines limit (err (too_many_files n)) =
    AllAllowed u lines
    × (limit < n)
    × (files : List String) × Lists files lines
    × (length files ≡ n)
Validates u lines limit (ok files) =
    AllAllowed u lines × Lists files lines × (0 < length files) × (length files ≤ limit)

-- What a target adds to the files.
abbrev Adds : List String → Bool → List String → Outcome PathError (List String) → Type 0
Adds files allowed new (err (unsafe_path path)) = allowed ≡ false
Adds files allowed new (err (sensitive_file path)) = allowed ≡ false
Adds files allowed new (err no_files) = ⊥
Adds files allowed new (err (too_many_files n)) = ⊥
Adds files allowed new (ok files') =
    IsDistinct files'
    × (allowed ≡ true)
    × ((path : String) → has_text path files' ≡ (has_text path files || has_text path new))

-- What the lines add to the files.
abbrev Covers : Unicode → List String → List String → Outcome PathError (List String) → Type 0
Covers u files lines (err (unsafe_path path)) = SomeForbidden u lines
Covers u files lines (err (sensitive_file path)) = SomeForbidden u lines
Covers u files lines (err no_files) = ⊥
Covers u files lines (err (too_many_files n)) = ⊥
Covers u files lines (ok files') =
    IsDistinct files'
    × AllAllowed u lines
    × ((path : String)
        → has_text path files' ≡ (has_text path files || has_text path (targets lines)))

abbrev IsUnsafe : Outcome PathError String → Type 0
IsUnsafe (err (unsafe_path path)) = Unit
IsUnsafe (err (sensitive_file path)) = ⊥
IsUnsafe (err no_files) = ⊥
IsUnsafe (err (too_many_files n)) = ⊥
IsUnsafe (ok path) = Unit

IsUnsafe-if : (b : Bool) (path : String) → IsUnsafe (if b then err (unsafe_path path) else ok path)
IsUnsafe-if true path = tt
IsUnsafe-if false path = tt

safe_patch_path-IsUnsafe : (name : String) → IsUnsafe (safe_patch_path name)
unfolding safe_patch_path
safe_patch_path-IsUnsafe name = IsUnsafe-if _ _

has_text-again :
    (path new : String) (files : List String)
    → has_text new files ≡ true
    → has_text path files ≡ (has_text path files || has_text path (new ∷ []))
has_text-again path new files h = elim (Bool-cases (new == path)) [
  | inl e ↦
      let known = subst (λ p. has_text p files ≡ true) ((eq_iff new path).0 e) h in rw known refl
  | inr e ↦ rw e (ground arith)
]

has_text-new :
    (path new : String) (files : List String)
    → has_text path (files ++ new ∷ []) ≡ (has_text path files || has_text path (new ∷ []))
has_text-new path new files = has_text-append path new files ∙ ground arith

has_text-concat :
    (path : String) (xs ys : List String)
    → has_text path (xs ++ ys) ≡ (has_text path xs || has_text path ys)
has_text-concat path [] ys = refl
has_text-concat path (x ∷ xs) ys = ground (arith, has_text-concat path xs ys)

nothing-has_text : (ts : List String) → ((path : String) → false ≡ has_text path ts) → ts ≡ []
nothing-has_text [] h = refl
nothing-has_text (t ∷ ts) h =
    let yes : has_text t (t ∷ ts) ≡ true = rw (eq_refl t) refl in cc (h t ∙ yes)

module _ (u : Unicode) where
  add_clean-Adds :
      (files : List String) (o : Outcome PathError String)
      → IsDistinct files
      → IsUnsafe o
      → Adds files (is_clean u o) (found o) (add_clean u files o)
  unfolding add_clean
  add_clean-Adds files (err (unsafe_path path)) d k = refl
  add_clean-Adds files (err (sensitive_file path)) d k = absurd k
  add_clean-Adds files (err no_files) d k = absurd k
  add_clean-Adds files (err (too_many_files n)) d k = absurd k
  add_clean-Adds files (ok path) d k = elim (Bool-cases (sensitive_path u path)) [
    | inl s ↦ rw s refl
    | inr s ↦ rw s (elim (Bool-cases (has_text path files)) [
      | inl h ↦ rw h (d, refl, λ p. has_text-again p path files h)
      | inr h ↦ rw h (
        IsDistinct-append_new path files d (not-has_text path files h),
        refl,
        λ p. has_text-new p path files,
      )
    ])
  ]

  add_target-Adds :
      (files : List String) (target : Option String)
      → IsDistinct files
      → Adds files (is_allowed u target) (found_in target) (add_target u files target)
  unfolding add_target
  add_target-Adds files none d = (d, refl, λ p. ground arith)
  add_target-Adds files (some name) d =
      add_clean-Adds files (safe_patch_path name) d (safe_patch_path-IsUnsafe name)

  Covers-cons :
      (files files' : List String) (line : String) (lines : List String)
      (o : Outcome PathError (List String))
      → is_allowed u (line_target line) ≡ true
      → ((path : String)
          → has_text path files'
            ≡ (has_text path files || has_text path (found_in (line_target line))))
      → Covers u files' lines o
      → Covers u files (line ∷ lines) o
  Covers-cons files files' line lines (err (unsafe_path path)) a m c = ground (arith, c)
  Covers-cons files files' line lines (err (sensitive_file path)) a m c = ground (arith, c)
  Covers-cons files files' line lines (err no_files) a m c = c
  Covers-cons files files' line lines (err (too_many_files n)) a m c = c
  Covers-cons files files' line lines (ok final) a m c = (
    c.0,
    (a, c.1),
    λ path.
        let more = has_text-concat path (found_in (line_target line)) (targets lines) in
        ground (arith, more, m path, c.2 path),
  )

  Adds-Covers :
      (files : List String) (line : String) (lines : List String)
      (o : Outcome PathError (List String))
      → Adds files (is_allowed u (line_target line)) (found_in (line_target line)) o
      → ((files' : List String)
          → IsDistinct files'
          → Covers u files' lines (validate_lines u (ok files') lines))
      → Covers u files (line ∷ lines) (validate_lines u o lines)
  unfolding validate_lines
  Adds-Covers files line lines (err (unsafe_path path)) a rest = rw a refl
  Adds-Covers files line lines (err (sensitive_file path)) a rest = rw a refl
  Adds-Covers files line lines (err no_files) a rest = a
  Adds-Covers files line lines (err (too_many_files n)) a rest = a
  Adds-Covers files line lines (ok files') a rest =
      Covers-cons files files' line lines _ a.1 a.2 (rest files' a.0)

  validate_lines-Covers :
      (lines files : List String)
      → IsDistinct files
      → Covers u files lines (validate_lines u (ok files) lines)
  unfolding validate_lines
  validate_lines-Covers [] files d = (d, tt, λ path. ground arith)
  validate_lines-Covers (line ∷ lines) files d =
      Adds-Covers files line lines (add_target u files (line_target line))
        (add_target-Adds files (line_target line) d)
        (λ files' d'. validate_lines-Covers lines files' d')

  within_limit-Validates :
      (limit : ℕ) (lines : List String) (o : Outcome PathError (List String))
      → Covers u [] lines o
      → Validates u lines limit (within_limit limit o)
  unfolding within_limit
  within_limit-Validates limit lines (err (unsafe_path path)) c = c
  within_limit-Validates limit lines (err (sensitive_file path)) c = c
  within_limit-Validates limit lines (err no_files) c = absurd c
  within_limit-Validates limit lines (err (too_many_files n)) c = absurd c
  within_limit-Validates limit lines (ok []) c = (c.1, nothing-has_text (targets lines) c.2)
  within_limit-Validates limit lines (ok (file ∷ files)) c =
      let some_file : nat_eq (length (file ∷ files)) 0 ≡ false = ground arith in
      elim (Bool-cases (ltb limit (length (file ∷ files)))) [
        | inl many ↦ rw (some_file, many) (c.1, ltb→lt _ _ many, file ∷ files, (c.0, c.2), refl)
        | inr few ↦ rw (some_file, few) (c.1, (c.0, c.2), omega arith, ground arith)
      ]

  -- `validatePaths` refuses a patch for a path exactly where a line of it names a target that does
  -- not pass `safePatchPath` or is of a sensitive name; otherwise it refuses it where it has no
  -- target or more different ones than the limit, and else accepts it, and answers its different
  -- targets.
  pub validate_paths-Validates :
      (diff : String) (limit : ℕ)
      → Validates u (split diff "\n") limit (validate_paths u diff limit)
  unfolding validate_paths
  validate_paths-Validates diff limit =
      within_limit-Validates limit (split diff "\n") (validate_lines u (ok []) (split diff "\n"))
        (validate_lines-Covers (split diff "\n") [] tt)
