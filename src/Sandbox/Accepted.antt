-- ===== src/Sandbox/Accepted.antt =====
-- internal/sandbox/runner.go: what a diff is that `PreflightDiff` lets pass.
use code_co_driver.Prelude.{
  ltb, Bool-cases, List-cases, length, count, All, count-append, Outcome, ok, err, ℕ, ◌+◌, ◌≤◌, ◌<◌,
  String, ◌≡◌, refl, sym, ap, ◌∙◌, ◌⊎◌, inl, inr, true, false, ◌&&◌, ◌||◌, not, List, [], ◌∷◌, ◌++◌,
  map, arith, ◌==◌, eq_iff, eq_refl,
}
use code_co_driver.Prelude.Dict.{Dict, put, get_or, get_or-put}
use code_co_driver.Prelude.Text.{is_empty, contains}
use code_co_driver.Sandbox.Diff.{
  PatchError, extract_diff, normalize_diff, split_diff_files, split_diff_hunks, diff_file_state,
}
use code_co_driver.Sandbox.Preflight.{
  hunk_key, count_hunks, check_chunk, check_chunks, check_diff, preflight_diff,
}

-- A file of a diff: it names its target, it names its source unless the file is new, and it has a
-- hunk.
pub record IsSection (chunk : String) : Type 0 where
  pub target : is_empty (diff_file_state chunk).0 ≡ false
  pub source : (diff_file_state chunk).1 || contains (split_diff_hunks chunk).0 "--- a/" ≡ true
  pub hunks : 0 < length (split_diff_hunks chunk).1

-- The keys of the hunks of a file, and of all files.
abbrev pub keys_of : String → List String
keys_of chunk = map (hunk_key (diff_file_state chunk).0) (split_diff_hunks chunk).1

abbrev pub all_keys : List String → List String
all_keys [] = []
all_keys (chunk ∷ chunks) = keys_of chunk ++ all_keys chunks

abbrev pub times : String → List String → ℕ
times k keys = count (λ j. j == k) keys

-- A key that would be counted more than five times.
abbrev Excess : (String → ℕ) → List String → Type 0
Excess before keys = (k : String) × (5 < before k + times k keys)

-- The count of each key goes up by the times that it occurs and stays within its bound, or there is
-- a key for which it does not.
abbrev Counts : (String → ℕ) → List String → Outcome PatchError (Dict ℕ) → Type 0
Counts before keys (err e) = Excess before keys
Counts before keys (ok seen) =
    (k : String)
    → (get_or seen k 0 ≡ before k + times k keys) × (before k ≤ 5 → get_or seen k 0 ≤ 5)

abbrev Checks : (String → ℕ) → List String → Outcome PatchError (Dict ℕ) → Type 0
Checks before chunks (err e) = (¬ All IsSection chunks) ⊎ Excess before (all_keys chunks)
Checks before chunks (ok seen) = All IsSection chunks × Counts before (all_keys chunks) (ok seen)

-- A diff with a file, all of whose files are well formed, and no key more than five times.
pub record IsAccepted (diff : String) : Type 0 where
  pub files : 0 < length (split_diff_files diff)
  pub sections : All IsSection (split_diff_files diff)
  pub repeats : (k : String) → times k (all_keys (split_diff_files diff)) ≤ 5

-- What the preflight makes of the diff that was found, or of the error.
abbrev pub Accepts : Outcome PatchError String → Outcome PatchError String → Type 0
Accepts (err e) o = o ≡ err e
Accepts (ok raw) (err e) = ¬ IsAccepted (normalize_diff raw)
Accepts (ok raw) (ok diff) = (diff ≡ normalize_diff raw) × IsAccepted diff

abbrev seen_before : Dict ℕ → String → ℕ
seen_before seen k = get_or seen k 0

Counts-cons :
    (key : String) (keys : List String) (seen : Dict ℕ) (o : Outcome PatchError (Dict ℕ))
    → ltb 5 (get_or seen key 0 + 1) ≡ false
    → Counts (seen_before (put seen key (get_or seen key 0 + 1))) keys o
    → Counts (seen_before seen) (key ∷ keys) o
Counts-cons key keys seen (err e) h c = (
  c.0,
  elim (Bool-cases (key == c.0)) [
    | inl b ↦
        (let c' = rw (get_or-put, b) at c.1 in
          let same = ap (λ j. get_or seen j 0) ((eq_iff key c.0).0 b) in
          rw b (omega (arith, c', same)))
    | inr b ↦ (let c' = rw (get_or-put, b) at c.1 in rw b (omega (arith, c')))
  ],
)
Counts-cons key keys seen (ok seen') h c = λ k. elim (Bool-cases (key == k)) [
  | inl b ↦
      (let c' = rw (get_or-put, b) at (c k) in
        let same = ap (λ j. get_or seen j 0) ((eq_iff key k).0 b) in
        (rw b (omega (arith, c'.0, same)), λ below. c'.1 (ground arith)))
  | inr b ↦ (let c' = rw (get_or-put, b) at (c k) in (rw b (omega (arith, c'.0)), c'.1))
]

count_hunks-Counts :
    (path : String) (hunks : List String) (seen : Dict ℕ)
    → Counts (seen_before seen) (map (hunk_key path) hunks) (count_hunks path (ok seen) hunks)
unfolding count_hunks
count_hunks-Counts path [] seen = λ k. (omega arith, λ h. h)
count_hunks-Counts path (hunk ∷ hunks) seen =
    elim (Bool-cases (ltb 5 (get_or seen (hunk_key path hunk) 0 + 1))) [
      | inl b ↦ rw b (hunk_key path hunk, rw eq_refl (ground arith))
      | inr b ↦ rw b (Counts-cons (hunk_key path hunk) _ seen _ b (count_hunks-Counts path hunks _))
    ]

Counts-Checks :
    (seen : Dict ℕ) (chunk : String) (o : Outcome PatchError (Dict ℕ))
    → IsSection chunk
    → Counts (seen_before seen) (keys_of chunk) o
    → Checks (seen_before seen) (chunk ∷ []) o
Counts-Checks seen chunk (err e) i (k, c) =
    inr (k, omega (arith, c, count-append (λ j. j == k) (keys_of chunk) []))
Counts-Checks seen chunk (ok seen') i c =
    ((i, tt), λ k. (omega (arith, (c k).0, count-append (λ j. j == k) (keys_of chunk) []), (c k).1))

check_chunk-Checks :
    (seen : Dict ℕ) (chunk : String)
    → Checks (seen_before seen) (chunk ∷ []) (check_chunk seen chunk)
unfolding check_chunk
check_chunk-Checks seen chunk = elim (Bool-cases (is_empty (diff_file_state chunk).0)) [
  | inl named ↦ rw named (inl (λ a. cc (sym named ∙ a.0.target)))
  | inr named ↦
      rw named
        (elim (Bool-cases
          (not (diff_file_state chunk).1 && not (contains (split_diff_hunks chunk).0 "--- a/"))) [
            | inl sourced ↦ rw sourced (inl (λ a. ground (arith, sourced, a.0.source)))
            | inr sourced ↦ rw sourced (elim (List-cases (split_diff_hunks chunk).1) [
              | inl e ↦ rw e (inl (λ a. omega (arith, rw e at (a.0.hunks))))
              | inr (hunk, others, e) ↦ rw e (
                  Counts-Checks seen chunk _
                    (record {
                      target = named;
                      source = ground (arith, sourced);
                      hunks = rw e (omega arith);
                    })
                    (count_hunks-Counts (diff_file_state chunk).0 (split_diff_hunks chunk).1 seen))
            ])
          ])
]

all_keys-cons :
    (k chunk : String) (chunks : List String)
    → times k (all_keys (chunk ∷ chunks)) ≡ times k (keys_of chunk) + times k (all_keys chunks)
all_keys-cons k chunk chunks = count-append (λ j. j == k) (keys_of chunk) (all_keys chunks)

Checks-append :
    (seen seen' : Dict ℕ) (chunk : String) (chunks : List String) (o : Outcome PatchError (Dict ℕ))
    → Checks (seen_before seen) (chunk ∷ []) (ok seen')
    → Checks (seen_before seen') chunks o
    → Checks (seen_before seen) (chunk ∷ chunks) o
Checks-append seen seen' chunk chunks (err e) c (inl bad) = inl (λ a. bad a.1)
Checks-append seen seen' chunk chunks (err e) c (inr (k, d)) =
    inr (k, omega (arith, d, (c.1 k).0, all_keys-cons k chunk [], all_keys-cons k chunk chunks))
Checks-append seen seen' chunk chunks (ok seen'') c d = (
  (c.0.0, d.0),
  λ k. (
    omega (arith, (c.1 k).0, (d.1 k).0, all_keys-cons k chunk [], all_keys-cons k chunk chunks),
    λ h. (d.1 k).1 ((c.1 k).1 h),
  ),
)

Checks-cons :
    (seen : Dict ℕ) (chunk : String) (chunks : List String) (o : Outcome PatchError (Dict ℕ))
    → Checks (seen_before seen) (chunk ∷ []) o
    → ((seen' : Dict ℕ) → Checks (seen_before seen') chunks (check_chunks (ok seen') chunks))
    → Checks (seen_before seen) (chunk ∷ chunks) (check_chunks o chunks)
unfolding check_chunks
Checks-cons seen chunk chunks (err e) (inl bad) d = inl (λ a. bad (a.0, tt))
Checks-cons seen chunk chunks (err e) (inr (k, c)) d =
    inr (k, omega (arith, c, all_keys-cons k chunk [], all_keys-cons k chunk chunks))
Checks-cons seen chunk chunks (ok seen') c d =
    Checks-append seen seen' chunk chunks (check_chunks (ok seen') chunks) c (d seen')

check_chunks-Checks :
    (seen : Dict ℕ) (chunks : List String)
    → Checks (seen_before seen) chunks (check_chunks (ok seen) chunks)
unfolding check_chunks
check_chunks-Checks seen [] = (tt, λ k. (omega arith, λ h. h))
check_chunks-Checks seen (chunk ∷ chunks) =
    Checks-cons seen chunk chunks (check_chunk seen chunk) (check_chunk-Checks seen chunk)
      (λ seen'. check_chunks-Checks seen' chunks)

-- `PreflightDiff` answers the error of `ExtractDiff`, or it accepts exactly the diffs, in their
-- normal form, that have a file, of which each file names its target, names its source unless it
-- is new, and has a hunk, and of which no path has more than five hunks with one header.
pub preflight_diff-Accepts :
    (proposal : String) → Accepts (extract_diff proposal) (preflight_diff proposal)
unfolding preflight_diff get_or
preflight_diff-Accepts proposal = go (extract_diff proposal)
  where
    checked :
        (raw chunk : String) (chunks : List String)
        → split_diff_files (normalize_diff raw) ≡ chunk ∷ chunks
        → (o : Outcome PatchError (Dict ℕ)) → Checks (λ k. 0) (chunk ∷ chunks) o
        → Accepts (ok raw) (elim o [ err e ↦ err e | ok seen ↦ ok (normalize_diff raw) ])
    checked raw chunk chunks e (err p) (inl bad) = λ a. bad (rw e at (a.sections))
    checked raw chunk chunks e (err p) (inr (k, c)) = λ a. omega (arith, c, rw e at (a.repeats k))
    checked raw chunk chunks e (ok seen) c = (
      refl,
      record {
        files = rw e (omega arith);
        sections = rw e c.0;
        repeats = λ k. rw e (let d = c.1 k in omega (arith, d.0, d.1 (omega arith)));
      },
    )

    go :
        (o : Outcome PatchError String)
        → Accepts o (elim o [ err e ↦ err e | ok diff ↦ check_diff (normalize_diff diff) ])
    go (err e) = refl
    go (ok raw) = elim (List-cases (split_diff_files (normalize_diff raw))) [
      | inl e ↦ rw (e, check_diff) (λ a. omega (arith, rw e at (a.files)))
      | inr (chunk, chunks, e) ↦
          rw (e, check_diff)
            (checked raw chunk chunks e _ (check_chunks-Checks [] (chunk ∷ chunks)))
    ]
