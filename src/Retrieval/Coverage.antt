-- ===== src/Retrieval/Coverage.antt =====
-- internal/retrieval/context.go: what `Build` makes of the files that it is offered.
use code_co_driver.Prelude.{
  leb, Bool-cases, length, count, count-append, Outcome, ok, err, ℕ, ◌+◌, String, ◌≡◌, refl, ap,
  ◌∙◌, ◌⊎◌, inl, inr, Bool, true, ◌||◌, Option, List, [], ◌∷◌, ◌++◌, arith,
}
use code_co_driver.Prelude.Text.{Unicode, is_empty}
use code_co_driver.Domain.{RepositoryFile}
use code_co_driver.Retrieval
use code_co_driver.Retrieval.Budget.{IsWithin, build-IsWithin}

-- How many of the files that a pack shows or skips pass a test of their path.
abbrev pub handled : (String → Bool) → Retrieval.ContextPack → ℕ
handled p pack =
    count (λ (s : Retrieval.SourceSnippet). p s.path) pack.snippets
    + count (λ (s : Retrieval.SkippedFile). p s.path) pack.skipped

abbrev pub is_full : Retrieval.Config → Retrieval.ContextPack → Bool
is_full c pack = leb c.max_files (length pack.snippets) || leb c.max_total_bytes pack.total_bytes

-- From one pack to another the files have been handled, each once, up to some of the last ones if
-- the pack is full.
record Handles (c : Retrieval.Config) (files : List RepositoryFile)
    (before after : Retrieval.ContextPack) : Type 0 where
  seen : List RepositoryFile
  rest : List RepositoryFile
  offered : files ≡ seen ++ rest
  once :
      (p : String → Bool)
      → handled p after ≡ handled p before + count (λ (f : RepositoryFile). p f.path) seen
  ended : (rest ≡ []) ⊎ (is_full c after ≡ true)

-- A pack that `Build` makes of the files: within its bounds, and with each file handled once, up to
-- some of the last ones if the pack is full.
pub record IsBuilt (u : Unicode) (c : Retrieval.Config) (files : List RepositoryFile)
    (pack : Retrieval.ContextPack) : Type 0 where
  pub within : IsWithin u c pack
  pub seen : List RepositoryFile
  pub rest : List RepositoryFile
  pub offered : files ≡ seen ++ rest
  pub once : (p : String → Bool) → handled p pack ≡ count (λ (f : RepositoryFile). p f.path) seen
  pub ended : (rest ≡ []) ⊎ (is_full c pack ≡ true)

module _ {W : Type 0} (u : Unicode)
    (reader : Option (String → W → Outcome String (Option String) × W)) where
  handled-add_file :
      (p : String → Bool) (pack : Retrieval.ContextPack) (file : RepositoryFile)
      (r : Outcome String ((String × ℕ) × Bool))
      → handled p (Retrieval.add_file u reader pack file r)
        ≡ handled p pack + count (λ (f : RepositoryFile). p f.path) (file ∷ [])
  unfolding Retrieval.add_file
  handled-add_file p pack file (err e) =
      let more =
        count-append (λ (s : Retrieval.SkippedFile). p s.path) pack.skipped
          (record { path = file.path; reason = e } ∷ []) in
      rw more (omega arith)
  handled-add_file p pack file (ok ((content, bytes), truncated)) =
      let more =
        count-append (λ (s : Retrieval.SourceSnippet). p s.path) pack.snippets
          (record {
            path = file.path;
            language = file.language;
            content = Retrieval.add_line_numbers content;
            truncated = truncated;
          }
            ∷ []) in
      rw more (omega arith)

  handled-build_file :
      (p : String → Bool) (c : Retrieval.Config) (pack : Retrieval.ContextPack)
      (file : RepositoryFile) (w : W)
      → handled p (Retrieval.build_file u reader c pack file w).0
        ≡ handled p pack + count (λ (f : RepositoryFile). p f.path) (file ∷ [])
  unfolding Retrieval.build_file
  handled-build_file p c pack file w =
      elim (Bool-cases (is_empty (Retrieval.sensitive_reason u file.path))) [
        | inl e ↦ rw e (handled-add_file p pack file _)
        | inr e ↦
            let more =
              count-append (λ (s : Retrieval.SkippedFile). p s.path) pack.skipped
                (record { path = file.path; reason = Retrieval.sensitive_reason u file.path }
                  ∷ []) in
            rw (e, more) (omega arith)
      ]

  build_files-Handles :
      (c : Retrieval.Config) (files : List RepositoryFile) (pack : Retrieval.ContextPack) (w : W)
      → Handles c files pack (Retrieval.build_files u reader c pack files w).0
  unfolding Retrieval.build_files
  build_files-Handles c [] pack w = record {
    seen = [];
    rest = [];
    offered = refl;
    once = λ p. omega arith;
    ended = inl refl;
  }
  build_files-Handles c (file ∷ files) pack w = elim (Bool-cases (is_full c pack)) [
    | inl full ↦ rw full (record {
      seen = [];
      rest = file ∷ files;
      offered = refl;
      once = λ p. omega arith;
      ended = inr full;
    })
    | inr room ↦
        let (next, w') = Retrieval.build_file u reader c pack file w in
        let later = build_files-Handles c files next w' in
        rw room (record {
          seen = file ∷ later.seen;
          rest = later.rest;
          offered = ap (λ fs. file ∷ fs) later.offered;
          once = λ p. omega (arith, later.once p, handled-build_file p c pack file w);
          ended = later.ended;
        })
  ]

  -- Whatever files `Build` is offered, and whatever the reader answers for them: the snippets
  -- show, with numbered lines, the first bytes of a text each, no more bytes of one, no more bytes of
  -- all and no more snippets than the configuration allows, no snippet is of a file whose name is
  -- sensitive, and each file is shown or skipped once, but for some of the last
  -- ones if the pack is full.
  pub build-IsBuilt :
      (c : Retrieval.Config) (files : List RepositoryFile) (w : W)
      → IsBuilt u c files (Retrieval.build u reader c files w).0
  unfolding Retrieval.build
  build-IsBuilt c files w =
      let all = build_files-Handles c files _ w in
      record {
        within = build-IsWithin u reader c files w;
        seen = all.seen;
        rest = all.rest;
        offered = all.offered;
        once = λ p. all.once p ∙ omega arith;
        ended = all.ended;
      }
