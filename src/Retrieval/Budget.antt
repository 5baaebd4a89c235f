-- ===== src/Retrieval/Budget.antt =====
-- internal/retrieval/context.go: what `Build` keeps to.
use code_co_driver.Prelude.{
  ltb, leb, nat_eq, Bool-cases, length, All, All-append, length-append, Outcome, ok, err, ℕ, zero,
  suc, ◌+◌, ◌-◌, ◌≤◌, ◌<◌, String, ◌≡◌, refl, sym, ap, inl, inr, Bool, true, ◌||◌, Option, none,
  some, List, [], ◌∷◌, ◌++◌, arith,
}
use Prim.Native.Nat.{min}
use Prim.Native.Char.{len_utf8}
use text.Mathlib.TextPositions.{len_utf8-pos}
use code_co_driver.Prelude.Text.{Unicode, is_empty, byte_length}
use code_co_driver.Prelude.Slices.{replace_all, to_byte}
use code_co_driver.Domain.{RepositoryFile}
use code_co_driver.Retrieval

-- A cut at the length of the text leaves it as it is.
to_byte-all : (n : ℕ) (s : String) → n ≡ byte_length s → to_byte n s ≡ s
unfolding to_byte byte_length
to_byte-all zero String.[] e = refl
to_byte-all zero (String.◌∷◌ c s) e =
    let (k, positive) = len_utf8-pos c in absurd (omega (arith, e, positive))
to_byte-all (suc n) String.[] e = refl
to_byte-all (suc n) (String.◌∷◌ c s) e =
    let (k, positive) = len_utf8-pos c in
    let fits : leb (len_utf8 c) (suc n) ≡ true = ground (arith, e) in
    rw fits (ap (λ t. String.◌∷◌ c t) (to_byte-all (suc n - len_utf8 c) s (omega (arith, e))))

-- An answer whose content is as many of the first bytes of a text as it says, within the limit.
abbrev Fits : ℕ → Outcome String ((String × ℕ) × Bool) → Type 0
Fits limit (err e) = Unit
Fits limit (ok ((content, bytes), truncated)) =
    (bytes ≤ limit)
    × (original : String) × (bytes ≤ byte_length original)
    × (content ≡ to_byte bytes original)

-- The snippets show, with their lines numbered, the first bytes of a text each, no more of one than
-- the limit, and the number of all these bytes.
pub data Shows (limit : ℕ) : List Retrieval.SourceSnippet → ℕ → Type 0 where
  nothing : Shows limit [] 0
  one_more :
      {ss : List Retrieval.SourceSnippet} {total : ℕ} (s : Retrieval.SourceSnippet)
      (original : String) (bytes : ℕ)
      → Shows limit ss total
      → bytes ≤ limit
      → bytes ≤ byte_length original
      → s.content ≡ Retrieval.add_line_numbers (to_byte bytes original)
      → Shows limit (ss ++ s ∷ []) (total + bytes)

-- A pack within the bounds of the configuration, without a file of a sensitive name.
pub record IsWithin (u : Unicode) (c : Retrieval.Config) (p : Retrieval.ContextPack) : Type 0 where
  pub contents : Shows c.max_file_bytes p.snippets p.total_bytes
  pub total : p.total_bytes ≤ c.max_total_bytes
  pub files : length p.snippets ≤ c.max_files
  pub shown :
      All
        (λ (s : Retrieval.SourceSnippet). is_empty (Retrieval.sensitive_reason u s.path) ≡ true)
        p.snippets

module _ {W : Type 0} (u : Unicode)
    (reader : Option (String → W → Outcome String (Option String) × W)) where
  read_content-Fits :
      (limit : ℕ) (r : Outcome String (Option String))
      → Fits limit (Retrieval.read_content u reader limit r)
  unfolding Retrieval.read_content
  read_content-Fits limit (err e) = tt
  read_content-Fits limit (ok none) = tt
  read_content-Fits limit (ok (some raw)) =
      elim (Bool-cases (ltb limit (byte_length (replace_all raw "\r\n" "\n")))) [
        | inl e ↦ rw e (omega arith, replace_all raw "\r\n" "\n", ground (arith, e), refl)
        | inr e ↦ rw e (
          ground (arith, e),
          replace_all raw "\r\n" "\n",
          omega arith,
          sym (to_byte-all _ (replace_all raw "\r\n" "\n") refl),
        )
      ]

  read_file_through_reader-Fits :
      (path : String) (limit : ℕ) (w : W)
      → Fits limit (Retrieval.read_file_through_reader u reader path limit w).0
  unfolding Retrieval.read_file_through_reader Retrieval.call_reader
  read_file_through_reader-Fits path limit w = elim (Bool-cases (nat_eq limit 0)) [
    | inl e ↦ rw e tt
    | inr e ↦ rw e (called reader)
  ]
    where
      called :
          (reader' : Option (String → W → Outcome String (Option String) × W))
          → Fits limit (Retrieval.call_reader u reader reader' path limit w).0
      called none = tt
      called (some read) = read_content-Fits limit (read path w).0

  add_file-IsWithin :
      (c : Retrieval.Config) (p : Retrieval.ContextPack) (file : RepositoryFile)
      (r : Outcome String ((String × ℕ) × Bool))
      → IsWithin u c p
      → is_empty (Retrieval.sensitive_reason u file.path) ≡ true
      → p.total_bytes < c.max_total_bytes
      → length p.snippets < c.max_files
      → Fits (min c.max_file_bytes (c.max_total_bytes - p.total_bytes)) r
      → IsWithin u c (Retrieval.add_file u reader p file r)
  unfolding Retrieval.add_file
  add_file-IsWithin c p file (err e) i shown total files fits = record {
    contents = i.contents;
    total = i.total;
    files = i.files;
    shown = i.shown;
  }
  add_file-IsWithin c p file (ok ((content, bytes), truncated)) i shown total files fits = record {
    contents =
        one_more _ fits.1 bytes i.contents (omega (arith, fits.0)) fits.2
          (ap Retrieval.add_line_numbers fits.3);
    total = omega (arith, fits.0);
    files =
        rw
          (length-append p.snippets (
            record {
              path = file.path;
              language = file.language;
              content = Retrieval.add_line_numbers content;
              truncated = truncated;
            }
            ∷ []))
          (omega arith);
    shown =
        All-append
          (λ (s : Retrieval.SourceSnippet). is_empty (Retrieval.sensitive_reason u s.path) ≡ true)
          p.snippets _ i.shown (shown, tt);
  }

  build_file-IsWithin :
      (c : Retrieval.Config) (p : Retrieval.ContextPack) (file : RepositoryFile) (w : W)
      → IsWithin u c p
      → p.total_bytes < c.max_total_bytes
      → length p.snippets < c.max_files
      → IsWithin u c (Retrieval.build_file u reader c p file w).0
  unfolding Retrieval.build_file
  build_file-IsWithin c p file w i total files =
      elim (Bool-cases (is_empty (Retrieval.sensitive_reason u file.path))) [
        | inl e ↦ rw e (
            add_file-IsWithin c p file _ i e total files (
              read_file_through_reader-Fits file.path
                (min c.max_file_bytes (c.max_total_bytes - p.total_bytes)) w))
        | inr e ↦
            rw e
              (record { contents = i.contents; total = i.total; files = i.files; shown = i.shown })
      ]

  build_files-IsWithin :
      (c : Retrieval.Config) (files : List RepositoryFile) (p : Retrieval.ContextPack) (w : W)
      → IsWithin u c p
      → IsWithin u c (Retrieval.build_files u reader c p files w).0
  unfolding Retrieval.build_files
  build_files-IsWithin c [] p w i = i
  build_files-IsWithin c (file ∷ files) p w i =
      elim (Bool-cases
        (leb c.max_files (length p.snippets) || leb c.max_total_bytes p.total_bytes)) [
          | inl e ↦ rw e i
          | inr e ↦ rw e (
              build_files-IsWithin c files _ _
                (build_file-IsWithin c p file w i (ground arith) (ground arith)))
        ]

  -- Whatever files `Build` is offered, and whatever the reader answers for them: the snippets
  -- show the first bytes of a text each, no more bytes of one, no more bytes of all and no more
  -- snippets than the configuration allows, and no snippet is of
  -- a file whose name is sensitive.
  pub build-IsWithin :
      (c : Retrieval.Config) (files : List RepositoryFile) (w : W)
      → IsWithin u c (Retrieval.build u reader c files w).0
  unfolding Retrieval.build
  build-IsWithin c files w =
      build_files-IsWithin c files _ w
        (record { contents = nothing; total = omega arith; files = omega arith; shown = tt })
