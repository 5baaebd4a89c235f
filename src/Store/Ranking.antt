-- ===== src/Store/Ranking.antt =====
-- internal/store/memory.go, `SearchMemoryLimit`: the best of the entries that are looked for.
use code_co_driver.Prelude.{
  ltb, Bool-cases, if◌then◌else◌, length, take, select, ℕ, zero, suc, ◌≤◌, String, ◌≡◌, refl, sym,
  ap, ◌∙◌, inl, inr, Bool, true, false, ◌&&◌, ◌||◌, List, [], ◌∷◌, map, arith, ◌==◌,
}
use mathlib.Core.Path.{ap₂}
use code_co_driver.Prelude.Text.{Unicode, is_empty}
use code_co_driver.Prelude.Float.{Float}
use code_co_driver.Prelude.Sort.{sort, map-sort}
use code_co_driver.Domain.{MemoryEntry}
use code_co_driver.Store.Score.{memory_rerank_score}
use code_co_driver.Store.Memories.{scored_hits, cut}

-- An entry in a ranking: its id with its score.
abbrev pub rank : {F : Type 0} → MemoryEntry F → String × F
rank e = (e.id, e.score)

-- The first entries, all of them for the limit 0.
abbrev pub first_of : {A : Type 0} → ℕ → List A → List A
first_of zero xs = xs
first_of (suc n) xs = take (suc n) xs

map-take : {A B : Type 0} (g : A → B) (n : ℕ) (xs : List A) → map g (take n xs) ≡ take n (map g xs)
map-take g zero xs = refl
map-take g (suc n) [] = refl
map-take g (suc n) (x ∷ xs) = ap (λ ys. g x ∷ ys) (map-take g n xs)

take-all : {A : Type 0} (n : ℕ) (xs : List A) → length xs ≤ n → take n xs ≡ xs
take-all zero [] h = refl
take-all zero (x ∷ xs) h = absurd (omega arith)
take-all (suc n) [] h = refl
take-all (suc n) (x ∷ xs) h = ap (λ ys. x ∷ ys) (take-all n xs (omega arith))

module _ {F : Type 0} where
  cut-first_of : (limit : ℕ) (out : List (MemoryEntry F)) → cut limit out ≡ first_of limit out
  unfolding cut
  cut-first_of zero out = refl
  cut-first_of (suc n) out =
      let positive : ltb 0 (suc n) ≡ true = ground arith in
      elim (Bool-cases (ltb (suc n) (length out))) [
        | inl e ↦ rw (e, positive) refl
        | inr e ↦ rw (e, positive) (sym (take-all (suc n) out (ground arith)))
      ]

  ranks-first_of :
      (limit : ℕ) (out : List (MemoryEntry F))
      → map rank (first_of limit out) ≡ first_of limit (map rank out)
  ranks-first_of zero out = refl
  ranks-first_of (suc n) out = map-take rank (suc n) out

  module _ (f : Float F) (u : Unicode) (now : ℕ) (repo_id q : String) (vector : List F) where
    -- The score of an entry in the search, and whether it is found: it is of the repository, and its
    -- score is above zero unless the query is empty.
    abbrev pub search_score : MemoryEntry F → F
    search_score e = if is_empty q then f.lit 0 0 else memory_rerank_score f u e q vector now

    abbrev pub is_found : MemoryEntry F → Bool
    is_found e =
        e.repository_id == repo_id
        && (is_empty q || f.lt (f.lit 0 0) (memory_rerank_score f u e q vector now))

    -- The entries that are found, by falling score.
    abbrev pub ranking : List (MemoryEntry F) → List (String × F)
    ranking es = sort (λ a b. f.lt b.1 a.1) (map (λ e. (e.id, search_score e)) (select is_found es))

    ranks-if :
        (home blank above : Bool) (e : MemoryEntry F) (score : F) (g : MemoryEntry F → String × F)
        (hits es : List (MemoryEntry F))
        → (blank ≡ true → g e ≡ (e.id, f.lit 0 0))
        → (blank ≡ false → g e ≡ (e.id, score))
        → map rank hits ≡ map g es
        → map rank (
            if home
            then (if blank
                then record e { score = f.lit 0 0 } ∷ hits
                else if above
                then record e { score = score } ∷ hits
                else hits)
            else hits)
          ≡ map g (if home && (blank || above) then e ∷ es else es)
    ranks-if false blank above e score g hits es plain scored k = k
    ranks-if true true above e score g hits es plain scored k =
        ap₂ (λ x xs. x ∷ xs) (sym (plain refl)) k
    ranks-if true false true e score g hits es plain scored k =
        ap₂ (λ x xs. x ∷ xs) (sym (scored refl)) k
    ranks-if true false false e score g hits es plain scored k = k

    ranks-scored_hits :
        (es : List (MemoryEntry F))
        → map rank (scored_hits f u now repo_id q vector es)
          ≡ map (λ e. (e.id, search_score e)) (select is_found es)
    unfolding scored_hits
    ranks-scored_hits [] = refl
    ranks-scored_hits (e ∷ es) =
        let score = memory_rerank_score f u e q vector now in
        ranks-if (e.repository_id == repo_id) (is_empty q) (f.lt (f.lit 0 0) score) e score
          (λ e'. (e'.id, search_score e')) (scored_hits f u now repo_id q vector es)
          (select is_found es) (λ b. ap (λ c. (e.id, (if c then f.lit 0 0 else score))) b)
          (λ b. ap (λ c. (e.id, (if c then f.lit 0 0 else score))) b) (ranks-scored_hits es)

    pub ranks-cut :
        (limit : ℕ) (es : List (MemoryEntry F))
        → map rank (
            cut limit
              (sort (λ a b. f.lt b.score a.score) (scored_hits f u now repo_id q vector es)))
          ≡ first_of limit (ranking es)
    ranks-cut limit es =
        ap (map rank) (cut-first_of limit _)
        ∙ ranks-first_of limit _
        ∙ ap (first_of limit) (
            map-sort (λ (a b : String × F). f.lt b.1 a.1) rank
              (scored_hits f u now repo_id q vector es)
            ∙ ap (sort (λ a b. f.lt b.1 a.1)) (ranks-scored_hits es))
