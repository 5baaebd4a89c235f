-- ===== src/Store/Tokens.antt =====
-- internal/store/memory.go: `memorySearchTokens` and the keyword score over them, `memoryScore`.
pub mod Laws
use Prim.Native.Char.{Char}
use code_co_driver.Prelude.{
  leb, if◌then◌else◌, any, ◌+◌, String, ◌&&◌, ◌||◌, not, List, [], ◌∷◌, ◌++◌,
}
use code_co_driver.Prelude.Text.{
  Unicode, fields_func, byte_length, is_empty, trim_space, to_lower, contains,
}
use code_co_driver.Prelude.Members.{has_text}
use code_co_driver.Prelude.Float.{Float}
use code_co_driver.Store.EditDistance.{runes, fuzzy_memory_token_match}

-- The closure `add`: the keys of `seen` are the entries of `out`.
unfoldable pub add_token : List String → String → List String
add_token out token = if is_empty token || has_text token out then out else out ++ token ∷ []

unfoldable pub add_words : List String → List String → List String
unfolding add_token
add_words out [] = out
add_words out (word ∷ words) =
    add_words (if leb 3 (byte_length word) then add_token out word else out) words

-- The pairs of neighbouring characters of which one is a Han character.
unfoldable pub add_bigrams : Unicode → List String → List Char → List String
unfolding add_token
add_bigrams u out [] = out
add_bigrams u out (c ∷ []) = out
add_bigrams u out (c ∷ d ∷ rest) =
    add_bigrams u
      (if u.is_han c || u.is_han d
        then add_token out (String.◌∷◌ c (String.◌∷◌ d String.[]))
        else out)
      (d ∷ rest)

-- `memorySearchTokens`
unfoldable pub memory_search_tokens : Unicode → String → List String
unfolding add_words add_bigrams
memory_search_tokens u value =
    let lower = to_lower u value in
    let words = fields_func (λ r. not (u.is_letter r) && not (u.is_number r)) lower in
    add_bigrams u (add_words [] words) (runes lower)

module _ {F : Type 0} (f : Float F) where
  -- What one term of the query adds.
  pub term_score : List String → F → String → F
  term_score content matched term =
      if has_text term content
      then f.add matched (f.lit 1 0)
      else if any (fuzzy_memory_token_match term) content
      then f.add matched (f.lit 8 1)
      else matched

  pub terms_score : List String → F → List String → F
  unfolding term_score
  terms_score content matched [] = matched
  terms_score content matched (term ∷ terms) =
      terms_score content (term_score content matched term) terms

  -- `memoryScore`
  unfoldable pub memory_score : Unicode → String → String → F
  unfolding terms_score
  memory_score u content query =
      let matched =
        terms_score (memory_search_tokens u content) (f.lit 0 0) (memory_search_tokens u query) in
      if is_empty (trim_space query)
      then f.lit 0 0
      else if contains (to_lower u content) (to_lower u (trim_space query))
      then f.add matched (f.lit 1 0)
      else matched
