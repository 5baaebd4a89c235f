-- ===== src/Store/Tokens/Laws.antt =====
-- internal/store/memory.go, `memorySearchTokens`: what the list of tokens holds.
use Prim.Native.Char.{Char}
use code_co_driver.Prelude.{
  leb, Bool-cases, if◌then◌else◌, All, IsDistinct, All-append, String, ◌≡◌, inl, inr, Bool, true,
  false, ◌&&◌, ◌||◌, not, List, [], ◌∷◌,
}
use code_co_driver.Prelude.Members.{has_text, not-has_text, IsDistinct-append_new}
use code_co_driver.Store.EditDistance.{runes}
use code_co_driver.Prelude.Text.{to_lower, fields_func, Unicode, is_empty, byte_length}
use code_co_driver.Store.Tokens.{add_token, add_words, add_bigrams, memory_search_tokens}

-- No token is empty and none stands twice.
pub record IsTokenSet (out : List String) : Type 0 where
  pub filled : All (λ t. is_empty t ≡ false) out
  pub distinct : IsDistinct out

add_token-IsTokenSet :
    (out : List String) (token : String) → IsTokenSet out → IsTokenSet (add_token out token)
unfolding add_token
add_token-IsTokenSet out token v = elim (Bool-cases (is_empty token)) [
  | inl e ↦ rw e v
  | inr e ↦ elim (Bool-cases (has_text token out)) [
    | inl old ↦ rw (e, old) v
    | inr new ↦
        rw (e, new)
          (record {
            filled = All-append (λ t. is_empty t ≡ false) out (token ∷ []) v.filled (e, tt);
            distinct = IsDistinct-append_new token out v.distinct (not-has_text token out new);
          })
  ]
]

add_token_if-IsTokenSet :
    (b : Bool) (out : List String) (token : String)
    → IsTokenSet out
    → IsTokenSet (if b then add_token out token else out)
add_token_if-IsTokenSet true out token v = add_token-IsTokenSet out token v
add_token_if-IsTokenSet false out token v = v

add_words-IsTokenSet : (out words : List String) → IsTokenSet out → IsTokenSet (add_words out words)
unfolding add_words
add_words-IsTokenSet out [] v = v
add_words-IsTokenSet out (word ∷ words) v =
    add_words-IsTokenSet (if leb 3 (byte_length word) then add_token out word else out) words
      (add_token_if-IsTokenSet (leb 3 (byte_length word)) out word v)

add_bigrams-IsTokenSet :
    (u : Unicode) (out : List String) (rs : List Char)
    → IsTokenSet out
    → IsTokenSet (add_bigrams u out rs)
unfolding add_bigrams
add_bigrams-IsTokenSet u out [] v = v
add_bigrams-IsTokenSet u out (c ∷ []) v = v
add_bigrams-IsTokenSet u out (c ∷ d ∷ rest) v =
    let pair = String.◌∷◌ c (String.◌∷◌ d String.[]) in
    add_bigrams-IsTokenSet u (if u.is_han c || u.is_han d then add_token out pair else out)
      (d ∷ rest) (add_token_if-IsTokenSet (u.is_han c || u.is_han d) out pair v)

-- The search tokens of any text are not empty, and no token is listed twice.
pub memory_search_tokens-IsTokenSet :
    (u : Unicode) (value : String) → IsTokenSet (memory_search_tokens u value)
unfolding memory_search_tokens
memory_search_tokens-IsTokenSet u value =
    let lower = to_lower u value in
    let words = fields_func (λ r. not (u.is_letter r) && not (u.is_number r)) lower in
    add_bigrams-IsTokenSet u (add_words [] words) (runes lower)
      (add_words-IsTokenSet [] words (record { filled = tt; distinct = tt }))
