-- ===== src/MemoryService/Overlap.antt =====
-- internal/memory/dedup.go: `tokenOverlap` and `jaccard` measure a pair in either order alike.
use code_co_driver.Prelude.{
  leb, nat_eq, Bool-cases, if◌then◌else◌, length, count, All, IsDistinct, ℕ, ◌+◌, ◌-◌, String, ◌≡◌,
  refl, sym, ap, ◌∙◌, ◌≢◌, inl, inr, false, List, [], ◌∷◌, arith, ◌==◌, eq_iff,
}
use mathlib.Core.Path.{subst}
use code_co_driver.Prelude.Text.{Unicode, fields, to_lower, trim_space, byte_length}
use code_co_driver.Prelude.Members.{has_text, has_text-false, not-has_text, IsDistinct-append_new}
use code_co_driver.Prelude.Float.{Float}
use code_co_driver.MemoryService.Similarity.{
  add_key, add_tokens, token_set, add_strings, string_set, overlap, set_similarity, token_overlap,
  jaccard,
}

add_key-IsDistinct :
    (out : List String) (key : String) → IsDistinct out → IsDistinct (add_key out key)
add_key-IsDistinct out key d = elim (Bool-cases (has_text key out)) [
  | inl e ↦ rw e d
  | inr e ↦ rw e (IsDistinct-append_new key out d (not-has_text key out e))
]

add_tokens-IsDistinct :
    (out tokens : List String) → IsDistinct out → IsDistinct (add_tokens out tokens)
unfolding add_tokens
add_tokens-IsDistinct out [] d = d
add_tokens-IsDistinct out (t ∷ ts) d = elim (Bool-cases (leb 3 (byte_length t))) [
  | inl e ↦
      rw (add_tokens, e) (add_tokens-IsDistinct (add_key out t) ts (add_key-IsDistinct out t d))
  | inr e ↦ rw (add_tokens, e) (add_tokens-IsDistinct out ts d)
]

add_strings-IsDistinct :
    (u : Unicode) (out values : List String)
    → IsDistinct out
    → IsDistinct (add_strings u out values)
unfolding add_strings
add_strings-IsDistinct u out [] d = d
add_strings-IsDistinct u out (v ∷ vs) d =
    add_strings-IsDistinct u (add_key out (to_lower u (trim_space v))) vs
      (add_key-IsDistinct out (to_lower u (trim_space v)) d)

-- How often a key stands in a list without repetitions.
count_key :
    (x : String) (ys : List String)
    → IsDistinct ys
    → count (λ y. x == y) ys ≡ (if has_text x ys then 1 else 0)
count_key x [] d = refl
count_key x (y ∷ ys) d = elim (Bool-cases (y == x)) [
  | inl e ↦
      let absent : has_text x ys ≡ false =
        has_text-false x ys (subst (λ k. All (λ t. k ≢ t) ys) ((eq_iff y x).0 e) d.0) in
      ground (arith, count_key x ys d.1, absent, eq_iff y x, eq_iff x y)
  | inr e ↦ ground (arith, count_key x ys d.1, eq_iff y x, eq_iff x y)
]

-- The count over a longer list of keys is that of the first key and that of the others.
overlap-cons :
    (x : String) (xs ys : List String)
    → has_text x xs ≡ false
    → overlap ys (x ∷ xs) ≡ count (λ y. x == y) ys + overlap ys xs
overlap-cons x xs [] absent = refl
overlap-cons x xs (y ∷ ys) absent = elim (Bool-cases (x == y)) [
  | inl e ↦
      let absent' : has_text y xs ≡ false =
        subst (λ k. has_text k xs ≡ false) ((eq_iff x y).0 e) absent in
      ground (arith, overlap-cons x xs ys absent, absent')
  | inr e ↦ ground (arith, overlap-cons x xs ys absent)
]

overlap_none : (ys : List String) → overlap ys [] ≡ 0
overlap_none [] = refl
overlap_none (y ∷ ys) = omega (arith, overlap_none ys)

overlap_comm : (xs ys : List String) → IsDistinct xs → IsDistinct ys → overlap xs ys ≡ overlap ys xs
overlap_comm [] ys d k = sym (overlap_none ys)
overlap_comm (x ∷ xs) ys d k =
    let absent = has_text-false x xs d.0 in
    ap (λ n. (if has_text x ys then 1 else 0) + n) (overlap_comm xs ys d.1 k)
    ∙ ap (λ n. n + overlap ys xs) (sym (count_key x ys k))
    ∙ sym (overlap-cons x xs ys absent)

module _ {F : Type 0} (f : Float F) where
  set_similarity_symm :
      (xs ys : List String)
      → IsDistinct xs
      → IsDistinct ys
      → set_similarity f xs ys ≡ set_similarity f ys xs
  unfolding set_similarity
  set_similarity_symm [] [] d k = refl
  set_similarity_symm [] (y ∷ ys) d k = refl
  set_similarity_symm (x ∷ xs) [] d k = refl
  set_similarity_symm (x ∷ xs) (y ∷ ys) d k =
      let l = length (x ∷ xs) in
      let r = length (y ∷ ys) in
      let union_comm : l + r ≡ r + l = omega arith in
      let of = λ (both union : ℕ).
        if nat_eq union 0 then f.lit 0 0 else f.div (f.of_nat both) (f.of_nat union) in
      ap (λ n. of n (l + r - n)) (overlap_comm (x ∷ xs) (y ∷ ys) d k)
      ∙ ap (λ n. of (overlap (y ∷ ys) (x ∷ xs)) (n - overlap (y ∷ ys) (x ∷ xs))) union_comm

  -- `tokenOverlap` and `jaccard` do not depend on the order of their arguments.
  pub overlaps_symm :
      (u : Unicode) (left right : String) (files files' : List String)
      → (token_overlap f u left right ≡ token_overlap f u right left)
        × (jaccard f u files files' ≡ jaccard f u files' files)
  unfolding token_overlap jaccard token_set string_set
  overlaps_symm u left right files files' = (
    set_similarity_symm (token_set u left) (token_set u right)
        (add_tokens-IsDistinct [] (fields (to_lower u left)) tt)
        (add_tokens-IsDistinct [] (fields (to_lower u right)) tt),
    set_similarity_symm (string_set u files) (string_set u files')
        (add_strings-IsDistinct u [] files tt) (add_strings-IsDistinct u [] files' tt),
  )
