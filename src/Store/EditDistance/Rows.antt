-- ===== src/Store/EditDistance/Rows.antt =====
-- internal/store/memory.go, `editDistance`: each row holds the distances from the part of the left
-- text that has been read, so that the result is the least number of edits.
use Prim.Native.Char.{Char}
use code_co_driver.Prelude.{
  length, ℕ, ◌+◌, ◌≤◌, String, ◌≡◌, refl, sym, ap, ◌∙◌, List, [], ◌∷◌, ◌++◌, arith,
}
use mathlib.Core.List.{reverse, reverse-cons, reverse-reverse, append_assoc, append-nil}
use mathlib.Core.Path.{subst₂, ap₂}
use code_co_driver.Store.EditDistance.Script.{Script, Script-symm, Script-reverse}
use code_co_driver.Store.EditDistance.Minimal.{
  distance, distance-nil, distance-le, distance-Script, distance_step,
}
use code_co_driver.Store.EditDistance.{
  runes, row, rows, first_row, last_or, edit_distance, fuzzy_memory_token_match,
}

-- The characters read so far stand in reverse.
abbrev push_all : List Char → List Char → List Char
push_all [] xs = xs
push_all (c ∷ l) xs = push_all l (c ∷ xs)

push_all-eq-reverse : (l xs : List Char) → push_all l xs ≡ reverse l ++ xs
push_all-eq-reverse [] xs = refl
push_all-eq-reverse (c ∷ l) xs =
    push_all-eq-reverse l (c ∷ xs)
    ∙ sym (ap (λ r. r ++ xs) (reverse-cons c l) ∙ append_assoc (reverse l) (c ∷ []) xs)

-- The cells of a row behind the one for `acc`.
abbrev cells : List Char → List Char → List Char → List ℕ
cells xs acc [] = []
cells xs acc (d ∷ right) = distance xs (d ∷ acc) ∷ cells xs (d ∷ acc) right

row-cells :
    (c : Char) (xs acc right : List Char)
    → row c right (distance xs acc ∷ cells xs acc right) (distance (c ∷ xs) acc)
      ≡ cells (c ∷ xs) acc right
unfolding row
row-cells c xs acc [] = refl
row-cells c xs acc (d ∷ right) =
    rw (distance_step c d xs acc)
      (ap (λ r. distance (c ∷ xs) (d ∷ acc) ∷ r) (row-cells c xs (d ∷ acc) right))

rows-cells :
    (i : ℕ) (left xs right : List Char)
    → i ≡ length xs
    → rows i left right (distance xs [] ∷ cells xs [] right)
      ≡ distance (push_all left xs) [] ∷ cells (push_all left xs) [] right
unfolding rows
rows-cells i [] xs right e = refl
rows-cells i (c ∷ left) xs right e =
    let cell : i + 1 ≡ distance (c ∷ xs) [] = omega (arith, distance-nil (c ∷ xs), e) in
    rw (cell, row-cells c xs [] right)
      (rows-cells (distance (c ∷ xs) []) left (c ∷ xs) right (distance-nil (c ∷ xs)))

first_row-cells :
    (j : ℕ) (acc right : List Char)
    → j ≡ distance [] acc
    → first_row j right ≡ distance [] acc ∷ cells [] acc right
unfolding first_row
first_row-cells j acc [] e = rw e
first_row-cells j acc (d ∷ right) e =
    rw (first_row-cells (j + 1) (d ∷ acc) right (unfold distance in omega arith), e)

last_or-cells :
    (z : ℕ) (xs acc right : List Char)
    → last_or z (distance xs acc ∷ cells xs acc right) ≡ distance xs (push_all right acc)
last_or-cells z xs acc [] = refl
last_or-cells z xs acc (d ∷ right) = last_or-cells (distance xs acc) xs (d ∷ acc) right

edit_distance-eq-distance :
    (l r : String) → edit_distance l r ≡ distance (reverse (runes l)) (reverse (runes r))
unfolding edit_distance
edit_distance-eq-distance l r = rw (first_row-cells 0 [] (runes r) (unfold distance in refl)) (
    rw (rows-cells 0 (runes l) [] (runes r) refl) (
      last_or-cells 0 (push_all (runes l) []) [] (runes r)
      ∙ ap₂ distance (whole (runes l)) (whole (runes r))))
  where
    whole : (xs : List Char) → push_all xs [] ≡ reverse xs
    whole xs = push_all-eq-reverse xs [] ∙ append-nil (reverse xs)

-- `editDistance` never answers more than the length of an edit script between the two texts.
pub edit_distance-le : (l r : String) {n : ℕ} → Script (runes l) (runes r) n → edit_distance l r ≤ n
edit_distance-le l r s = rw (edit_distance-eq-distance l r) (distance-le (Script-reverse s))

-- There is an edit script between the two texts with as many edits as `editDistance` answers.
pub edit_distance-Script : (l r : String) → Script (runes l) (runes r) (edit_distance l r)
edit_distance-Script l r = rw (edit_distance-eq-distance l r) (
    subst₂ (λ xs ys. Script xs ys (distance (reverse (runes l)) (reverse (runes r))))
      (reverse-reverse (runes l)) (reverse-reverse (runes r))
      (Script-reverse (distance-Script (reverse (runes l)) (reverse (runes r)))))

edit_distance_symm : (l r : String) → edit_distance l r ≡ edit_distance r l
edit_distance_symm l r = omega (
  arith,
  edit_distance-le l r (Script-symm (edit_distance-Script r l)),
  edit_distance-le r l (Script-symm (edit_distance-Script l r)),
)

-- The fuzzy match of two tokens does not depend on their order.
pub fuzzy_memory_token_match_symm :
    (l r : String) → fuzzy_memory_token_match l r ≡ fuzzy_memory_token_match r l
unfolding fuzzy_memory_token_match
fuzzy_memory_token_match_symm l r = rw (edit_distance_symm l r) (ground arith)
