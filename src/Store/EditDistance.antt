-- ===== src/Store/EditDistance.antt =====
-- internal/store/memory.go: `editDistance`, row by row, and `fuzzyMemoryTokenMatch`.
pub mod Script
pub mod Minimal
pub mod Rows
use Prim.Native.Char.{Char, code}
use code_co_driver.Prelude.{
  ltb, leb, nat_eq, if◌then◌else◌, ℕ, ◌+◌, ◌/◌, String, ◌≡◌, refl, Bool, false, ◌||◌, List, [], ◌∷◌,
}
use code_co_driver.Prelude.Text.{byte_length}

-- `[]rune(s)`
unfoldable pub runes : String → List Char
runes String.[] = []
runes (String.◌∷◌ c s) = c ∷ runes s

pub min_ints : ℕ → ℕ → ℕ → ℕ
min_ints left middle right =
    let left' = if ltb middle left then middle else left in if ltb right left' then right else left'

abbrev pub cost : Char → Char → ℕ
cost c d = if nat_eq (code c) (code d) then 0 else 1

-- The inner loop: the cells of `current` behind `cell`, from those of `previous`.
pub row : Char → List Char → List ℕ → ℕ → List ℕ
unfolding min_ints
row c [] previous cell = []
row c (d ∷ right) [] cell = []
row c (d ∷ right) (p ∷ []) cell = []
row c (d ∷ right) (p ∷ q ∷ previous) cell =
    let next = min_ints (q + 1) (cell + 1) (p + cost c d) in next ∷ row c right (q ∷ previous) next

-- The outer loop, behind the first `i` characters of the left text.
pub rows : ℕ → List Char → List Char → List ℕ → List ℕ
unfolding row
rows i [] right previous = previous
rows i (c ∷ left) right previous = rows (i + 1) left right ((i + 1) ∷ row c right previous (i + 1))

-- `0, 1, …`, one cell more than there are characters.
pub first_row : ℕ → List Char → List ℕ
first_row j [] = j ∷ []
first_row j (d ∷ right) = j ∷ first_row (j + 1) right

abbrev pub last_or : ℕ → List ℕ → ℕ
last_or z [] = z
last_or z (x ∷ xs) = last_or x xs

-- `editDistance`; `previous[len(rightRunes)]` is the last cell.
unfoldable pub edit_distance : String → String → ℕ
unfolding rows first_row runes
edit_distance left right = last_or 0 (rows 0 (runes left) (runes right) (first_row 0 (runes right)))

-- `fuzzyMemoryTokenMatch`
unfoldable pub fuzzy_memory_token_match : String → String → Bool
fuzzy_memory_token_match left right =
    if ltb (byte_length left) 4 || ltb (byte_length right) 4
    then false
    else let third = byte_length left / 3 in
      let larger = if ltb third (byte_length right / 3) then byte_length right / 3 else third in
      leb (edit_distance left right) (if ltb larger 1 then 1 else larger)

edit_distance_runs : edit_distance "kitten" "sitting" ≡ 3
unfolding edit_distance
edit_distance_runs = refl
