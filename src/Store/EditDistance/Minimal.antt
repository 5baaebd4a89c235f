-- ===== src/Store/EditDistance/Minimal.antt =====
-- internal/store/memory.go, `editDistance`: the rows hold the least numbers of edits.
use Prim.Native.Char.{Char, code}
use code_co_driver.Prelude.{
  nat_eq, nat_eq_iff, Bool-cases, length, ℕ, suc, ◌+◌, ◌≤◌, ◌≡◌, refl, sym, ◌⊎◌, inl, inr, List, [],
  ◌∷◌, arith,
}
use mathlib.Core.Path.{subst}
use text.Mathlib.TextEquality.{Char-path}
use code_co_driver.Store.EditDistance.Script.{Script, done, keep, change, remove, add}
use code_co_driver.Store.EditDistance.{min_ints, cost}

min_ints_bounds : (a b c : ℕ) → (min_ints a b c ≤ a) × (min_ints a b c ≤ b) × (min_ints a b c ≤ c)
unfolding min_ints
min_ints_bounds a b c = ground arith

min_ints_cases : (a b c : ℕ) → (min_ints a b c ≡ a) ⊎ ((min_ints a b c ≡ b) ⊎ (min_ints a b c ≡ c))
unfolding min_ints
min_ints_cases a b c = ground arith

min_ints_swap : (a b c : ℕ) → min_ints a b c ≡ min_ints b a c
unfolding min_ints
min_ints_swap a b c = ground arith

-- The distance by recursion on the first characters.
unfoldable pub distance : List Char → List Char → ℕ
distance [] ys = length ys
distance (x ∷ xs) [] = suc (length xs)
distance (x ∷ xs) (y ∷ ys) =
    min_ints (distance (x ∷ xs) ys + 1) (distance xs (y ∷ ys) + 1) (distance xs ys + cost x y)

pub distance-nil : (xs : List Char) → distance xs [] ≡ length xs
unfolding distance
distance-nil [] = refl
distance-nil (x ∷ xs) = refl

-- The step of the recursion, as the rows make it.
pub distance_step :
    (c d : Char) (xs acc : List Char)
    → min_ints (distance xs (d ∷ acc) + 1) (distance (c ∷ xs) acc + 1) (distance xs acc + cost c d)
      ≡ distance (c ∷ xs) (d ∷ acc)
unfolding distance
distance_step c d xs acc = min_ints_swap (distance xs (d ∷ acc) + 1) (distance (c ∷ xs) acc + 1) _

distance-drop-le : (x : Char) (xs ys : List Char) → distance (x ∷ xs) ys ≤ suc (distance xs ys)
unfolding distance
distance-drop-le x xs [] = omega (arith, distance-nil xs)
distance-drop-le x xs (y ∷ ys) = omega (
  arith,
  (min_ints_bounds (distance (x ∷ xs) ys + 1) (distance xs (y ∷ ys) + 1)
      (distance xs ys + cost x y)).1,
)

distance-add-le : (y : Char) (xs ys : List Char) → distance xs (y ∷ ys) ≤ suc (distance xs ys)
unfolding distance
distance-add-le y [] ys = omega arith
distance-add-le y (x ∷ xs) ys = omega (
  arith,
  (min_ints_bounds (distance (x ∷ xs) ys + 1) (distance xs (y ∷ ys) + 1)
      (distance xs ys + cost x y)).0,
)

cost-le-one : (c d : Char) → cost c d ≤ 1
cost-le-one c d = ground arith

cost_self : (c : Char) → cost c c ≡ 0
cost_self c = ground arith

distance-change-le :
    (x y : Char) (xs ys : List Char) → distance (x ∷ xs) (y ∷ ys) ≤ distance xs ys + cost x y
unfolding distance
distance-change-le x y xs ys =
    (min_ints_bounds (distance (x ∷ xs) ys + 1) (distance xs (y ∷ ys) + 1)
      (distance xs ys + cost x y)).2

-- No script has fewer edits.
pub distance-le : {xs ys : List Char} {n : ℕ} → Script xs ys n → distance xs ys ≤ n
distance-le done = unfold distance in omega arith
distance-le (keep {c} {xs} {ys} s) =
    omega (arith, distance-change-le c c xs ys, cost_self c, distance-le s)
distance-le (change {c} {d} {xs} {ys} s) =
    omega (arith, distance-change-le c d xs ys, cost-le-one c d, distance-le s)
distance-le (remove {c} {xs} {ys} s) = omega (arith, distance-drop-le c xs ys, distance-le s)
distance-le (add {d} {xs} {ys} s) = omega (arith, distance-add-le d xs ys, distance-le s)

recount : {xs ys : List Char} {n k : ℕ} → n ≡ k → Script xs ys n → Script xs ys k
recount {xs} {ys} e s = subst (Script xs ys) e s

add_all : (ys : List Char) → Script [] ys (length ys)
add_all [] = done
add_all (y ∷ ys) = add (add_all ys)

remove_all : (xs : List Char) → Script xs [] (length xs)
remove_all [] = done
remove_all (x ∷ xs) = remove (remove_all xs)

match_or_change :
    (x y : Char) (xs ys : List Char) {n : ℕ}
    → Script xs ys n
    → Script (x ∷ xs) (y ∷ ys) (n + cost x y)
match_or_change x y xs ys {n} s = elim (Bool-cases (nat_eq (code x) (code y))) [
  | inl e ↦ rw e (
      subst (λ z. Script (x ∷ xs) (z ∷ ys) (n + 0))
        (Char-path x y ((nat_eq_iff (code x) (code y)).0 e)) (recount (omega arith) (keep s)))
  | inr e ↦ rw e (recount (omega arith) (change s))
]

-- Some script has so many.
pub distance-Script : (xs ys : List Char) → Script xs ys (distance xs ys)
unfolding distance
distance-Script [] ys = add_all ys
distance-Script (x ∷ xs) [] = remove_all (x ∷ xs)
distance-Script (x ∷ xs) (y ∷ ys) =
    let left = distance-Script (x ∷ xs) ys in
    let up = distance-Script xs (y ∷ ys) in
    let both = distance-Script xs ys in
    elim (min_ints_cases (distance (x ∷ xs) ys + 1) (distance xs (y ∷ ys) + 1)
      (distance xs ys + cost x y)) [
        | inl e ↦ recount (omega arith) (add left)
        | inr (inl e) ↦ recount (omega arith) (remove up)
        | inr (inr e) ↦ recount (sym e) (match_or_change x y xs ys both)
      ]
