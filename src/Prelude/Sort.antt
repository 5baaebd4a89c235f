-- ===== src/Prelude/Sort.antt =====
-- `sort.SliceStable`: a stable insertion sort by a Boolean `less`. `sort.Slice` over the values of
-- a map is the same function: there the order of equal entries is not determined by the source.
use code_co_driver.Prelude.Tests.{if◌then◌else◌, Bool-cases}
use code_co_driver.Prelude.Lists.{length, take, count, All}
use Prim.Native.Nat.{ℕ, zero, suc}
use mathlib.Core.Path.{◌≡◌, refl, ap, ◌∙◌}
use mathlib.Core.Bool.{Bool, true, false}
use mathlib.Core.Logic.{inl, inr}
use mathlib.Core.List.{List, [], ◌∷◌, map}
use native.Mathlib.Omega.{arith}

module _ {ℓ} {A : Type ℓ} (less : A → A → Bool) where
  -- Puts `x` before the first entry that is not less than it.
  unfoldable pub insert : A → List A → List A
  insert x [] = x ∷ []
  insert x (y ∷ ys) = let rest = insert x ys in if less y x then y ∷ rest else x ∷ y ∷ ys

  unfoldable pub sort : List A → List A
  unfolding insert
  sort [] = []
  sort (x ∷ xs) = insert x (sort xs)

  length-insert : (x : A) (xs : List A) → length (insert x xs) ≡ suc (length xs)
  unfolding insert
  length-insert x [] = refl
  length-insert x (y ∷ ys) = ground (arith, length-insert x ys)

  pub length-sort : (xs : List A) → length (sort xs) ≡ length xs
  unfolding sort
  length-sort [] = refl
  length-sort (x ∷ xs) = omega (arith, length-insert x (sort xs), length-sort xs)

  count-insert : (p : A → Bool) (x : A) (xs : List A) → count p (insert x xs) ≡ count p (x ∷ xs)
  unfolding insert
  count-insert p x [] = refl
  count-insert p x (y ∷ ys) = ground (arith, count-insert p x ys)

  -- Sorting neither loses nor makes up an entry: it keeps the number that pass any test.
  pub count-sort : (p : A → Bool) (xs : List A) → count p (sort xs) ≡ count p xs
  unfolding sort
  count-sort p [] = refl
  count-sort p (x ∷ xs) = omega (arith, count-insert p x (sort xs), count-sort p xs)

  All-insert {κ} : (P : A → Type κ) (x : A) (xs : List A) → P x → All P xs → All P (insert x xs)
  unfolding insert
  All-insert P x [] h k = (h, k)
  All-insert P x (y ∷ ys) h k = elim (Bool-cases (less y x)) [
    | inl e ↦ rw e (k.0, All-insert P x ys h k.1)
    | inr e ↦ rw e (h, k)
  ]

  pub All-sort {κ} : (P : A → Type κ) (xs : List A) → All P xs → All P (sort xs)
  unfolding sort
  All-sort P [] h = h
  All-sort P (x ∷ xs) h = All-insert P x (sort xs) h.0 (All-sort P xs h.1)

  -- No entry is less than the one before it.
  abbrev pub IsSorted : List A → Type 0
  IsSorted [] = Unit
  IsSorted (x ∷ []) = Unit
  IsSorted (x ∷ y ∷ ys) = (less y x ≡ false) × IsSorted (y ∷ ys)

  -- If `less` is asymmetric, the result of the insertion is sorted.
  module _ (asym : (x y : A) → less x y ≡ true → less y x ≡ false) where
    insert_behind-IsSorted :
        (x y : A) (ys : List A)
        → less x y ≡ false
        → IsSorted (y ∷ ys)
        → IsSorted (insert x ys)
        → IsSorted (y ∷ insert x ys)
    unfolding insert
    insert_behind-IsSorted x y [] e h k = (e, tt)
    insert_behind-IsSorted x y (z ∷ zs) e h k = elim (Bool-cases (less z x)) [
      | inl f ↦ rw f (h.0, (rw f at k))
      | inr f ↦ rw f (e, (f, h.1))
    ]

    insert-IsSorted : (x : A) (xs : List A) → IsSorted xs → IsSorted (insert x xs)
    unfolding insert
    insert-IsSorted x [] h = tt
    insert-IsSorted x (y ∷ ys) h = elim (Bool-cases (less y x)) [
      | inl e ↦
          rw e (insert_behind-IsSorted x y ys (asym y x e) h (insert-IsSorted x ys (tail y ys h)))
      | inr e ↦ rw e (e, h)
    ]
      where
        tail : (y : A) (ys : List A) → IsSorted (y ∷ ys) → IsSorted ys
        tail y [] h = tt
        tail y (z ∷ zs) h = h.1

    pub sort-IsSorted : (xs : List A) → IsSorted (sort xs)
    unfolding sort
    sort-IsSorted [] = tt
    sort-IsSorted (x ∷ xs) = insert-IsSorted x (sort xs) (sort-IsSorted xs)

module _ {ℓ κ} {A : Type ℓ} {B : Type κ} (less : B → B → Bool) (g : A → B) where
  map-insert :
      (x : A) (xs : List A)
      → map g (insert (λ a b. less (g a) (g b)) x xs) ≡ insert less (g x) (map g xs)
  unfolding insert
  map-insert x [] = refl
  map-insert x (y ∷ ys) = elim (Bool-cases (less (g y) (g x))) [
    | inl e ↦ rw e (ap (λ zs. g y ∷ zs) (map-insert x ys))
    | inr e ↦ rw e refl
  ]

  -- To sort by what `g` answers and to sort its answers is the same.
  pub map-sort : (xs : List A) → map g (sort (λ a b. less (g a) (g b)) xs) ≡ sort less (map g xs)
  unfolding sort
  map-sort [] = refl
  map-sort (x ∷ xs) =
      map-insert x (sort (λ a b. less (g a) (g b)) xs) ∙ ap (insert less (g x)) (map-sort xs)

pub IsSorted-map {ℓ κ} :
    {A : Type ℓ} {B : Type κ} (less : B → B → Bool) (f : A → B) (xs : List A)
    → IsSorted (λ a b. less (f a) (f b)) xs
    → IsSorted less (map f xs)
IsSorted-map less f [] h = tt
IsSorted-map less f (x ∷ []) h = tt
IsSorted-map less f (x ∷ y ∷ ys) h = (h.0, IsSorted-map less f (y ∷ ys) h.1)

pub IsSorted-take {ℓ} :
    {A : Type ℓ} (less : A → A → Bool) (n : ℕ) (xs : List A)
    → IsSorted less xs
    → IsSorted less (take n xs)
IsSorted-take less zero xs h = tt
IsSorted-take less (suc n) [] h = tt
IsSorted-take less (suc zero) (x ∷ []) h = tt
IsSorted-take less (suc (suc n)) (x ∷ []) h = tt
IsSorted-take less (suc zero) (x ∷ y ∷ ys) h = tt
IsSorted-take less (suc (suc n)) (x ∷ y ∷ ys) h = (h.0, IsSorted-take less (suc n) (y ∷ ys) h.1)
