-- ===== src/Prelude/Decimal/Injective.antt =====
-- A text that ends in a separator and a number determines its parts.
use Prim.Native.Char.{Char, code}
use Prim.Native.String.{String, ◌++◌ as append}
use Prim.Native.Nat.{ℕ, zero, suc, ◌+◌, ◌-◌, ◌*◌, ◌/◌, ◌%◌, ◌<◌}
use mathlib.Core.Path.{◌≡◌, refl, sym, ap, ◌∙◌}
use mathlib.Core.Bool.{Bool, true, false, ◌||◌}
use mathlib.Core.Logic.{◌⊎◌, inl, inr}
use native.Mathlib.Omega.{arith}
use text.Mathlib.TextLemmas.{nil-append, cons-append, append_cancel_right}
use code_co_driver.Prelude.Tests.{ltb, nat_eq, ltb→lt, Bool-cases, if◌then◌else◌}
use code_co_driver.Prelude.Decimal.{digit, decimal_from, decimal, numbered}

-- The number that a row of digits continues.
value_from : ℕ → String → ℕ
value_from n String.[] = n
value_from n (String.◌∷◌ c s) = value_from (n * 10 + (code c - 48)) s

pub code-digit : (d : ℕ) → d < 10 → code (digit d) ≡ 48 + d
unfolding digit
code-digit zero h = refl
code-digit (suc zero) h = refl
code-digit (suc (suc zero)) h = refl
code-digit (suc (suc (suc zero))) h = refl
code-digit (suc (suc (suc (suc zero)))) h = refl
code-digit (suc (suc (suc (suc (suc zero))))) h = refl
code-digit (suc (suc (suc (suc (suc (suc zero)))))) h = refl
code-digit (suc (suc (suc (suc (suc (suc (suc zero))))))) h = refl
code-digit (suc (suc (suc (suc (suc (suc (suc (suc zero)))))))) h = refl
code-digit (suc (suc (suc (suc (suc (suc (suc (suc (suc zero))))))))) h = refl
code-digit (suc (suc (suc (suc (suc (suc (suc (suc (suc (suc d)))))))))) h = absurd (omega arith)

value_from-digit :
    (n d : ℕ) (s : String)
    → d < 10
    → value_from n (String.◌∷◌ (digit d) s) ≡ value_from (n * 10 + d) s
unfolding value_from
value_from-digit n d s h = ap (λ k. value_from k s) (omega (arith, code-digit d h))

value_from-decimal_from :
    (fuel n : ℕ) (rest : String)
    → n < fuel
    → value_from 0 (decimal_from fuel n rest) ≡ value_from n rest
unfolding decimal_from
value_from-decimal_from zero n rest h = absurd (omega arith)
value_from-decimal_from (suc fuel) n rest h = elim (Bool-cases (ltb n 10)) [
  | inl small ↦
      rw small
        (value_from-digit 0 n rest (ltb→lt n 10 small) ∙ ap (λ k. value_from k rest) (omega arith))
  | inr large ↦ rw large (
      value_from-decimal_from fuel (n / 10) _ (ground arith)
      ∙ value_from-digit (n / 10) (n % 10) rest (omega arith)
      ∙ ap (λ k. value_from k rest) (omega arith))
]

unfoldable pub has_mark : Char → String → Bool
has_mark k String.[] = false
has_mark k (String.◌∷◌ c s) = nat_eq (code c) (code k) || has_mark k s

-- What stands behind the last mark.
unfoldable pub after_mark : Char → String → String
after_mark k String.[] = ""
after_mark k (String.◌∷◌ c s) = let rest = after_mark k s in if has_mark k s then rest else s

-- The character is no digit.
abbrev pub NotDigit : Char → Type 0
NotDigit k = (code k < 48) ⊎ (57 < code k)

module _ (k : Char) (apart : NotDigit k) where
  digit-ne-mark : (d : ℕ) → d < 10 → nat_eq (code (digit d)) (code k) ≡ false
  digit-ne-mark d h = ground (arith, code-digit d h)

  pub has_mark-decimal_from :
      (fuel n : ℕ) (rest : String) → has_mark k (decimal_from fuel n rest) ≡ has_mark k rest
  unfolding decimal_from has_mark
  has_mark-decimal_from zero n rest = refl
  has_mark-decimal_from (suc fuel) n rest = elim (Bool-cases (ltb n 10)) [
    | inl small ↦ rw small (rw (digit-ne-mark n (ltb→lt n 10 small)))
    | inr large ↦
        rw (large, has_mark-decimal_from fuel (n / 10)) (rw (digit-ne-mark (n % 10) (omega arith)))
  ]

  pub has_mark-append : (p d : String) → has_mark k (append p (String.◌∷◌ k d)) ≡ true
  unfolding has_mark
  has_mark-append String.[] d = rw nil-append (ground arith)
  has_mark-append (String.◌∷◌ c p) d = rw cons-append (ground (arith, has_mark-append p d))

  pub after_mark-append :
      (p d : String) → has_mark k d ≡ false → after_mark k (append p (String.◌∷◌ k d)) ≡ d
  unfolding after_mark
  after_mark-append String.[] d h = rw (nil-append, h)
  after_mark-append (String.◌∷◌ c p) d h =
      rw cons-append (rw (has_mark-append p d) (after_mark-append p d h))

  -- Such a text determines its parts, whatever separators the first part holds.
  pub numbered_injective :
      (p q : String) (n m : ℕ) → numbered k p n ≡ numbered k q m → (p ≡ q) × (n ≡ m)
  unfolding numbered has_mark value_from
  numbered_injective p q n m e =
      (append_cancel_right p q _ (e ∙ ap (λ d. append q (String.◌∷◌ k d)) (sym digits)), number)
    where
      digits : decimal n ≡ decimal m
      digits =
          sym (after_mark-append p (decimal n) (has_mark-decimal_from (suc n) n ""))
          ∙ ap (after_mark k) e
          ∙ after_mark-append q (decimal m) (has_mark-decimal_from (suc m) m "")

      number : n ≡ m
      number =
          sym (value_from-decimal_from (suc n) n "" (omega arith))
          ∙ ap (value_from 0) digits
          ∙ value_from-decimal_from (suc m) m "" (omega arith)
