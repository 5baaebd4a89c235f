-- ===== src/Lease/Tokens.antt =====
-- internal/lease/redis.go: `ParseToken`, which reads the token at the end of a lease's value, with
-- `strconv.ParseInt` in base 10 and 64 bits as it reads a text.
use code_co_driver.Prelude.{
  ltb, leb, nat_eq, ltb→lt, Bool-cases, if◌then◌else◌, ℕ, zero, suc, ◌+◌, ◌-◌, ◌*◌, ◌/◌, ◌%◌, ◌<◌,
  String, ◌≡◌, refl, sym, ap, ◌∙◌, inl, inr, false, ◌||◌, Option, none, some, arith,
}
use Prim.Native.Char.{code}
use code_co_driver.Prelude.Integers.{ℤ, pos, negsuc}
use code_co_driver.Prelude.Decimal.{digit, decimal_from, decimal, numbered}
use code_co_driver.Prelude.Decimal.Injective.{
  code-digit, has_mark, after_mark, has_mark-decimal_from, has_mark-append, after_mark-append,
}
use code_co_driver.Lease.{lease_value}

unfoldable pub negated : ℕ → ℤ
negated zero = pos 0
negated (suc n) = negsuc n

-- The digits of an unsigned number behind `n`: nothing for another character, and the greatest
-- number as soon as it would be passed.
unfoldable pub parse_digits : ℕ → String → Option ℕ
parse_digits n String.[] = some n
parse_digits n (String.◌∷◌ c s) =
    let next = n * 10 + (code c - 48) in
    let rest = parse_digits next s in
    if ltb (code c) 48 || ltb 57 (code c)
    then none
    else if ltb 18446744073709551615 next
    then some 18446744073709551615
    else rest

-- A number within 64 bits; 0 for a text that is none.
unfoldable pub positive : Option ℕ → ℤ
positive none = pos 0
positive (some n) = if ltb n 9223372036854775808 then pos n else pos 9223372036854775807

unfoldable pub negative : Option ℕ → ℤ
unfolding negated
negative none = pos 0
negative (some n) = if leb n 9223372036854775808 then negated n else negated 9223372036854775808

-- The number that `ParseInt` answers, with an error or without.
unfoldable pub parse_int : String → ℤ
unfolding positive negative parse_digits
parse_int String.[] = pos 0
parse_int (String.◌∷◌ c s) =
    if nat_eq (code c) 45
    then negative (parse_digits 0 s)
    else if nat_eq (code c) 43
    then positive (parse_digits 0 s)
    else positive (parse_digits 0 (String.◌∷◌ c s))

-- `ParseToken`
unfoldable pub parse_token : String → ℤ
unfolding has_mark after_mark parse_int
parse_token value = if has_mark ":" value then parse_int (after_mark ":" value) else pos 0

parse_digits-digit :
    (n d : ℕ) (s : String)
    → d < 10
    → n * 10 + d < 9223372036854775808
    → parse_digits n (String.◌∷◌ (digit d) s) ≡ parse_digits (n * 10 + d) s
unfolding parse_digits
parse_digits-digit n d s h k = rw (code-digit d h) (
    let back : n * 10 + (48 + d - 48) ≡ n * 10 + d = omega arith in
    let low : ltb (48 + d) 48 || ltb 57 (48 + d) ≡ false = ground arith in
    let small : ltb 18446744073709551615 (n * 10 + d) ≡ false = ground arith in
    rw (low, back, small) refl)

parse_digits-decimal_from :
    (fuel n : ℕ) (rest : String)
    → n < fuel
    → n < 9223372036854775808
    → parse_digits 0 (decimal_from fuel n rest) ≡ parse_digits n rest
unfolding decimal_from
parse_digits-decimal_from zero n rest h k = absurd (omega arith)
parse_digits-decimal_from (suc fuel) n rest h k = elim (Bool-cases (ltb n 10)) [
  | inl small ↦ rw small (
      parse_digits-digit 0 n rest (ltb→lt n 10 small) (omega arith)
      ∙ ap (λ m. parse_digits m rest) (omega arith))
  | inr large ↦ rw large (
      parse_digits-decimal_from fuel (n / 10) _ (ground arith) (omega arith)
      ∙ parse_digits-digit (n / 10) (n % 10) rest (omega arith) (omega arith)
      ∙ ap (λ m. parse_digits m rest) (omega arith))
]

-- A number begins with a digit.
decimal_from-cons :
    (fuel n : ℕ) (rest : String)
    → n < fuel
    → (d : ℕ) × (s : String) × (d < 10) × (decimal_from fuel n rest ≡ String.◌∷◌ (digit d) s)
unfolding decimal_from
decimal_from-cons zero n rest h = absurd (omega arith)
decimal_from-cons (suc fuel) n rest h = elim (Bool-cases (ltb n 10)) [
  | inl small ↦ (n, rest, ltb→lt n 10 small, rw small refl)
  | inr large ↦ rw large (decimal_from-cons fuel (n / 10) _ (ground arith))
]

parse_int-digit :
    (d : ℕ) (s : String)
    → d < 10
    → parse_int (String.◌∷◌ (digit d) s) ≡ positive (parse_digits 0 (String.◌∷◌ (digit d) s))
unfolding parse_int
parse_int-digit d s h =
    let minus : nat_eq (code (digit d)) 45 ≡ false = ground (arith, code-digit d h) in
    let plus : nat_eq (code (digit d)) 43 ≡ false = ground (arith, code-digit d h) in
    rw (minus, plus) refl

parse_int-decimal : (n : ℕ) → n < 9223372036854775808 → parse_int (decimal n) ≡ positive (some n)
unfolding decimal parse_digits
parse_int-decimal n h =
    let (d, s, small, e) = decimal_from-cons (suc n) n "" (omega arith) in
    ap parse_int e
    ∙ parse_int-digit d s small
    ∙ ap (λ t. positive (parse_digits 0 t)) (sym e)
    ∙ ap positive (parse_digits-decimal_from (suc n) n "" (omega arith) h)

-- `ParseToken` reads back the token that `TryClaim` wrote into the value of a lease, whatever the
-- worker is called, if the token fits the 64 bits that it has in the source.
pub parse_token-lease_value :
    (worker_id : String) (token : ℕ)
    → token < 9223372036854775808
    → parse_token (lease_value worker_id token) ≡ pos token
unfolding parse_token lease_value numbered positive decimal has_mark
parse_token-lease_value worker_id token h =
    rw
      (
        has_mark-append ":" (omega arith) worker_id (decimal token),
        after_mark-append ":" (omega arith) worker_id (decimal token)
            (has_mark-decimal_from ":" (omega arith) (suc token) token ""),
        parse_int-decimal token h,
      )
      (ground arith)
