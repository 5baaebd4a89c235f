-- ===== src/Prelude/Slices.antt =====
-- The operations of Go's `strings` that cut texts: prefixes and suffixes, splitting and replacing.
use Prim.Native.Nat.{ℕ, zero, suc, ◌-◌, Ordering}
use Prim.Native.Char.{Char, code, len_utf8}
use Prim.Native.String.{String, compare}
use mathlib.Core.Bool.{Bool, true, false, ◌&&◌, ◌||◌}
use mathlib.Core.Option.{Option, none, some}
use mathlib.Core.List.{List}
use text.Mathlib.Text.{◌==◌}
use mathlib.Core.Path.{◌≡◌, refl}
use code_co_driver.Prelude.Tests.{leb, nat_eq, if◌then◌else◌}
use code_co_driver.Prelude.Text.{has_prefix, is_empty, join, Unicode}

-- How many characters a text has.
abbrev pub size : String → ℕ
size String.[] = 0
size (String.◌∷◌ c s) = suc (size s)

-- What follows a prefix, where the text has it.
unfoldable pub after_prefix : String → String → Option String
after_prefix s String.[] = some s
after_prefix String.[] (String.◌∷◌ d t) = none
after_prefix (String.◌∷◌ c s) (String.◌∷◌ d t) =
    if nat_eq (code c) (code d) then after_prefix s t else none

-- `strings.TrimPrefix`
unfoldable pub trim_prefix : String → String → String
unfolding after_prefix
trim_prefix s t = elim (after_prefix s t) [ none ↦ s | some r ↦ r ]

-- `strings.HasSuffix`
unfoldable pub has_suffix : String → String → Bool
has_suffix String.[] t = is_empty t
has_suffix (String.◌∷◌ c s) t = String.◌∷◌ c s == t || has_suffix s t

-- `strings.TrimSuffix`
unfoldable pub trim_suffix : String → String → String
trim_suffix String.[] t = String.[]
trim_suffix (String.◌∷◌ c s) t =
    if String.◌∷◌ c s == t then String.[] else String.◌∷◌ c (trim_suffix s t)

-- `strings.Cut`: what stands before the first occurrence, and what stands behind it.
unfoldable pub cut : String → String → Option (String × String)
unfolding after_prefix
cut String.[] t = elim (after_prefix String.[] t) [ none ↦ none | some r ↦ some (String.[], r) ]
cut (String.◌∷◌ c s) t =
    let rest = cut s t in
    elim (after_prefix (String.◌∷◌ c s) t) [
      | none ↦ elim rest [ none ↦ none | some (l, r) ↦ some (String.◌∷◌ c l, r) ]
      | some r ↦ some (String.[], r)
    ]

-- The same at the last occurrence.
unfoldable pub cut_last : String → String → Option (String × String)
unfolding after_prefix
cut_last String.[] t = elim (after_prefix String.[] t) [
  | none ↦ none
  | some r ↦ some (String.[], r)
]
cut_last (String.◌∷◌ c s) t = elim (cut_last s t) [
  | some (l, r) ↦ some (String.◌∷◌ c l, r)
  | none ↦ elim (after_prefix (String.◌∷◌ c s) t) [ none ↦ none | some r ↦ some (String.[], r) ]
]

-- The pieces of a text between the occurrences of a separator, `skip` characters of which are still
-- to be passed: the piece that is being read, and those behind it.
unfoldable pub split_from : String → ℕ → String → String × List String
unfolding has_prefix
split_from sep skip String.[] = (String.[], List.[])
split_from sep (suc skip) (String.◌∷◌ c s) = split_from sep skip s
split_from sep zero (String.◌∷◌ c s) =
    let (piece, pieces) = split_from sep (size sep - 1) s in
    let (longer, rest) = split_from sep zero s in
    if has_prefix (String.◌∷◌ c s) sep
    then (String.[], List.◌∷◌ piece pieces)
    else (String.◌∷◌ c longer, rest)

-- `strings.Split`, for a separator that is not empty.
unfoldable pub split : String → String → List String
unfolding split_from
split s sep = let (piece, pieces) = split_from sep zero s in List.◌∷◌ piece pieces

-- `strings.ReplaceAll`, for a text that is not empty.
unfoldable pub replace_all : String → String → String → String
unfolding split join
replace_all s old new = join (split s old) new

-- `strings.Trim` by a cut set.
unfoldable pub trim_left_of : (Char → Bool) → String → String
trim_left_of p String.[] = String.[]
trim_left_of p (String.◌∷◌ c s) = if p c then trim_left_of p s else String.◌∷◌ c s

unfoldable pub trim_right_of : (Char → Bool) → String → String
trim_right_of p String.[] = String.[]
trim_right_of p (String.◌∷◌ c s) =
    let rest = trim_right_of p s in if is_empty rest && p c then String.[] else String.◌∷◌ c rest

unfoldable pub in_set : String → Char → Bool
in_set String.[] c = false
in_set (String.◌∷◌ d t) c = nat_eq (code d) (code c) || in_set t c

unfoldable pub trim : String → String → String
unfolding trim_left_of trim_right_of in_set
trim s cutset = trim_right_of (in_set cutset) (trim_left_of (in_set cutset) s)

-- `strings.ToUpper`
unfoldable pub to_upper : Unicode → String → String
to_upper u String.[] = String.[]
to_upper u (String.◌∷◌ c s) = String.◌∷◌ (u.to_upper c) (to_upper u s)

-- `a < b` on texts.
abbrev pub text_lt : String → String → Bool
text_lt a b = elim (compare a b) [ Ordering.lt ↦ true | _ ↦ false ]

-- `len(s) - n` bytes from the end: `s[n:]`, or `none` where it panics. A slice that cuts a character
-- has U+FFFD in the place of the character's rest.
unfoldable pub from_byte : ℕ → String → Option String
from_byte zero s = some s
from_byte (suc n) String.[] = none
from_byte (suc n) (String.◌∷◌ c s) =
    let rest = from_byte (suc n - len_utf8 c) s in
    if leb (len_utf8 c) (suc n) then rest else some (String.◌∷◌ "�" s)

-- `s[:n]` for texts that are at least so long, with the same convention.
unfoldable pub to_byte : ℕ → String → String
to_byte zero s = String.[]
to_byte (suc n) String.[] = String.[]
to_byte (suc n) (String.◌∷◌ c s) =
    let rest = to_byte (suc n - len_utf8 c) s in
    if leb (len_utf8 c) (suc n) then String.◌∷◌ c rest else String.◌∷◌ "�" String.[]

replace_runs : replace_all "a\\b\\c" "\\" "/" ≡ "a/b/c"
unfolding replace_all
replace_runs = refl
