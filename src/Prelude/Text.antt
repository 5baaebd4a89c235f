-- ===== src/Prelude/Text.antt =====
-- The operations of Go's `strings` that the program uses, over the native texts, and what it takes
-- of the tables of package `unicode`.
use Prim.Native.Nat.{ℕ, ◌+◌}
use Prim.Native.Char.{Char, code, len_utf8}
use Prim.Native.String.{String, ◌++◌}
use mathlib.Core.Bool.{Bool, true, false, ◌&&◌, ◌||◌}
use mathlib.Core.List.{List}
use code_co_driver.Prelude.Tests.{leb, nat_eq, if◌then◌else◌}

-- The tables of package `unicode`.
pub record Unicode : Type 0 where
  pub to_lower : Char → Char
  pub to_upper : Char → Char
  pub is_letter : Char → Bool
  pub is_number : Char → Bool
  pub is_han : Char → Bool

-- `unicode.IsSpace`
unfoldable pub is_space : Char → Bool
is_space c =
    (leb 9 (code c) && leb (code c) 13)
    || nat_eq (code c) 32
    || nat_eq (code c) 0x85
    || nat_eq (code c) 0xA0
    || nat_eq (code c) 0x1680
    || (leb 0x2000 (code c) && leb (code c) 0x200a)
    || nat_eq (code c) 0x2028
    || nat_eq (code c) 0x2029
    || nat_eq (code c) 0x202f
    || nat_eq (code c) 0x205f
    || nat_eq (code c) 0x3000

abbrev pub is_empty : String → Bool
is_empty String.[] = true
is_empty (String.◌∷◌ c s) = false

unfoldable pub trim_left : String → String
trim_left String.[] = String.[]
trim_left (String.◌∷◌ c s) = if is_space c then trim_left s else String.◌∷◌ c s

unfoldable pub trim_right : String → String
trim_right String.[] = String.[]
trim_right (String.◌∷◌ c s) =
    let rest = trim_right s in if is_empty rest && is_space c then String.[] else String.◌∷◌ c rest

-- `strings.TrimSpace`
unfoldable pub trim_space : String → String
unfolding trim_left trim_right is_space
trim_space s = trim_right (trim_left s)

-- `strings.ToLower`
unfoldable pub to_lower : Unicode → String → String
to_lower u String.[] = String.[]
to_lower u (String.◌∷◌ c s) = String.◌∷◌ (u.to_lower c) (to_lower u s)

-- `strings.HasPrefix`
unfoldable pub has_prefix : String → String → Bool
has_prefix s String.[] = true
has_prefix String.[] (String.◌∷◌ d t) = false
has_prefix (String.◌∷◌ c s) (String.◌∷◌ d t) = nat_eq (code c) (code d) && has_prefix s t

-- `strings.Contains`
unfoldable pub contains : String → String → Bool
unfolding has_prefix
contains String.[] t = has_prefix String.[] t
contains (String.◌∷◌ c s) t = has_prefix (String.◌∷◌ c s) t || contains s t

-- `strings.Join`
unfoldable pub join : List String → String → String
join List.[] sep = String.[]
join (List.◌∷◌ s List.[]) sep = s
join (List.◌∷◌ s (List.◌∷◌ t ts)) sep = s ++ (sep ++ join (List.◌∷◌ t ts) sep)

-- `len`: the bytes of a text
unfoldable pub byte_length : String → ℕ
byte_length String.[] = 0
byte_length (String.◌∷◌ c s) = len_utf8 c + byte_length s

-- The fields of a text between characters that pass `separator`, in order and none empty. The
-- result is the field that is being read, and the fields behind it.
split_fields : (Char → Bool) → String → String × List String
split_fields separator String.[] = (String.[], List.[])
split_fields separator (String.◌∷◌ c s) =
    let (field, rest) = split_fields separator s in
    if separator c
    then (String.[], (if is_empty field then rest else List.◌∷◌ field rest))
    else (String.◌∷◌ c field, rest)

-- `strings.FieldsFunc`
unfoldable pub fields_func : (Char → Bool) → String → List String
unfolding split_fields
fields_func separator s =
    let (field, rest) = split_fields separator s in
    if is_empty field then rest else List.◌∷◌ field rest

-- `strings.Fields`
unfoldable pub fields : String → List String
unfolding fields_func is_space
fields s = fields_func is_space s
