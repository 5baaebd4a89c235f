-- ===== src/Prelude/Members.antt =====
-- Whether a text stands in a list of texts.
use Prim.Native.String.{String}
use mathlib.Core.Path.{◌≡◌, refl, sym}
use mathlib.Core.Bool.{Bool, false, ◌||◌}
use mathlib.Core.Logic.{◌≢◌, inl, inr}
use mathlib.Core.List.{List, [], ◌∷◌, ◌++◌}
use native.Mathlib.Omega.{arith}
use text.Mathlib.Text.{◌==◌}
use text.Mathlib.TextEquality.{eq_iff}
use code_co_driver.Prelude.Tests.{Bool-cases}
use code_co_driver.Prelude.Lists.{All, IsDistinct, All-append}

abbrev pub has_text : String → List String → Bool
has_text token [] = false
has_text token (t ∷ ts) = t == token || has_text token ts

pub has_text-append :
    (x y : String) (ts : List String) → has_text x (ts ++ y ∷ []) ≡ (y == x || has_text x ts)
has_text-append x y [] = refl
has_text-append x y (t ∷ ts) = ground (arith, has_text-append x y ts)

pub not-has_text :
    (token : String) (ts : List String) → has_text token ts ≡ false → All (λ t. t ≢ token) ts
not-has_text token [] h = tt
not-has_text token (t ∷ ts) h =
    let other : t ≢ token = ground (arith, eq_iff t token) in
    (other, not-has_text token ts (ground arith))

pub has_text-false :
    (token : String) (ts : List String) → All (λ t. token ≢ t) ts → has_text token ts ≡ false
has_text-false token [] h = refl
has_text-false token (t ∷ ts) h = elim (Bool-cases (t == token)) [
  | inl e ↦ absurd (h.0 (sym ((eq_iff t token).0 e)))
  | inr e ↦ rw e (has_text-false token ts h.1)
]

pub IsDistinct-append_new :
    (token : String) (ts : List String)
    → IsDistinct ts
    → All (λ t. t ≢ token) ts
    → IsDistinct (ts ++ token ∷ [])
IsDistinct-append_new token [] d n = (tt, tt)
IsDistinct-append_new token (t ∷ ts) d n =
    (All-append (λ y. t ≢ y) ts (token ∷ []) d.0 (n.0, tt), IsDistinct-append_new token ts d.1 n.1)
