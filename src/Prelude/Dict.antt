-- ===== src/Prelude/Dict.antt =====
-- Go's `map[string]V`, as an association list with one entry for each key. The program sorts what
-- it reads by a range loop, so the order of the entries carries no meaning.
use Prim.Native.String.{String}
use mathlib.Core.Path.{◌≡◌, refl}
use mathlib.Core.Option.{Option, none, some}
use mathlib.Core.List.{List, [], ◌∷◌}
use native.Mathlib.Omega.{arith}
use text.Mathlib.Text.{◌==◌}
use text.Mathlib.TextEquality.{eq_iff}
use text.Mathlib.TextPositions.{eq_refl}
use code_co_driver.Prelude.Tests.{if◌then◌else◌}

abbrev pub Dict {ℓ} : Type ℓ → Type ℓ
Dict V = List (String × V)

module _ {ℓ} {V : Type ℓ} where
  -- `v, ok := m[k]`
  unfoldable pub get : Dict V → String → Option V
  get [] k = none
  get ((j, v) ∷ m) k = if j == k then some v else get m k

  -- `m[k] = v`
  unfoldable pub put : Dict V → String → V → Dict V
  put [] k v = (k, v) ∷ []
  put ((j, w) ∷ m) k v = if j == k then (k, v) ∷ m else (j, w) ∷ put m k v

  -- `delete(m, k)`
  unfoldable pub delete : Dict V → String → Dict V
  delete [] k = []
  delete ((j, w) ∷ m) k = let rest = delete m k in if j == k then rest else (j, w) ∷ rest

  -- `m[k]`, with the zero value of a missing key
  unfoldable pub get_or : Dict V → String → V → V
  get_or [] k z = z
  get_or ((j, v) ∷ m) k z = if j == k then v else get_or m k z

  abbrev pub values : Dict V → List V
  values [] = []
  values ((j, v) ∷ m) = v ∷ values m

  pub get-put :
      (m : Dict V) (k j : String) (v : V) → get (put m k v) j ≡ (if k == j then some v else get m j)
  unfolding get put
  get-put [] k j v = refl
  get-put ((i, w) ∷ m) k j v = ground (arith, eq_iff k j, eq_iff i k, eq_iff i j, get-put m k j v)

  pub get_or-put :
      (m : Dict V) (k j : String) (v z : V)
      → get_or (put m k v) j z ≡ (if k == j then v else get_or m j z)
  unfolding get_or put
  get_or-put [] k j v z = refl
  get_or-put ((i, w) ∷ m) k j v z =
      ground (arith, eq_iff k j, eq_iff i k, eq_iff i j, get_or-put m k j v z)

  pub get-delete :
      (m : Dict V) (k j : String) → get (delete m k) j ≡ (if k == j then none else get m j)
  unfolding get delete
  get-delete [] k j = ground arith
  get-delete ((i, w) ∷ m) k j = ground (arith, eq_iff k j, eq_iff i k, eq_iff i j, get-delete m k j)

  pub get_or-delete :
      (m : Dict V) (k j : String) (z : V)
      → get_or (delete m k) j z ≡ (if k == j then z else get_or m j z)
  unfolding get_or delete
  get_or-delete [] k j z = ground arith
  get_or-delete ((i, w) ∷ m) k j z =
      ground (arith, eq_iff k j, eq_iff i k, eq_iff i j, get_or-delete m k j z)

pub ruleset dict_laws = (get-put, get_or-put, get-delete, get_or-delete, eq_refl)
