-- ===== src/Store/Ids/Distinct.antt =====
-- internal/store/memory.go, `ID`: no id is handed out twice.
use code_co_driver.Prelude.{
  All, IsDistinct, All-map_weaken, ℕ, ◌+◌, ◌<◌, String, ◌≡◌, refl, ◌∙◌, ◌≢◌, List, [], ◌∷◌, arith,
  eq_iff,
}
use code_co_driver.Prelude.Dict.{get_or, get_or-put}
use code_co_driver.Prelude.Decimal.Injective.{numbered_injective}
use code_co_driver.Store.State.{Memory}
use code_co_driver.Store.Ids.{id_text, id, ids}

-- The text of an id determines its prefix and its number, whatever dashes the prefix holds.
id_text_injective : (p q : String) (n k : ℕ) → id_text p n ≡ id_text q k → (p ≡ q) × (n ≡ k)
unfolding id_text
id_text_injective p q n k e = numbered_injective "-" (omega arith) p q n k e

module _ {F V : Type 0} where
  -- `i` was numbered after all that `m` has handed out.
  abbrev IssuedAfter : Memory F V → String → Type 0
  IssuedAfter m i = (q : String) × (n : ℕ) × (i ≡ id_text q n) × (get_or m.seq q 0 < n)

  IssuedAfter-id : (m : Memory F V) (p i : String) → IssuedAfter (id m p).1 i → IssuedAfter m i
  unfolding id
  IssuedAfter-id m p i (q, n, e, h) =
      (q, n, e, ground (arith, get_or-put m.seq p q (get_or m.seq p 0 + 1) 0, eq_iff p q))

  ids-IssuedAfter : (m : Memory F V) (ps : List String) → All (IssuedAfter m) (ids m ps)
  unfolding ids id
  ids-IssuedAfter m [] = tt
  ids-IssuedAfter m (p ∷ ps) = (
    (p, get_or m.seq p 0 + 1, refl, omega arith),
    All-map_weaken (ids (id m p).1 ps) (IssuedAfter-id m p) (ids-IssuedAfter (id m p).1 ps),
  )

  id-ne : (m : Memory F V) (p i : String) → IssuedAfter (id m p).1 i → (id m p).0 ≢ i
  unfolding id
  id-ne m p i (q, n, e, h) same =
      let (prefix, number) = id_text_injective p q (get_or m.seq p 0 + 1) n (same ∙ e) in
      absurd (ground (arith, get_or-put m.seq p q (get_or m.seq p 0 + 1) 0, eq_iff p q))

  -- Whatever prefixes are asked for, and from whatever state of the store, no id is handed out
  -- twice.
  pub ids-IsDistinct : (m : Memory F V) (ps : List String) → IsDistinct (ids m ps)
  unfolding ids
  ids-IsDistinct m [] = tt
  ids-IsDistinct m (p ∷ ps) = (
    All-map_weaken (ids (id m p).1 ps) (id-ne m p) (ids-IssuedAfter (id m p).1 ps),
    ids-IsDistinct (id m p).1 ps,
  )
