-- ===== src/Store/Ids.antt =====
-- internal/store/memory.go: `ID`, which numbers the ids of each prefix. The counters are unbounded
-- here (`int` in the source).
pub mod Distinct
use code_co_driver.Prelude.{ℕ, ◌+◌, ◌-◌, String, ◌≡◌, refl, List, [], ◌∷◌}
use code_co_driver.Prelude.Dict.{get_or, put}
use code_co_driver.Prelude.Decimal.{numbered}
use code_co_driver.Store.State.{Memory}

-- `fmt.Sprintf("%s-%d", prefix, n)`
unfoldable pub id_text : String → ℕ → String
unfolding numbered
id_text prefix n = numbered "-" prefix n

module _ {F V : Type 0} where
  -- `ID`
  unfoldable pub id : Memory F V → String → String × Memory F V
  unfolding id_text
  id m prefix =
      let n = get_or m.seq prefix 0 + 1 in (id_text prefix n, record m { seq = put m.seq prefix n })

  -- A row of calls of `ID`.
  pub ids : Memory F V → List String → List String
  ids m [] = []
  ids m (prefix ∷ rest) = let (first, m') = id m prefix in first ∷ ids m' rest

id_text_runs : id_text "task" 1207 ≡ "task-1207"
unfolding id_text
id_text_runs = refl
