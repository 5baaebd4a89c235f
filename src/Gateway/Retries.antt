-- ===== src/Gateway/Retries.antt =====
-- internal/tools/gateway.go, `Call`: how often a tool is called, and when the attempts stop.
use code_co_driver.Prelude.{
  Bool-cases, Option-cases, is_some, ℕ, zero, suc, ◌+◌, ◌≤◌, ◌≡◌, ◌⊎◌, inl, inr, true, false, ◌||◌,
  not, Option, none, some, arith,
}
use code_co_driver.Gateway.{Context, Tool, attempts}

-- The rows of calls that `Call` may make, by the answers of the tool: each attempt but the last
-- answered an error before the deadline.
pub data Attempts {W A R E : Type 0} (tool : Tool W A R E) (ctx : Context W) (arguments : A)
    : ℕ → W → (R × Option E) × W → Type 0 where
  last : {w : W} → Attempts tool ctx arguments 1 w (tool.call ctx arguments w)
  retry :
      {n : ℕ} {w : W} {final : (R × Option E) × W} (e : E)
      → (tool.call ctx arguments w).0.1 ≡ some e
      → ctx.is_done (tool.call ctx arguments w).1 ≡ false
      → Attempts tool ctx arguments n (tool.call ctx arguments w).1 final
      → Attempts tool ctx arguments (suc n) w final

module _ {W A R E : Type 0} (tool : Tool W A R E) (ctx : Context W) (arguments : A) where
  -- With so many retries the tool is called between once and one time more often, every attempt but
  -- the last answered an error before the deadline, and the attempts end early only on a success or
  -- past the deadline.
  pub attempts-Attempts :
      (retries : ℕ) (w : W)
      → let ((result, error), w') = attempts tool ctx arguments retries w in
        (n : ℕ) × Attempts tool ctx arguments n w ((result, error), w')
        × (n ≤ retries + 1)
        × ((n ≡ retries + 1) ⊎ ((error ≡ none) ⊎ (ctx.is_done w' ≡ true)))
  unfolding attempts
  attempts-Attempts zero w = (1, last, omega arith, inl (omega arith))
  attempts-Attempts (suc retries) w =
      let error = (tool.call ctx arguments w).0.1 in
      let w' = (tool.call ctx arguments w).1 in
      elim (Option-cases error) [
        | inl fine ↦
            let stop : (not (is_some error) || ctx.is_done w') ≡ true = rw fine in
            rw stop (1, last, omega arith, inr (inl fine))
        | inr (e, failed) ↦ elim (Bool-cases (ctx.is_done w')) [
          | inl done ↦
              let stop : (not (is_some error) || ctx.is_done w') ≡ true = rw (failed, done) in
              rw stop (1, last, omega arith, inr (inr done))
          | inr open_still ↦
              let again : (not (is_some error) || ctx.is_done w') ≡ false =
                rw (failed, open_still) in
              let (n, row, bound, end) = attempts-Attempts retries w' in
              rw again (
                suc n,
                retry e failed open_still row,
                omega arith,
                elim end [ inl h ↦ inl (omega arith) | inr h ↦ inr h ],
              )
        ]
      ]
