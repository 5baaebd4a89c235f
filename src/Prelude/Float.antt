-- ===== src/Prelude/Float.antt =====
-- Go's `float64`, which the model takes as a parameter: a type with the operations that the
-- program applies. `lit m k` is the number nearest to `m / 10 ^ k`.
use Prim.Native.Nat.{ℕ}
use mathlib.Core.Bool.{Bool}

pub record Float (F : Type 0) : Type 0 where
  pub lit : ℕ → ℕ → F
  pub of_nat : ℕ → F
  pub add : F → F → F
  pub mul : F → F → F
  pub div : F → F → F
  pub sqrt : F → F
  pub lt : F → F → Bool
  pub eq : F → F → Bool
