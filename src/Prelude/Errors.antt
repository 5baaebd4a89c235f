-- ===== src/Prelude/Errors.antt =====
-- What a Go function with results `(A, error)` returns.

use mathlib.Core.Option.{Option, none, some}

pub data Outcome {ℓ κ} (E : Type κ) (A : Type ℓ) : Type (ℓ ⊔ κ) where
  ok : A → Outcome E A
  err : E → Outcome E A

infixl 5 ◌>>=◌
abbrev pub ◌>>=◌ {ℓ κ μ} :
    {E : Type κ} {A : Type ℓ} {B : Type μ} → Outcome E A → (A → Outcome E B) → Outcome E B
ok a >>= f = f a
err e >>= f = err e

-- A value that is there, or the error.
abbrev pub or_error {ℓ κ} : {E : Type κ} {A : Type ℓ} → E → Option A → Outcome E A
or_error e none = err e
or_error e (some a) = ok a

-- `if firstErr == nil { firstErr = err }`
abbrev pub first_error {κ} : {E : Type κ} → Option E → Option E → Option E
first_error none e = e
first_error (some e) e' = some e
